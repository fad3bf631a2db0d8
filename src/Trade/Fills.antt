-- ===== src/Trade/Fills.antt =====
-- backend/app/services/trade_service.py: the trades that a match gives, and what each maker and the
-- taker trade in them.
use uvipystock.Prelude.{ℕ, ◌+◌, ◌==◌, if◌then◌else◌, List, [], ◌∷◌, ◌++◌}
use uvipystock.Enums.{OrderSide}
use uvipystock.Model.Decimal.{mul}
use uvipystock.Model.Rows.{Trade}

-- A trade of the matcher, with the maker's user as the worker reads it from the order HASH.
pub record MatchTrade : Type 0 where
  pub maker_order_id : ℕ
  pub price : ℕ
  pub quantity : ℕ
  pub maker_user_id : ℕ

-- The arguments that are the same for the whole batch.
pub record Batch : Type 0 where
  pub taker_user_id : ℕ
  pub taker_order_id : ℕ
  pub taker_side : OrderSide
  pub symbol : ℕ
  pub base_asset : ℕ
  pub quote_asset : ℕ

-- An entry of `maker_fill_deltas`.
pub record Fill : Type 0 where
  pub order_id : ℕ
  pub qty : ℕ
  pub quote_qty : ℕ

unfoldable pub add_fill : ℕ → ℕ → ℕ → List Fill → List Fill
add_fill id qty quote [] = record { order_id = id; qty = qty; quote_qty = quote } ∷ []
add_fill id qty quote (f ∷ fs) =
    if f.order_id == id
    then record f { qty = f.qty + qty; quote_qty = f.quote_qty + quote } ∷ fs
    else f ∷ add_fill id qty quote fs

pub record Totals : Type 0 where
  pub persisted : List Trade
  pub fills : List Fill
  pub taker_total_qty : ℕ
  pub taker_total_quote : ℕ

abbrev pub no_totals : Totals
no_totals = record { persisted = []; fills = []; taker_total_qty = 0; taker_total_quote = 0 }

unfoldable pub trade_row : Batch → MatchTrade → Trade
trade_row b t = record {
  taker_order_id = b.taker_order_id;
  maker_order_id = t.maker_order_id;
  symbol = b.symbol;
  price = t.price;
  quantity = t.quantity;
  quote_quantity = mul t.price t.quantity;
  side = b.taker_side;
  taker_user_id = b.taker_user_id;
  maker_user_id = t.maker_user_id;
}

-- The first loop of `persist_trade_batch`.
unfoldable pub collect : Batch → List MatchTrade → Totals → Totals
unfolding add_fill trade_row
collect b [] acc = acc
collect b (t ∷ ts) acc =
    let quote = mul t.price t.quantity in
    collect b ts (record {
      persisted = acc.persisted ++ trade_row b t ∷ [];
      fills = add_fill t.maker_order_id t.quantity quote acc.fills;
      taker_total_qty = acc.taker_total_qty + t.quantity;
      taker_total_quote = acc.taker_total_quote + quote;
    })
