-- ===== src/Tests/Trading.antt =====
-- Orders and a batch of trades between a buyer, user 1, and a seller, user 2, in the pair of the
-- assets 7 and 8.
use uvipystock.Prelude.{
  ℕ, ◌+◌, ◌*◌, ◌==◌, ◌≡◌, refl, arith, true, false, List, [], ◌∷◌, ◌++◌, none, some, if◌then◌else◌,
}
use uvipystock.Prelude.Int.{pos}
use uvipystock.Enums.{OrderSide, buy, sell, OrderType, OrderStatus}
use uvipystock.Model.{World, pair_by_symbol}
use uvipystock.Model.Rows.{Balance, Order, TradingPair}
use uvipystock.Exec.{ok, transaction}
use uvipystock.Balance.Repo.{get_by_user_asset, put, lock_row}
use uvipystock.Balance.Laws.{supply}
use uvipystock.Orders.Repo.{get_order, put_order}
use uvipystock.Orders.Validate.{MakerOrder}
use uvipystock.Stops.Monitor.{trigger_stop_order, triggered_order, child_order}
use uvipystock.Stops.Triggered.{triggered_once}
use uvipystock.Trade.Service.{persist_trade_batch}
use uvipystock.Trade.Fills.{MatchTrade, Batch}
use uvipystock.Trade.Flow.{Ready}
use uvipystock.Trade.Batches.{batch_conserves}

abbrev pub one : ℕ
one = 1_000_000_000_000_000_000

abbrev pub row : ℕ → ℕ → ℕ → ℕ → Balance
row user_id asset locked available = record {
  user_id = user_id;
  asset = asset;
  total_balance = pos (locked + available);
  locked_balance = locked;
  available_balance = available;
  version = 1;
}

abbrev pub an_order : ℕ → ℕ → OrderSide → OrderType → OrderStatus → Order
an_order id user_id side type status = record {
  id = id;
  user_id = user_id;
  symbol = 1;
  side = side;
  type = type;
  status = status;
  price = some (2 * one);
  stop_price = some (2 * one);
  trailing_delta = none;
  quantity = 3 * one;
  filled_quantity = 0;
  filled_quote_qty = 0;
  visible_quantity = none;
  hidden_quantity = none;
  replace_count = 0;
  replaces_id = none;
  replaced_by_id = none;
  parent_order_id = none;
  sl_order_id = none;
  tp_order_id = none;
  bulk_id = none;
  version = 1;
}

abbrev pub pair : TradingPair
pair = record {
  symbol = 1;
  base_asset = 7;
  quote_asset = 8;
  min_lot_size = 1;
  max_lot_size = 100 * one;
  tick_size = 1;
  is_active = true;
}

abbrev pub world : World
world = record {
  balances =
      row 1 7 0 0 ∷ row 1 8 (6 * one) (5 * one) ∷ row 2 7 (3 * one) (4 * one) ∷ row 2 8 0 0 ∷ [];
  orders =
      an_order 5 1 buy OrderType.limit OrderStatus.new
      ∷ an_order 6 2 sell OrderType.limit OrderStatus.new
      ∷ an_order 7 2 sell OrderType.stop_market OrderStatus.pending
      ∷ [];
  pairs = pair ∷ [];
  trades = [];
  next_order_id = 8;
  commands = [];
}

abbrev batch : Batch
batch = record {
  taker_user_id = 1;
  taker_order_id = 5;
  taker_side = buy;
  symbol = 1;
  base_asset = 7;
  quote_asset = 8;
}

abbrev a_trade : MatchTrade
a_trade = record { maker_order_id = 6; price = 2 * one; quantity = 3 * one; maker_user_id = 2 }

abbrev users : ℕ → ℕ
users id = if id == 5 then 1 else 2

world-Ready : Ready 7 8 users (5 ∷ 6 ∷ []) world
unfolding get_order get_by_user_asset
world-Ready = record {
  owner = λ id h. ground arith;
  base_row = λ id h. ground arith;
  quote_row = λ id h. ground arith;
}

batch_conserves_example :
    supply 8 (transaction (persist_trade_batch batch (a_trade ∷ [])) world).1.balances
    ≡ supply 8 world.balances
batch_conserves_example =
    batch_conserves batch users (5 ∷ 6 ∷ []) 8 (a_trade ∷ []) world refl (refl, tt) world-Ready

stop_found :
    get_order world.orders 7 ≡ some (an_order 7 2 sell OrderType.stop_market OrderStatus.pending)
unfolding get_order
stop_found = refl

pub pair_found : pair_by_symbol world.pairs 1 ≡ some pair
unfolding pair_by_symbol
pair_found = refl

seller_row : get_by_user_asset world.balances 2 7 ≡ some (row 2 7 (3 * one) (4 * one))
unfolding get_by_user_asset
seller_row = refl

pub buyer_row : get_by_user_asset world.balances 1 8 ≡ some (row 1 8 (6 * one) (5 * one))
unfolding get_by_user_asset
buyer_row = refl

abbrev a_stop : Order
a_stop = an_order 7 2 sell OrderType.stop_market OrderStatus.pending

abbrev pub no_asks : ℕ → List MakerOrder
no_asks symbol = []

triggered_once_example :
    let r = trigger_stop_order no_asks 7 false world in
    (r.0 ≡ ok tt)
    × (r.1.balances ≡ put (lock_row (3 * one) (row 2 7 (3 * one) (4 * one))) world.balances)
    × (r.1.orders
        ≡ put_order (triggered_order a_stop) world.orders
          ++ record (child_order a_stop) { id = 8 } ∷ [])
    × (trigger_stop_order no_asks 7 true r.1 ≡ (ok tt, r.1))
triggered_once_example =
    triggered_once no_asks 7 2_999_999_999_999_999_999 false a_stop pair 7
      (row 2 7 (3 * one) (4 * one)) world stop_found refl pair_found refl seller_row (omega arith)
      true
