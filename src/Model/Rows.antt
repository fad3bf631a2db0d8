-- ===== src/Model/Rows.antt =====
-- The rows of the tables: backend/app/models/balance.py, order.py, trading_pair.py, trade.py.
-- Symbols, assets and client identifiers are only compared, so they are numbers. The columns
-- `created_at` and `updated_at` are not modelled.
use uvipystock.Prelude.{ℕ, ◌-◌, Option, Bool}
use uvipystock.Prelude.Int.{ℤ}
use uvipystock.Enums.{OrderSide, OrderType, OrderStatus}

-- `locked_balance` and `available_balance` are decreased behind a guard only, so they are never
-- negative; `total_balance` has no guard of its own.
pub record Balance : Type 0 where
  pub user_id : ℕ
  pub asset : ℕ
  pub total_balance : ℤ
  pub locked_balance : ℕ
  pub available_balance : ℕ
  pub version : ℕ

pub record TradingPair : Type 0 where
  pub symbol : ℕ
  pub base_asset : ℕ
  pub quote_asset : ℕ
  pub min_lot_size : ℕ
  pub max_lot_size : ℕ
  pub tick_size : ℕ
  pub is_active : Bool

pub record Order : Type 0 where
  pub id : ℕ
  pub user_id : ℕ
  pub symbol : ℕ
  pub side : OrderSide
  pub type : OrderType
  pub status : OrderStatus
  pub price : Option ℕ
  pub stop_price : Option ℕ
  pub trailing_delta : Option ℕ
  pub quantity : ℕ
  pub filled_quantity : ℕ
  pub filled_quote_qty : ℕ
  pub visible_quantity : Option ℕ
  pub hidden_quantity : Option ℕ
  pub replace_count : ℕ
  pub replaces_id : Option ℕ
  pub replaced_by_id : Option ℕ
  pub parent_order_id : Option ℕ
  pub sl_order_id : Option ℕ
  pub tp_order_id : Option ℕ
  pub bulk_id : Option ℕ
  pub version : ℕ

-- Zero where the source would give a negative number; every caller tests `> 0` first.
abbrev pub remaining_quantity : Order → ℕ
remaining_quantity o = o.quantity - o.filled_quantity

pub record Trade : Type 0 where
  pub taker_order_id : ℕ
  pub maker_order_id : ℕ
  pub symbol : ℕ
  pub price : ℕ
  pub quantity : ℕ
  pub quote_quantity : ℕ
  pub side : OrderSide
  pub taker_user_id : ℕ
  pub maker_user_id : ℕ
