-- ===== src/Redis/Payload.antt =====
-- The queue item of backend/app/redis_client/queues.py and the order HASH of orderbook.py.
use uvipystock.Prelude.{ℕ, Option, none, Bool, false, if◌then◌else◌}
use uvipystock.Enums.{OrderSide, OrderType, OrderAction}
use uvipystock.Model.Decimal.{or_zero}

-- The JSON object, and `OrderActionPayload` of backend/app/matching/worker.py: a key that is left
-- out is `none`. The timestamp `ts` is not modelled.
pub record OrderActionPayload : Type 0 where
  pub action : OrderAction
  pub order_id : ℕ
  pub symbol : ℕ
  pub user_id : ℕ
  pub side : OrderSide
  pub type : OrderType
  pub price : Option ℕ
  pub stop_price : Option ℕ
  pub quantity : ℕ
  pub is_iceberg : Bool
  pub visible_qty : Option ℕ
  pub hidden_qty : Option ℕ
  pub parent_order_id : Option ℕ
  pub replaces_id : Option ℕ
  pub bulk_id : Option ℕ

-- The keyword arguments, with their defaults in `payload_args`.
pub record PayloadArgs : Type 0 where
  pub price : Option ℕ
  pub stop_price : Option ℕ
  pub quantity : Option ℕ
  pub is_iceberg : Bool
  pub visible_qty : Option ℕ
  pub hidden_qty : Option ℕ
  pub parent_order_id : Option ℕ
  pub replaces_id : Option ℕ
  pub bulk_id : Option ℕ

abbrev pub payload_args : PayloadArgs
payload_args = record {
  price = none;
  stop_price = none;
  quantity = none;
  is_iceberg = false;
  visible_qty = none;
  hidden_qty = none;
  parent_order_id = none;
  replaces_id = none;
  bulk_id = none;
}

-- The visible and hidden parts are written for an iceberg only, and the quantity always.
unfoldable pub build_order_action_payload :
    OrderAction → ℕ → ℕ → ℕ → OrderSide → OrderType → PayloadArgs → OrderActionPayload
build_order_action_payload action order_id symbol user_id side type args = record {
  action = action;
  order_id = order_id;
  symbol = symbol;
  user_id = user_id;
  side = side;
  type = type;
  price = args.price;
  stop_price = args.stop_price;
  quantity = or_zero args.quantity;
  is_iceberg = args.is_iceberg;
  visible_qty = if args.is_iceberg then args.visible_qty else none;
  hidden_qty = if args.is_iceberg then args.hidden_qty else none;
  parent_order_id = args.parent_order_id;
  replaces_id = args.replaces_id;
  bulk_id = args.bulk_id;
}

-- The metadata that `store_order_hash` writes; a key that the caller leaves out is `none`, and so
-- is one that it writes as the empty string.
pub record OrderHash : Type 0 where
  pub order_id : ℕ
  pub user_id : ℕ
  pub symbol : ℕ
  pub side : OrderSide
  pub type : OrderType
  pub price : Option ℕ
  pub stop_price : Option ℕ
  pub quantity : ℕ
  pub visible_quantity : Option ℕ
  pub hidden_quantity : Option ℕ
  pub is_iceberg : Bool
  pub bulk_id : Option ℕ
