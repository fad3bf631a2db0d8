-- ===== src/Api/Schema.antt =====
-- backend/app/schemas/order.py: the bodies of the order requests, their validators, and
-- `_request_to_dto` of api/v1/orders.py. The length of a text is not modelled.
use uvipystock.Prelude.{
  ℕ, ltb, leb, Bool, true, false, ◌&&◌, List, [], ◌∷◌, Option, none, some, length, map,
}
use uvipystock.Enums.{OrderSide, OrderType}
use uvipystock.Orders.Validate.{SltpConfig, OrderCreate}

-- `TimeInForce`
pub data TimeInForce : Type 0 where
  gtc ioc fok post_only : TimeInForce

pub record OrderCreateRequest : Type 0 where
  pub symbol : ℕ
  pub side : OrderSide
  pub type : OrderType
  pub price : Option ℕ
  pub stop_price : Option ℕ
  pub trailing_delta : Option ℕ
  pub quantity : ℕ
  pub time_in_force : TimeInForce
  pub client_order_id : Option ℕ
  pub post_only : Bool
  pub iceberg_visible_quantity : Option ℕ
  pub iceberg_hidden_quantity : Option ℕ
  pub sl : Option SltpConfig
  pub tp : Option SltpConfig

pub record OrderBulkCreateRequest : Type 0 where
  pub bulk_id : Option ℕ
  pub orders : List OrderCreateRequest

pub record OrderModifyRequest : Type 0 where
  pub price : ℕ
  pub quantity : ℕ
  pub time_in_force : TimeInForce

-- `must_be_positive`
abbrev pub is_positive : Option ℕ → Bool
is_positive none = true
is_positive (some v) = ltb 0 v

-- `Literal["stop_market", "stop_limit", "limit"]`
abbrev pub is_child_type : OrderType → Bool
is_child_type OrderType.stop_market = true
is_child_type OrderType.stop_limit = true
is_child_type OrderType.limit = true
is_child_type _ = false

-- `SLTPConfigSchema`
abbrev pub valid_child : Option SltpConfig → Bool
valid_child none = true
valid_child (some c) =
    is_child_type c.type
    && is_positive c.stop_price
    && is_positive c.price
    && is_positive c.quantity

unfoldable pub valid_create : OrderCreateRequest → Bool
valid_create r =
    is_positive r.price
    && is_positive r.stop_price
    && is_positive r.trailing_delta
    && ltb 0 r.quantity
    && valid_child r.sl
    && valid_child r.tp

abbrev all_valid : List OrderCreateRequest → Bool
all_valid [] = true
all_valid (r ∷ rs) = valid_create r && all_valid rs

unfoldable pub valid_bulk : OrderBulkCreateRequest → Bool
unfolding valid_create
valid_bulk r = leb 1 (length r.orders) && leb (length r.orders) 50 && all_valid r.orders

unfoldable pub valid_modify : OrderModifyRequest → Bool
valid_modify r = ltb 0 r.price && ltb 0 r.quantity

-- `_request_to_dto`: `time_in_force` and `post_only` are not passed on.
unfoldable pub request_to_dto : Option ℕ → OrderCreateRequest → OrderCreate
request_to_dto bulk_id r = record {
  symbol = r.symbol;
  side = r.side;
  type = r.type;
  price = r.price;
  stop_price = r.stop_price;
  trailing_delta = r.trailing_delta;
  quantity = r.quantity;
  visible_quantity = r.iceberg_visible_quantity;
  hidden_quantity = r.iceberg_hidden_quantity;
  sl = r.sl;
  tp = r.tp;
  client_order_id = r.client_order_id;
  bulk_id = bulk_id;
}

abbrev pub dtos_of : OrderBulkCreateRequest → List OrderCreate
dtos_of r = map (request_to_dto r.bulk_id) r.orders
