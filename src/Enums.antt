-- ===== src/Enums.antt =====
-- backend/app/models/enums.py, and the type tests that the services repeat.
use uvipystock.Prelude.{Bool, true, false}

pub data OrderSide : Type 0 where
  buy sell : OrderSide

pub data OrderType : Type 0 where
  market limit stop_market stop_limit post_only ioc fok trailing_stop iceberg : OrderType

pub data OrderStatus : Type 0 where
  pending new partially_filled filled canceled rejected expired : OrderStatus

pub data OrderAction : Type 0 where
  place cancel modify : OrderAction

abbrev pub is_buy : OrderSide → Bool
is_buy buy = true
is_buy sell = false

abbrev pub opposite : OrderSide → OrderSide
opposite buy = sell
opposite sell = buy

-- `type in ("stop_market", "stop_limit", "trailing_stop")`
abbrev pub is_stop_type : OrderType → Bool
is_stop_type OrderType.stop_market = true
is_stop_type OrderType.stop_limit = true
is_stop_type OrderType.trailing_stop = true
is_stop_type _ = false

abbrev pub is_iceberg : OrderType → Bool
is_iceberg OrderType.iceberg = true
is_iceberg _ = false

abbrev pub is_market : OrderType → Bool
is_market OrderType.market = true
is_market _ = false

abbrev pub is_trailing : OrderType → Bool
is_trailing OrderType.trailing_stop = true
is_trailing _ = false

-- `type in ("limit", "post_only", "ioc", "fok", "iceberg", "stop_limit")`
abbrev pub needs_price : OrderType → Bool
needs_price OrderType.limit = true
needs_price OrderType.post_only = true
needs_price OrderType.ioc = true
needs_price OrderType.fok = true
needs_price OrderType.iceberg = true
needs_price OrderType.stop_limit = true
needs_price _ = false

-- `type in (LIMIT, POST_ONLY, ICEBERG)`: the orders that can rest, and so be modified.
abbrev pub can_rest : OrderType → Bool
can_rest OrderType.limit = true
can_rest OrderType.post_only = true
can_rest OrderType.iceberg = true
can_rest _ = false

-- `Order.is_active`
abbrev pub is_active : OrderStatus → Bool
is_active OrderStatus.new = true
is_active OrderStatus.partially_filled = true
is_active OrderStatus.pending = true
is_active _ = false

abbrev pub is_pending : OrderStatus → Bool
is_pending OrderStatus.pending = true
is_pending _ = false

abbrev pub is_filled : OrderStatus → Bool
is_filled OrderStatus.filled = true
is_filled _ = false
