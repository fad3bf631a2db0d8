-- ===== src/Redis/Commands.antt =====
-- Keys, commands and events.
use uvipystock.Prelude.{ℕ, ◌*◌, Option, List, [], ◌∷◌}
use uvipystock.Prelude.Int.{ℤ, pos}
use uvipystock.Enums.{OrderSide, OrderStatus, buy, sell}
use uvipystock.Redis.Payload.{OrderActionPayload, OrderHash}

pub data Key : Type 0 where
  bids_key : ℕ → Key
  asks_key : ℕ → Key
  order_hash_key : ℕ → Key
  seq_key : ℕ → Key
  user_open_orders_key : ℕ → Key
  user_open_orders_by_symbol_key : ℕ → ℕ → Key
  symbol_open_orders_key : ℕ → Key
  stops_key : ℕ → Key
  trailing_key : ℕ → Key
  trailing_state_key : ℕ → Key

pub data Reason : Type 0 where
  order_placed market_buy_estimate stop_triggered order_modified : Reason
  order_canceled order_rejected market_buy_refund : Reason
  trade_settled trade_received admin_adjustment deposit : Reason

pub data EventName : Type 0 where
  placed pending filled partially_filled canceled rejected expired modified triggered : EventName

-- What the publishers of pubsub.py send, without the fields that repeat the row.
pub data Event : Type 0 where
  balance_update : ℕ → ℕ → ℤ → Reason → Option ℕ → Event
  order_update : ℕ → EventName → ℕ → OrderStatus → Event
  trade_print : ℕ → ℕ → ℕ → OrderSide → ℕ → Event
  bulk_place_result : ℕ → Option ℕ → ℕ → ℕ → Event
  bulk_cancel_result : ℕ → ℕ → ℕ → List ℕ → Event
  sl_tp_activated : ℕ → ℕ → Option ℕ → Option ℕ → Event
  orderbook_snapshot : ℕ → Event

-- The state HASH of a trailing stop, as `register_trailing_stop` writes it (`delta_type` is "abs").
pub record TrailingState : Type 0 where
  pub order_id : ℕ
  pub symbol : ℕ
  pub side : OrderSide
  pub delta_value : ℕ
  pub current_extreme : ℕ
  pub current_trigger : ℕ

pub data Command : Type 0 where
  sadd : Key → ℕ → Command
  srem : Key → ℕ → Command
  zadd : Key → ℕ → ℤ → Command
  incr : Key → Command
  zrem : Key → ℕ → Command
  del : Key → Command
  hset_order : Key → OrderHash → Command
  hset_fill : Key → ℕ → ℕ → OrderStatus → Command
  hset_status : Key → ℕ → OrderStatus → Command
  hset_trailing : Key → TrailingState → Command
  hset_trigger : Key → ℕ → ℤ → Command
  lpush_order : OrderActionPayload → Command
  publish : Event → Command

-- `side_key`
abbrev pub side_key : ℕ → OrderSide → Key
side_key symbol buy = bids_key symbol
side_key symbol sell = asks_key symbol

-- `SCORE_MULTIPLIER`: the module sets 10^9 first, and then 10^6, which is what callers see.
abbrev pub score_multiplier : ℕ
score_multiplier = 1_000_000

-- orders_index.py
unfoldable pub add_open_order : ℕ → ℕ → ℕ → List Command
add_open_order user_id symbol order_id =
    sadd (user_open_orders_key user_id) order_id
    ∷ sadd (user_open_orders_by_symbol_key user_id symbol) order_id
    ∷ sadd (symbol_open_orders_key symbol) order_id
    ∷ []

unfoldable pub remove_open_order : ℕ → ℕ → ℕ → List Command
remove_open_order user_id symbol order_id =
    srem (user_open_orders_key user_id) order_id
    ∷ srem (user_open_orders_by_symbol_key user_id symbol) order_id
    ∷ srem (symbol_open_orders_key symbol) order_id
    ∷ []

-- orderbook.py
unfoldable pub store_order_hash : ℕ → OrderHash → List Command
store_order_hash order_id metadata = hset_order (order_hash_key order_id) metadata ∷ []

unfoldable pub delete_order_hash : ℕ → List Command
delete_order_hash order_id = del (order_hash_key order_id) ∷ []

unfoldable pub remove_resting_order : ℕ → ℕ → OrderSide → List Command
remove_resting_order order_id symbol side = zrem (side_key symbol side) order_id ∷ []

-- stops.py
unfoldable pub add_stop_order : ℕ → ℕ → ℕ → List Command
add_stop_order order_id symbol stop_price =
    zadd (stops_key symbol) order_id (pos (stop_price * score_multiplier)) ∷ []

unfoldable pub remove_stop_order : ℕ → ℕ → List Command
remove_stop_order order_id symbol = zrem (stops_key symbol) order_id ∷ []

unfoldable pub register_trailing_stop : TrailingState → List Command
register_trailing_stop s =
    zadd (trailing_key s.symbol) s.order_id (pos (s.current_trigger * score_multiplier))
    ∷ hset_trailing (trailing_state_key s.order_id) s
    ∷ []

unfoldable pub remove_trailing_stop : ℕ → ℕ → List Command
remove_trailing_stop order_id symbol =
    zrem (trailing_key symbol) order_id ∷ del (trailing_state_key order_id) ∷ []

-- queues.py
unfoldable pub enqueue_order_action : OrderActionPayload → List Command
enqueue_order_action payload = lpush_order payload ∷ []
