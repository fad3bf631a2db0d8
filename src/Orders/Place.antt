-- ===== src/Orders/Place.antt =====
-- backend/app/services/order_service.py: `place_order`, and the helpers that the bulk placement
-- shares with it. `asks` is what Redis returns for the ask side of a symbol; no other transaction
-- changes a balance while an order is placed.
use uvipystock.Prelude.{
  ℕ, ◌+◌, ◌==◌, ltb, false, ◌&&◌, if◌then◌else◌, List, [], ◌∷◌, ◌++◌, Option, none, some,
}
use uvipystock.Prelude.Int.{pos}
use uvipystock.Enums.{
  OrderStatus, place, opposite, is_buy, is_stop_type, is_iceberg, is_market, is_trailing,
}
use uvipystock.Model.Decimal.{or_zero}
use uvipystock.Model.Rows.{Order}
use uvipystock.Redis.{
  Command, publish, order_update, EventName, Reason, market_buy_estimate, order_placed,
  register_trailing_stop, add_stop_order, add_open_order, store_order_hash, OrderHash,
  enqueue_order_action, build_order_action_payload, payload_args,
}
use uvipystock.Exec.{Exec, ok, pure, send, when, ◌>>=◌, ◌>>◌}
use uvipystock.Balance.Service.{quiet, lock_optimistic}
use uvipystock.Orders.Repo.{put_order}
use uvipystock.Orders.Validate.{
  OrderCreate, SltpConfig, MakerOrder, Lock, validate_and_get_pair, validate_params, lock_for,
}

-- `float(x) if x else None`
abbrev pub or_none : Option ℕ → Option ℕ
or_none none = none
or_none (some x) = if x == 0 then none else some x

-- `session.add` and `flush`: the row gets the next id of the sequence.
unfoldable pub insert_order : Order → Exec Order
insert_order o w =
    let o' = record o { id = w.next_order_id } in
    (ok o', record w { orders = w.orders ++ o' ∷ []; next_order_id = w.next_order_id + 1 })

abbrev pub save : Order → Exec Order
save o w = (ok o, record w { orders = put_order o w.orders })

-- The row of a new order, before it has its id.
abbrev pub new_order : ℕ → OrderCreate → Order
new_order user_id dto = record {
  id = 0;
  user_id = user_id;
  symbol = dto.symbol;
  side = dto.side;
  type = dto.type;
  status = if is_stop_type dto.type then OrderStatus.pending else OrderStatus.new;
  price = dto.price;
  stop_price = dto.stop_price;
  trailing_delta = dto.trailing_delta;
  quantity = dto.quantity;
  filled_quantity = 0;
  filled_quote_qty = 0;
  visible_quantity = if is_iceberg dto.type then dto.visible_quantity else some dto.quantity;
  hidden_quantity = if is_iceberg dto.type then dto.hidden_quantity else none;
  replace_count = 0;
  replaces_id = none;
  replaced_by_id = none;
  parent_order_id = none;
  sl_order_id = none;
  tp_order_id = none;
  bulk_id = dto.bulk_id;
  version = 1;
}

abbrev quantity_or : Option ℕ → ℕ → ℕ
quantity_or none q = q
quantity_or (some x) q = x

-- The row of an SL or TP child: the opposite side, pending, no lock.
abbrev pub sltp_child : ℕ → SltpConfig → Order → Order
sltp_child user_id config parent = record {
  id = 0;
  user_id = user_id;
  symbol = parent.symbol;
  side = opposite parent.side;
  type = config.type;
  status = OrderStatus.pending;
  price = config.price;
  stop_price = config.stop_price;
  trailing_delta = none;
  quantity = quantity_or config.quantity parent.quantity;
  filled_quantity = 0;
  filled_quote_qty = 0;
  visible_quantity = none;
  hidden_quantity = none;
  replace_count = 0;
  replaces_id = none;
  replaced_by_id = none;
  parent_order_id = some parent.id;
  sl_order_id = none;
  tp_order_id = none;
  bulk_id = none;
  version = 1;
}

-- `_create_sltp_child`
unfoldable pub create_sltp_child : ℕ → SltpConfig → Order → Exec Order
unfolding insert_order
create_sltp_child user_id config parent = insert_order (sltp_child user_id config parent)

unfoldable pub link_sl : ℕ → Option SltpConfig → Order → Exec Order
unfolding create_sltp_child
link_sl user_id none o = pure o
link_sl user_id (some config) o = do
  child ← create_sltp_child user_id config o
  save (record o { sl_order_id = some child.id })

unfoldable pub link_tp : ℕ → Option SltpConfig → Order → Exec Order
unfolding create_sltp_child
link_tp user_id none o = pure o
link_tp user_id (some config) o = do
  child ← create_sltp_child user_id config o
  save (record o { tp_order_id = some child.id })

-- The row with its children: what both ways to place an order insert.
unfoldable pub insert_with_children : ℕ → OrderCreate → Exec Order
unfolding insert_order link_sl link_tp
insert_with_children user_id dto = do
  o ← insert_order (new_order user_id dto)
  o' ← link_sl user_id dto.sl o
  link_tp user_id dto.tp o'

abbrev order_hash : Order → OrderHash
order_hash o = record {
  order_id = o.id;
  user_id = o.user_id;
  symbol = o.symbol;
  side = o.side;
  type = o.type;
  price = or_none o.price;
  stop_price = none;
  quantity = o.quantity;
  visible_quantity = or_none o.visible_quantity;
  hidden_quantity = or_none o.hidden_quantity;
  is_iceberg = is_iceberg o.type;
  bulk_id = none;
}

abbrev stop_hash : Order → OrderHash
stop_hash o = record {
  order_id = o.id;
  user_id = o.user_id;
  symbol = o.symbol;
  side = o.side;
  type = o.type;
  price = none;
  stop_price = or_none o.stop_price;
  quantity = o.quantity;
  visible_quantity = none;
  hidden_quantity = none;
  is_iceberg = false;
  bulk_id = none;
}

-- `_register_stop_order`
unfoldable pub register_stop_order : Order → List Command
unfolding register_trailing_stop add_stop_order add_open_order store_order_hash
register_stop_order o =
    (if is_trailing o.type
      then register_trailing_stop (record {
        order_id = o.id;
        symbol = o.symbol;
        side = o.side;
        delta_value = or_zero o.trailing_delta;
        current_extreme = or_zero o.stop_price;
        current_trigger = or_zero o.stop_price;
      })
      else add_stop_order o.id o.symbol (or_zero o.stop_price))
    ++ (add_open_order o.user_id o.symbol o.id ++ store_order_hash o.id (stop_hash o))

-- Queue first, then the open-orders index and the HASH; `bulk_id` is in the HASH of a bulk order.
unfoldable pub enqueue_placed : Option ℕ → Order → List Command
unfolding enqueue_order_action build_order_action_payload add_open_order store_order_hash
enqueue_placed hash_bulk_id o =
    enqueue_order_action (
      build_order_action_payload place o.id o.symbol o.user_id o.side o.type (record payload_args {
        price = or_none o.price;
        quantity = some o.quantity;
        is_iceberg = is_iceberg o.type;
        visible_qty = or_none o.visible_quantity;
        hidden_qty = or_none o.hidden_quantity;
        bulk_id = o.bulk_id;
      }))
    ++ (add_open_order o.user_id o.symbol o.id
        ++ store_order_hash o.id (record (order_hash o) { bulk_id = hash_bulk_id }))

abbrev pub placed_event : Order → Command
placed_event o = publish (
    order_update o.user_id (if is_stop_type o.type then EventName.pending else EventName.placed)
      o.id o.status)

abbrev pub lock_reason : OrderCreate → Reason
lock_reason dto =
    if is_market dto.type && is_buy dto.side then market_buy_estimate else order_placed

-- `if not is_stop and lock_amount > 0: lock_optimistic(...)`
abbrev pub take_some : ℕ → Option ℕ → ℕ → Reason → Exec (Unit {0})
take_some user_id none amount reason w = (ok tt, w)
take_some user_id (some asset) amount reason w =
    when (ltb 0 amount) (lock_optimistic quiet user_id asset (pos amount) reason none) w

abbrev pub take_lock : ℕ → Lock → Reason → Exec (Unit {0})
take_lock user_id lock reason = take_some user_id lock.asset lock.amount reason

module _ (asks : ℕ → List MakerOrder) where
  -- `place_order`
  unfoldable pub place_order : ℕ → OrderCreate → Exec Order
  unfolding insert_with_children
  place_order user_id dto = do
    pair ← validate_and_get_pair dto.symbol
    validate_params dto pair
    lock ← lock_for asks dto pair
    take_lock user_id lock (lock_reason dto)
    o ← insert_with_children user_id dto
    send (if is_stop_type o.type then register_stop_order o else enqueue_placed none o)
    send (placed_event o ∷ [])
    pure o
