-- ===== src/Orders/Modify.antt =====
-- backend/app/services/order_service.py: `modify_order`. No other transaction changes a balance while
-- it runs.
use uvipystock.Prelude.{
  ℕ, ◌+◌, ◌==◌, ltb, not, if◌then◌else◌, List, [], ◌∷◌, ◌++◌, Option, none, some,
}
use uvipystock.Prelude.Int.{pos}
use uvipystock.Enums.{OrderSide, buy, sell, OrderStatus, modify, is_active, is_iceberg, can_rest}
use uvipystock.Model.{pair_by_symbol}
use uvipystock.Model.Decimal.{mul, or_zero}
use uvipystock.Model.Rows.{Order, TradingPair, remaining_quantity}
use uvipystock.Redis.{
  Command, publish, order_update, EventName, order_modified, order_placed, remove_resting_order,
  delete_order_hash, remove_open_order, add_open_order, store_order_hash, OrderHash,
  enqueue_order_action, build_order_action_payload, payload_args,
}
use uvipystock.Exec.{
  Exec, Error, ok, err, pure, raise, raise_if, gets, or_raise, send, when, catch, ◌>>=◌, ◌>>◌,
  bind_result, order_not_found, order_not_cancelable, order_validation, assertion_error,
  insufficient_balance,
}
use uvipystock.Exec
use uvipystock.Balance.Service.{quiet, lock_optimistic, unlock_optimistic}
use uvipystock.Orders.Repo.{get_order, update_status}
use uvipystock.Orders.Place.{or_none, insert_order, save}
use uvipystock.Orders.Cancel.{unlock_asset}

-- The amount of `modify_order`, for the old and for the new parameters.
abbrev pub lock_at : OrderSide → ℕ → ℕ → ℕ
lock_at buy quantity price = mul quantity price
lock_at sell quantity price = quantity

abbrev pub replacement : Order → ℕ → ℕ → Order
replacement old price quantity = record {
  id = 0;
  user_id = old.user_id;
  symbol = old.symbol;
  side = old.side;
  type = old.type;
  status = OrderStatus.new;
  price = some price;
  stop_price = none;
  trailing_delta = none;
  quantity = quantity;
  filled_quantity = 0;
  filled_quote_qty = 0;
  visible_quantity = if is_iceberg old.type then old.visible_quantity else some quantity;
  hidden_quantity = if is_iceberg old.type then old.hidden_quantity else none;
  replace_count = old.replace_count + 1;
  replaces_id = some old.id;
  replaced_by_id = none;
  parent_order_id = none;
  sl_order_id = none;
  tp_order_id = none;
  bulk_id = none;
  version = 1;
}

abbrev replacement_hash : Order → OrderHash
replacement_hash o = record {
  order_id = o.id;
  user_id = o.user_id;
  symbol = o.symbol;
  side = o.side;
  type = o.type;
  price = o.price;
  stop_price = none;
  quantity = o.quantity;
  visible_quantity = or_none o.visible_quantity;
  hidden_quantity = or_none o.hidden_quantity;
  is_iceberg = is_iceberg o.type;
  bulk_id = none;
}

unfoldable pub modify_commands : ℕ → Order → Order → List Command
unfolding remove_resting_order delete_order_hash remove_open_order add_open_order store_order_hash
    enqueue_order_action build_order_action_payload
modify_commands user_id old new =
    remove_resting_order old.id old.symbol old.side
    ++ (delete_order_hash old.id
        ++ (remove_open_order user_id old.symbol old.id
            ++ (add_open_order user_id new.symbol new.id
                ++ (store_order_hash new.id (replacement_hash new)
                    ++ (enqueue_order_action (
                          build_order_action_payload modify new.id new.symbol user_id new.side
                            new.type
                            (record payload_args {
                              price = or_none new.price;
                              quantity = some new.quantity;
                              replaces_id = some old.id;
                            }))
                        ++ publish (order_update user_id EventName.modified new.id new.status)
                          ∷ [])))))

-- The order that belongs to the user, or nothing.
abbrev pub owned : ℕ → Option Order → Option Order
owned user_id none = none
owned user_id (some o) = if o.user_id == user_id then some o else none

-- On a refusal the old amount is locked again, and the refusal is raised.
unfoldable pub relock : ℕ → ℕ → ℕ → ℕ → Error → Exec (Unit {0})
relock user_id asset amount order_id insufficient_balance = do
  lock_optimistic quiet user_id asset (pos amount) order_placed (some order_id)
  raise insufficient_balance
relock user_id asset amount order_id e = raise e

-- The balance part of `modify_order`: unlock the old remainder, check, lock the new amount.
unfoldable pub swap_lock : ℕ → TradingPair → Order → ℕ → ℕ → Exec (Unit {0})
unfolding relock
swap_lock user_id pair o price quantity =
    let asset = unlock_asset pair o.side in
    let released = lock_at o.side (remaining_quantity o) (or_zero o.price) in
    do
      when (ltb 0 released)
          (unlock_optimistic quiet user_id asset (pos released) order_modified (some o.id))
      raise_if (price == 0) order_validation
      raise_if (quantity == 0) order_validation
      raise_if (ltb quantity pair.min_lot_size) order_validation
      catch
          (lock_optimistic quiet user_id asset (pos (lock_at o.side quantity price)) order_modified
            (some o.id))
          (relock user_id asset released o.id)

-- `modify_order`
unfoldable pub modify_order : ℕ → ℕ → ℕ → ℕ → Exec Order
unfolding swap_lock insert_order
modify_order user_id order_id price quantity = do
  found ← gets (λ w. get_order w.orders order_id)
  o ← or_raise (owned user_id found) order_not_found
  raise_if (not (is_active o.status)) order_not_cancelable
  raise_if (not (can_rest o.type)) order_not_cancelable
  pair? ← gets (λ w. pair_by_symbol w.pairs o.symbol)
  pair ← or_raise pair? assertion_error
  swap_lock user_id pair o price quantity
  Exec.modify (λ w. record w { orders = update_status o.id OrderStatus.canceled w.orders })
  new ← insert_order (replacement o price quantity)
  save (record o {
    status = OrderStatus.canceled;
    version = o.version + 1;
    replaced_by_id = some new.id;
  })
  send (modify_commands user_id o new)
  pure new
