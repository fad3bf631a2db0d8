-- ===== src/Orders/Cancel.antt =====
-- backend/app/services/order_service.py: `cancel_order` and `cancel_bulk_orders`.
-- No other transaction changes a balance while one of them runs.
use uvipystock.Prelude.{
  ℕ, ltb, min, Bool, true, false, not, ◌&&◌, if◌then◌else◌, List, [], ◌∷◌, ◌++◌, Option, none, some,
  length,
}
use uvipystock.Prelude.Int.{pos}
use uvipystock.Enums.{
  OrderSide, buy, sell, OrderStatus, cancel, is_buy, is_active, is_stop_type, is_trailing,
}
use uvipystock.Model.{pair_by_symbol}
use uvipystock.Model.Decimal.{mul, or_zero}
use uvipystock.Model.Rows.{Order, TradingPair, Balance, remaining_quantity}
use uvipystock.Redis.{
  Command, publish, order_update, orderbook_snapshot, bulk_cancel_result, EventName, order_canceled,
  remove_trailing_stop, remove_stop_order, remove_resting_order, delete_order_hash,
  remove_open_order, enqueue_order_action, build_order_action_payload, payload_args,
}
use uvipystock.Exec.{
  Exec, Error, ok, err, pure, raise, raise_if, gets, or_raise, send, when, catch, ◌>>=◌, ◌>>◌,
  bind_result, order_not_found, order_not_cancelable, order_validation, assertion_error,
  insufficient_balance,
}
use uvipystock.Exec
use uvipystock.Balance.Repo.{get_by_user_asset}
use uvipystock.Balance.Pessimistic.{unlock_row_pessimistic}
use uvipystock.Orders.Repo.{get_order, get_by_user, update_status, cancel_children}

-- `x if x is not None else y`
abbrev or_else : Option ℕ → Option ℕ → Option ℕ
or_else none y = y
or_else (some x) y = some x

-- The asset and the amount that `cancel_order` releases: the remaining quantity, at the price for
-- a buy (a market buy has no price, and falls back on its stop price, that is mostly zero).
abbrev pub unlock_asset : TradingPair → OrderSide → ℕ
unlock_asset pair buy = pair.quote_asset
unlock_asset pair sell = pair.base_asset

unfoldable pub unlock_amount : Order → ℕ
unlock_amount o =
    if is_buy o.side
    then mul (remaining_quantity o) (or_zero (or_else o.price o.stop_price))
    else remaining_quantity o

-- The row is locked, and what is released is capped by what it holds.
unfoldable pub unlock_if : Option Balance → ℕ → ℕ → Exec (Unit {0})
unlock_if none amount order_id = pure tt
unlock_if (some b) amount order_id =
    when (ltb 0 (min amount b.locked_balance))
      (unlock_row_pessimistic b (pos (min amount b.locked_balance)) order_canceled (some order_id))

unfoldable pub release_remaining : ℕ → TradingPair → Order → Exec (Unit {0})
unfolding unlock_if unlock_amount
release_remaining user_id pair o = when (not (is_stop_type o.type) && ltb 0 (unlock_amount o)) do
  row ← gets (λ w. get_by_user_asset w.balances user_id (unlock_asset pair o.side))
  unlock_if row (unlock_amount o) o.id

-- The commands of a cancellation: clean up, tell the worker, tell the user, refresh the book.
unfoldable pub cancel_commands : ℕ → Order → List Command
unfolding remove_trailing_stop remove_stop_order remove_resting_order delete_order_hash
    remove_open_order enqueue_order_action build_order_action_payload
cancel_commands user_id o =
    (if is_stop_type o.type
      then if is_trailing o.type
        then remove_trailing_stop o.id o.symbol
        else remove_stop_order o.id o.symbol
      else remove_resting_order o.id o.symbol o.side ++ delete_order_hash o.id)
    ++ (remove_open_order user_id o.symbol o.id
        ++ (enqueue_order_action
              (build_order_action_payload cancel o.id o.symbol user_id o.side o.type payload_args)
            ++ publish (order_update user_id EventName.canceled o.id OrderStatus.canceled)
              ∷ publish (orderbook_snapshot o.symbol)
              ∷ []))

-- `cancel_order`
unfoldable pub cancel_order : ℕ → ℕ → Exec Order
unfolding release_remaining
cancel_order user_id order_id = do
  found ← gets (λ w. get_by_user w.orders order_id user_id)
  o ← or_raise found order_not_found
  raise_if (not (is_active o.status)) order_not_cancelable
  pair? ← gets (λ w. pair_by_symbol w.pairs o.symbol)
  pair ← or_raise pair? assertion_error
  release_remaining user_id pair o
  Exec.modify (λ w. record w {
    orders = cancel_children o.id (update_status o.id OrderStatus.canceled w.orders);
  })
  send (cancel_commands user_id o)
  final ← gets (λ w. get_order w.orders o.id)
  or_raise final order_not_found

-- One id of the loop of `cancel_bulk_orders`: whether it was cancelled. Only the two refusals are
-- caught.
unfoldable pub refused : Error → Exec Bool
refused order_not_found = pure false
refused order_not_cancelable = pure false
refused e = raise e

unfoldable pub try_cancel : ℕ → ℕ → Exec Bool
unfolding refused
try_cancel user_id id = catch (do cancel_order user_id id; pure true) refused

unfoldable pub cancel_each : ℕ → List ℕ → Exec (List ℕ × List ℕ)
unfolding try_cancel
cancel_each user_id [] = pure ([], [])
cancel_each user_id (id ∷ ids) = do
  done ← try_cancel user_id id
  rest ← cancel_each user_id ids
  pure (if done then (id ∷ rest.0, rest.1) else (rest.0, id ∷ rest.1))

-- `cancel_bulk_orders`, on the ids that the caller gave or that the index returned.
unfoldable pub cancel_bulk_orders : ℕ → List ℕ → Exec (List ℕ)
unfolding cancel_each
cancel_bulk_orders user_id [] = pure []
cancel_bulk_orders user_id (id ∷ ids) = do
  rs ← cancel_each user_id (id ∷ ids)
  send (publish (bulk_cancel_result user_id (length (id ∷ ids)) (length rs.0) rs.1) ∷ [])
  pure rs.0
