-- ===== src/Stops/Triggered.antt =====
-- backend/app/services/stop_monitor_service.py: what triggering a stop does.
use uvipystock.Prelude.{
  ℕ, suc, ltb, ◌≤◌, ◌≡◌, refl, sym, subst, arith, Bool, true, false, List, [], ◌∷◌, ◌++◌, some,
}
use uvipystock.Prelude.Int.{pos, ◌-ℤ◌}
use uvipystock.Enums.{is_pending}
use uvipystock.Model.{World, pair_by_symbol}
use uvipystock.Model.Rows.{Order, TradingPair, Balance}
use uvipystock.Redis.{publish, balance_update, stop_triggered}
use uvipystock.Exec.{ok}
use uvipystock.Balance.Repo.{get_by_user_asset, put, lock_row}
use uvipystock.Balance.Quiet.{lock_quiet}
use uvipystock.Orders.Repo.{get_order, put_order}
use uvipystock.Orders.Laws.{get_order-id, get-put_order, get-append}
use uvipystock.Orders.Place.{insert_order}
use uvipystock.Orders.Validate.{MakerOrder}
use uvipystock.Stops.Monitor.{
  trigger_stop_order, triggered_order, child_order, convert, child_lock, child_type,
}

not_pending :
    (asks : ℕ → List MakerOrder) (id : ℕ) (trailing : Bool) (o : Order) (w : World)
    → get_order w.orders id ≡ some o
    → is_pending o.status ≡ false
    → trigger_stop_order asks id trailing w ≡ (ok tt, w)
unfolding trigger_stop_order
not_pending asks id trailing o w found done = rw (found, done) refl

module _ (asks : ℕ → List MakerOrder) (id n : ℕ) (trailing : Bool) (o : Order) (pair : TradingPair)
    (asset : ℕ) (b : Balance) (w : World) (found : get_order w.orders id ≡ some o)
    (pending : is_pending o.status ≡ true)
    (pair_found : pair_by_symbol w.pairs o.symbol ≡ some pair)
    (need : child_lock o.side (asks o.symbol) pair (child_type o.type o.price).1 o.quantity
      ≡ (asset, some (suc n)))
    (row : get_by_user_asset w.balances o.user_id asset ≡ some b)
    (covered : suc n ≤ b.available_balance) where
  locked_world : World
  locked_world = record w {
    balances = put (lock_row (suc n) b) w.balances;
    commands =
        w.commands
        ++ publish
            (balance_update o.user_id asset (pos 0 -ℤ pos (suc n)) stop_triggered (some o.id))
          ∷ [];
  }

  trigger_converts : trigger_stop_order asks id trailing w ≡ convert o trailing locked_world
  unfolding trigger_stop_order locked_world
  trigger_converts =
      let enough : ltb b.available_balance (suc n) ≡ false = ground arith in
      rw (found, pending, pair_found, need)
        (rw (lock_quiet o.user_id asset n stop_triggered (some o.id) w b row) (rw enough refl))

  orders_after : List Order
  orders_after =
      put_order (triggered_order o) w.orders ++ record (child_order o) { id = w.next_order_id } ∷ []

  found_after : get_order orders_after id ≡ some (triggered_order o)
  unfolding orders_after
  found_after =
      let e : o.id ≡ id = get_order-id w.orders id o found in
      get-append (put_order (triggered_order o) w.orders) _ id (triggered_order o) (
        subst (λ i. get_order (put_order (triggered_order o) w.orders) i ≡ some (triggered_order o))
          e
          (get-put_order (triggered_order o) o w.orders
            (subst (λ i. get_order w.orders i ≡ some o) (sym e) found)))

  converted :
      let r = convert o trailing locked_world in
      (r.0 ≡ ok tt)
      × (r.1.balances ≡ put (lock_row (suc n) b) w.balances)
      × (r.1.orders ≡ orders_after)
  unfolding convert insert_order locked_world orders_after
  converted = (refl, refl, refl)

  -- A pending stop whose child can be covered: the child's amount is locked, the stop becomes
  -- filled, and the child is inserted as a new order; another call for the same stop, from either
  -- set, then does nothing.
  pub triggered_once :
      (again : Bool)
      → let r = trigger_stop_order asks id trailing w in
        (r.0 ≡ ok tt)
        × (r.1.balances ≡ put (lock_row (suc n) b) w.balances)
        × (r.1.orders
            ≡ put_order (triggered_order o) w.orders
              ++ record (child_order o) { id = w.next_order_id } ∷ [])
        × (trigger_stop_order asks id again r.1 ≡ (ok tt, r.1))
  unfolding orders_after
  triggered_once again =
      let c = converted in
      rw trigger_converts
        (c.0, c.1, c.2, not_pending asks id again (triggered_order o) _ (rw (c.2) found_after) refl)
