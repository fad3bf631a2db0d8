-- ===== src/Records/Canceled.antt =====
-- backend/app/services/order_service.py: cancellations, one order or several, and modifications.
use uvipystock.Prelude.{
  ℕ, ltb, min, ◌≡◌, ◌+◌, refl, ap, ◌∙◌, map, true, false, not, ◌&&◌, ◌==◌, List, [], ◌∷◌, ◌++◌,
  Option, none, some, Bool-cases, inl, inr,
}
use uvipystock.Prelude.Int.{pos}
use uvipystock.Enums.{OrderStatus, is_active, is_stop_type, can_rest}
use uvipystock.Redis.{order_modified, order_canceled, order_placed}
use uvipystock.Model.{pair_by_symbol}
use uvipystock.Model.Decimal.{or_zero}
use uvipystock.Model.Rows.{Order, TradingPair, Balance, remaining_quantity}
use uvipystock.Exec
use uvipystock.Exec.{
  Exec, Error, pure, or_raise, send, ◌>>=◌, ◌>>◌, order_not_found, order_not_cancelable,
  assertion_error, order_validation, insufficient_balance,
}
use uvipystock.Balance.Repo.{get_by_user_asset}
use uvipystock.Orders.Repo.{get_order, get_by_user, update_status, cancel_children}
use uvipystock.Orders.Place.{insert_order, save}
use uvipystock.Orders.Cancel.{
  unlock_if, unlock_amount, unlock_asset, release_remaining, cancel_commands, cancel_order,
  try_cancel, cancel_each, cancel_bulk_orders, refused,
}
use uvipystock.Orders.Modify.{
  relock, lock_at, swap_lock, replacement, owned, modify_commands, modify_order,
}
use uvipystock.Records.Table.{
  Terms, terms, status_if, cancel_if, update_status-map, cancel_children-map, status_if-terms,
  cancel_if-terms,
}
use uvipystock.Records.Rules.{
  Does, nothing, found, Does-bind, pure-Does, raise-Does, insert-Does, save-Does, send-Does,
  when-Does, raise_if-Does, gets-Does, or_raise-nothing, or_raise-Does, read-Does, rows-Does,
  Leaves-Does, catch-Does,
}
use uvipystock.Records.Balances.{
  lock_optimistic-Leaves, unlock_optimistic-Leaves, unlock_row_pessimistic-Leaves,
}

map-map : (f g : Order → Order) (os : List Order) → map f (map g os) ≡ map (λ o. f (g o)) os
map-map f g [] = refl
map-map f g (o ∷ os) = ap (λ ps. f (g o) ∷ ps) (map-map f g os)

module _ (ts : List Terms) where
  unlock_if-Does : (b : Option Balance) (n id : ℕ) → Does ts (unlock_if b n id) nothing
  unfolding unlock_if
  unlock_if-Does none n id = pure-Does ts tt nothing (λ w s. tt)
  unlock_if-Does (some b) n id = when-Does ts (ltb 0 (min n b.locked_balance)) _ (
      Leaves-Does ts _
        (unlock_row_pessimistic-Leaves b (pos (min n b.locked_balance)) order_canceled (some id)))

  release_remaining-Does :
      (u : ℕ) (pair : TradingPair) (o : Order) → Does ts (release_remaining u pair o) nothing
  unfolding release_remaining
  release_remaining-Does u pair o =
      when-Does ts (not (is_stop_type o.type) && ltb 0 (unlock_amount o)) _ (
        Does-bind (gets-Does ts (λ w. get_by_user_asset w.balances u (unlock_asset pair o.side)))
          (λ row. unlock_if-Does row (unlock_amount o) o.id))

  update_status-Does :
      (id : ℕ) (s : OrderStatus)
      → Does ts (Exec.modify (λ w. record w { orders = update_status id s w.orders })) nothing
  update_status-Does id s =
      rows-Does ts (status_if id s) (update_status id s) (status_if-terms id s)
        (update_status-map id s)

  cancel_rows-Does :
      (id : ℕ)
      → Does ts
          (Exec.modify (λ w. record w {
            orders = cancel_children id (update_status id OrderStatus.canceled w.orders);
          }))
          nothing
  cancel_rows-Does id =
      rows-Does ts (λ o. cancel_if id (status_if id OrderStatus.canceled o))
        (λ os. cancel_children id (update_status id OrderStatus.canceled os))
        (λ o.
          cancel_if-terms id (status_if id OrderStatus.canceled o)
          ∙ status_if-terms id OrderStatus.canceled o)
        (λ os.
          cancel_children-map id (update_status id OrderStatus.canceled os)
          ∙ ap (map (cancel_if id)) (update_status-map id OrderStatus.canceled os)
          ∙ map-map (cancel_if id) (status_if id OrderStatus.canceled) os)

  pub cancel_order-Does : (u id : ℕ) → Does ts (cancel_order u id) nothing
  unfolding cancel_order
  cancel_order-Does u id = Does-bind (gets-Does ts (λ w. get_by_user w.orders id u)) (λ r.
      Does-bind (or_raise-nothing ts r order_not_found) (λ o.
        Does-bind (raise_if-Does ts (not (is_active o.status)) order_not_cancelable) (λ x.
          Does-bind (gets-Does ts (λ w. pair_by_symbol w.pairs o.symbol)) (λ pair?.
            Does-bind (or_raise-nothing ts pair? assertion_error) (λ pair.
              Does-bind (release_remaining-Does u pair o) (λ y.
                Does-bind (cancel_rows-Does o.id) (λ z.
                  Does-bind (send-Does ts (cancel_commands u o)) (λ z'.
                    Does-bind (gets-Does ts (λ w. get_order w.orders o.id))
                      (λ final. or_raise-nothing ts final order_not_found)))))))))

  refused-Does : (e : Error) → Does ts (refused e) nothing
  unfolding refused
  refused-Does order_not_found = pure-Does ts false nothing (λ w s. tt)
  refused-Does order_not_cancelable = pure-Does ts false nothing (λ w s. tt)
  refused-Does e = raise-Does ts e nothing

  cancel_each-Does : (u : ℕ) (ids : List ℕ) → Does ts (cancel_each u ids) nothing
  unfolding cancel_each try_cancel
  cancel_each-Does u [] = pure-Does ts ([], []) nothing (λ w s. tt)
  cancel_each-Does u (id ∷ ids) =
      Does-bind
        (catch-Does ts nothing refused refused-Does _
          (Does-bind (cancel_order-Does u id) (λ o. pure-Does ts true nothing (λ w s. tt))))
        (λ done. Does-bind (cancel_each-Does u ids) (λ rest. pure-Does ts _ nothing (λ w s. tt)))

  pub cancel_bulk_orders-Does : (u : ℕ) (ids : List ℕ) → Does ts (cancel_bulk_orders u ids) nothing
  unfolding cancel_bulk_orders
  cancel_bulk_orders-Does u [] = pure-Does ts [] nothing (λ w s. tt)
  cancel_bulk_orders-Does u (id ∷ ids) =
      Does-bind (cancel_each-Does u (id ∷ ids))
        (λ rs. Does-bind (send-Does ts _) (λ x. pure-Does ts rs.0 nothing (λ w s. tt)))

  owned-Does :
      (u : ℕ) (r : Option Order) (e : Error)
      → Does (found r ++ ts) (or_raise (owned u r) e) (λ o. terms o ∷ [])
  owned-Does u none e = raise-Does ts e (λ o. terms o ∷ [])
  owned-Does u (some o) e = elim (Bool-cases (o.user_id == u)) [
    | inl mine ↦ rw mine (or_raise-Does ts (some o) e)
    | inr other ↦ rw other (raise-Does (terms o ∷ ts) e (λ p. terms p ∷ []))
  ]

  relock-Does : (u asset n id : ℕ) (e : Error) → Does ts (relock u asset n id e) nothing
  unfolding relock
  relock-Does u asset n id insufficient_balance =
      Does-bind (Leaves-Does ts _ (lock_optimistic-Leaves u asset (pos n) order_placed (some id)))
        (λ x. raise-Does ts insufficient_balance nothing)
  relock-Does u asset n id e = raise-Does ts e nothing

  swap_lock-Does :
      (u : ℕ) (pair : TradingPair) (o : Order) (price quantity : ℕ)
      → Does ts (swap_lock u pair o price quantity) nothing
  unfolding swap_lock
  swap_lock-Does u pair o price quantity =
      let asset = unlock_asset pair o.side in
      let released = lock_at o.side (remaining_quantity o) (or_zero o.price) in
      Does-bind
        (when-Does ts (ltb 0 released) _ (
          Leaves-Does ts _
            (unlock_optimistic-Leaves u asset (pos released) order_modified (some o.id))))
        (λ x. Does-bind (raise_if-Does ts (price == 0) order_validation) (λ y.
          Does-bind (raise_if-Does ts (quantity == 0) order_validation) (λ z.
            Does-bind (raise_if-Does ts (ltb quantity pair.min_lot_size) order_validation) (λ z'.
              catch-Does ts nothing (relock u asset released o.id)
                (relock-Does u asset released o.id) _
                (Leaves-Does ts _ (
                  lock_optimistic-Leaves u asset (pos (lock_at o.side quantity price))
                    order_modified (some o.id)))))))

module _ (ts : List Terms) (u id price quantity : ℕ) where
  -- What follows the tests, on the order that was found.
  replace-Does :
      (pair : TradingPair) (o : Order) (us : List Terms)
      → Does
          (terms o ∷ us)
          (swap_lock u pair o price quantity
            >> (Exec.modify
                  (λ w. record w { orders = update_status o.id OrderStatus.canceled w.orders })
                >> (insert_order (replacement o price quantity) >>= λ new.
                    save (record o {
                      status = OrderStatus.canceled;
                      version = o.version + 1;
                      replaced_by_id = some new.id;
                    })
                    >> (send (modify_commands u o new) >> pure new))))
          nothing
  replace-Does pair o us = Does-bind (swap_lock-Does (terms o ∷ us) u pair o price quantity) (λ x.
      Does-bind (update_status-Does (terms o ∷ us) o.id OrderStatus.canceled) (λ y.
        Does-bind (insert-Does (terms o ∷ us) (replacement o price quantity)) (λ new.
          Does-bind
            (save-Does (terms new ∷ terms o ∷ us)
              (record o {
                status = OrderStatus.canceled;
                version = o.version + 1;
                replaced_by_id = some new.id;
              })
              (λ w s. s.1.0))
            (λ z.
              Does-bind (send-Does _ (modify_commands u o new))
                (λ z'. pure-Does _ new nothing (λ w s. tt))))))

  pub modify_order-Does : Does ts (modify_order u id price quantity) nothing
  unfolding modify_order
  modify_order-Does = Does-bind (read-Does ts id) (λ r.
      Does-bind (owned-Does ts u r order_not_found) (λ o.
        let us = found r ++ ts in
        Does-bind (raise_if-Does (terms o ∷ us) (not (is_active o.status)) order_not_cancelable)
          (λ x.
            Does-bind (raise_if-Does (terms o ∷ us) (not (can_rest o.type)) order_not_cancelable)
              (λ y.
                Does-bind (gets-Does (terms o ∷ us) (λ w. pair_by_symbol w.pairs o.symbol))
                  (λ pair?.
                    Does-bind (or_raise-nothing (terms o ∷ us) pair? assertion_error)
                      (λ pair. replace-Does pair o us))))))
