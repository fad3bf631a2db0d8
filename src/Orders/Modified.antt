-- ===== src/Orders/Modified.antt =====
-- What a modification that goes through leaves.
use uvipystock.Prelude.{
  ℕ, ◌+◌, ◌≤◌, ◌<◌, ◌==◌, ltb, lt→ltb, ◌≡◌, refl, ap, ◌∙◌, arith, true, false, [], ◌∷◌, ◌++◌, some,
}
use uvipystock.Prelude.Int.{pos, ◌-ℤ◌}
use uvipystock.Enums.{OrderStatus, is_active, can_rest}
use uvipystock.Model.{World, pair_by_symbol}
use uvipystock.Model.Decimal.{or_zero}
use uvipystock.Model.Rows.{Order, TradingPair, Balance, remaining_quantity}
use uvipystock.Redis.{publish, balance_update, order_modified}
use uvipystock.Exec.{Exec, Error, catch, ok, err}
use uvipystock.Balance.Repo.{has_key, get_by_user_asset, put, lock_row, unlock_row}
use uvipystock.Balance.Laws.{get-key, get-put}
use uvipystock.Balance.Quiet.{lock_positive, unlock_positive, put-put}
use uvipystock.Balance.Service.{quiet, lock_optimistic}
use uvipystock.Orders.Repo.{get_order, update_status, put_order}
use uvipystock.Orders.Place.{insert_order}
use uvipystock.Orders.Cancel.{unlock_asset}
use uvipystock.Orders.Modify.{modify_order, swap_lock, lock_at, relock, replacement}

-- The row after the old amount is released and the new one is locked.
abbrev pub relocked : ℕ → ℕ → Balance → Balance
relocked released locked b = lock_row locked (unlock_row released b)

module _ (u a x : ℕ) (w : World) (b : Balance)
    (row : get_by_user_asset w.balances u a ≡ some b) where
  has_key-row : has_key u a b ≡ true
  has_key-row = let k = get-key w.balances u a b row in ground (arith, k.0, k.1)

  unlocked_found : get_by_user_asset (put (unlock_row x b) w.balances) u a ≡ some (unlock_row x b)
  unlocked_found = get-put (unlock_row x b) w.balances u a ∙ rw has_key-row refl

catch-ok :
    {A : Type 0} {a : A} (m : Exec A) (handler : Error → Exec A) (w w' : World)
    → m w ≡ (ok a, w')
    → catch m handler w ≡ (ok a, w')
catch-ok {a} m handler w w' e = ap (λ r. elim r.0 [ ok x ↦ (ok x, r.1) | err x ↦ handler x r.1 ]) e

-- The amount that the old order has locked, and that of the new parameters.
abbrev pub old_amount : Order → ℕ
old_amount o = lock_at o.side (remaining_quantity o) (or_zero o.price)

abbrev pub new_amount : Order → ℕ → ℕ → ℕ
new_amount o price quantity = lock_at o.side quantity price

module _ (u : ℕ) (pair : TradingPair) (o : Order) (price quantity : ℕ) (b : Balance) where
  -- What lets a modification go through: the row holds the old amount, the new one is covered once
  -- it is released, and the new parameters are accepted.
  pub record Fits (w : World) : Type 0 where
    pub row : get_by_user_asset w.balances u (unlock_asset pair o.side) ≡ some b
    pub releases : 0 < (old_amount o)
    pub held : (old_amount o) ≤ b.locked_balance
    pub locks : 0 < (new_amount o price quantity)
    pub covered : (new_amount o price quantity) ≤ b.available_balance + (old_amount o)
    pub price_positive : (price == 0) ≡ false
    pub quantity_positive : (quantity == 0) ≡ false
    pub lot : ltb quantity pair.min_lot_size ≡ false

  -- The world after the two changes of the balance.
  abbrev swapped : World → World
  swapped w = record w {
    balances = put (relocked (old_amount o) (new_amount o price quantity) b) w.balances;
    commands =
        (w.commands
          ++ publish (
              balance_update u (unlock_asset pair o.side) (pos (old_amount o)) order_modified
                (some o.id))
            ∷ [])
        ++ publish (
            balance_update u (unlock_asset pair o.side) (pos 0 -ℤ pos (new_amount o price quantity))
              order_modified (some o.id))
          ∷ [];
  }

  -- Once the old amount is released.
  abbrev unlocked : World → World
  unlocked w = record w {
    balances = put (unlock_row (old_amount o) b) w.balances;
    commands =
        w.commands
        ++ publish (
            balance_update u (unlock_asset pair o.side) (pos (old_amount o)) order_modified
              (some o.id))
          ∷ [];
  }

  lock_unlocked :
      (w : World)
      → Fits w
      → lock_optimistic quiet u
          (unlock_asset pair o.side)
          (pos (new_amount o price quantity))
          order_modified
          (some o.id)
          (unlocked w)
        ≡ (ok tt, swapped w)
  lock_unlocked w f =
      lock_positive u (unlock_asset pair o.side) (new_amount o price quantity) order_modified
        (some o.id) (unlocked w) (unlock_row (old_amount o) b)
        (unlocked_found u (unlock_asset pair o.side) (old_amount o) w b f.row) f.locks f.covered
      ∙ ap
          (λ bs. (
            ok tt,
            record (unlocked w) {
              balances = bs;
              commands =
                  (unlocked w).commands
                  ++ publish (
                      balance_update u (unlock_asset pair o.side)
                        (pos 0 -ℤ pos (new_amount o price quantity)) order_modified (some o.id))
                    ∷ [];
            },
          ))
          (put-put (unlock_row (old_amount o) b)
            (relocked (old_amount o) (new_amount o price quantity) b) w.balances refl refl)

  swap_lock_lem : (w : World) → Fits w → swap_lock u pair o price quantity w ≡ (ok tt, swapped w)
  unfolding swap_lock relock
  swap_lock_lem w f = rw (lt→ltb 0 (old_amount o) f.releases) (
      rw
        (unlock_positive u (unlock_asset pair o.side) (old_amount o) order_modified (some o.id) w b
          f.row f.releases f.held)
        (rw (f.price_positive, f.quantity_positive, f.lot)
          (catch-ok
            (lock_optimistic quiet u (unlock_asset pair o.side) (pos (new_amount o price quantity))
              order_modified (some o.id))
            (relock u (unlock_asset pair o.side) (old_amount o) o.id) (unlocked w) (swapped w)
            (lock_unlocked w f))))

-- An active order that can rest, of the user, is modified: the call returns the new order, which
-- names the old one as what it replaces and takes the next id; the old one is cancelled and names
-- the new one; and of the row of what is locked, exactly the old amount is released and the new one
-- locked.
pub modify_order_lem :
    (u id price quantity : ℕ) (pair : TradingPair) (o : Order) (b : Balance) (w : World)
    → get_order w.orders id ≡ some o
    → (o.user_id == u) ≡ true
    → is_active o.status ≡ true
    → can_rest o.type ≡ true
    → pair_by_symbol w.pairs o.symbol ≡ some pair
    → Fits u pair o price quantity b w
    → let r = modify_order u id price quantity w in
      let new = record (replacement o price quantity) { id = w.next_order_id } in
      (r.0 ≡ ok new)
      × (r.1.balances ≡ put (relocked (old_amount o) (new_amount o price quantity) b) w.balances)
      × (r.1.orders
          ≡ put_order
              (record o {
                status = OrderStatus.canceled;
                version = o.version + 1;
                replaced_by_id = some new.id;
              })
              (update_status o.id OrderStatus.canceled w.orders ++ new ∷ []))
unfolding modify_order insert_order
modify_order_lem u id price quantity pair o b w found mine active rests pair_found f =
    rw (found, mine)
      (rw (active, rests, pair_found)
        (rw (swap_lock_lem u pair o price quantity b w f) (refl, refl, refl)))
