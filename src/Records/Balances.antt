-- ===== src/Records/Balances.antt =====
-- What changes a balance leaves the table of orders alone.
use uvipystock.Prelude.{
  arith, ℕ, zero, suc, ltb, ◌≡◌, refl, Bool, true, false, Bool-cases, Option-cases, inl, inr, List,
  Option, none,
}
use uvipystock.Prelude.Int.{ℤ, pos, negsuc}
use uvipystock.Model.{World}
use uvipystock.Model.Rows.{Balance}
use uvipystock.Redis.{Reason}
use uvipystock.Exec.{Exec, Result, ok, err}
use uvipystock.Balance.Repo.{
  get_by_user_asset, get_or_create, check_invariant, unlock_pessimistic, settle_pessimistic,
  credit_pessimistic,
}
use uvipystock.Balance.Service.{
  Others, quiet, after_update, publish_balance_update, set_balances, lock_attempts, lock_optimistic,
  unlock_attempts, unlock_optimistic,
}
use uvipystock.Balance.Pessimistic.{
  apply_row, adjust_row, admin_adjust, unlock_row_pessimistic, settle_row_pessimistic,
  credit_row_pessimistic,
}
use uvipystock.Balance.Laws.{IsBalanced, put-All}
use uvipystock.Balance.Invariant.{optimistic-IsSound, get_or_create-IsSound}
use uvipystock.Records.Rules.{Leaves}

-- The rows of orders and the sequence, at least.
abbrev SameOrders : World → World → Type 0
SameOrders w w' = (w'.orders ≡ w.orders) × (w'.next_order_id ≡ w.next_order_id)

abbrev LeavesOrders : Exec (Unit {0}) → Type 0
LeavesOrders m = (w : World) → SameOrders w (m w).1

module _ (others : Others) (u a : ℕ) where
  after_update-LeavesOrders :
      (p : Bool × List Balance) (change : ℤ) (reason : Reason) (oid : Option ℕ)
      (retry : Exec (Unit {0}))
      → LeavesOrders retry
      → LeavesOrders (after_update others u a p change reason oid retry)
  unfolding publish_balance_update
  after_update-LeavesOrders (true, bs) change reason oid retry l w = (refl, refl)
  after_update-LeavesOrders (false, bs) change reason oid retry l w = l (set_balances w bs)

  lock_attempts-LeavesOrders :
      (n amount : ℕ) (reason : Reason) (oid : Option ℕ)
      → LeavesOrders (lock_attempts others u a n amount reason oid)
  unfolding lock_attempts
  lock_attempts-LeavesOrders zero amount reason oid w = (refl, refl)
  lock_attempts-LeavesOrders (suc n) amount reason oid w =
      elim (Bool-cases (ltb (get_or_create w.balances u a).0.available_balance amount)) [
        | inl short ↦ rw short (refl, refl)
        | inr enough ↦ rw enough (
            after_update-LeavesOrders _ _ reason oid (lock_attempts others u a n amount reason oid)
              (lock_attempts-LeavesOrders n amount reason oid) _)
      ]

  lock_optimistic-LeavesOrders :
      (n : ℤ) (reason : Reason) (oid : Option ℕ)
      → LeavesOrders (lock_optimistic others u a n reason oid)
  unfolding lock_optimistic
  lock_optimistic-LeavesOrders (negsuc _) reason oid w = (refl, refl)
  lock_optimistic-LeavesOrders (pos zero) reason oid w = (refl, refl)
  lock_optimistic-LeavesOrders (pos (suc n)) reason oid w =
      lock_attempts-LeavesOrders 3 (suc n) reason oid w

  unlock_attempts-LeavesOrders :
      (n amount : ℕ) (reason : Reason) (oid : Option ℕ)
      → LeavesOrders (unlock_attempts others u a n amount reason oid)
  unfolding unlock_attempts
  unlock_attempts-LeavesOrders zero amount reason oid w = (refl, refl)
  unlock_attempts-LeavesOrders (suc n) amount reason oid w =
      elim (Option-cases (get_by_user_asset w.balances u a)) [
        | inl e ↦ rw (e, unlock_attempts) (refl, refl)
        | inr (b, e) ↦
            rw (e, unlock_attempts)
              (after_update-LeavesOrders _ _ reason oid
                (unlock_attempts others u a n amount reason oid)
                (unlock_attempts-LeavesOrders n amount reason oid) _)
      ]

  unlock_optimistic-LeavesOrders :
      (n : ℤ) (reason : Reason) (oid : Option ℕ)
      → LeavesOrders (unlock_optimistic others u a n reason oid)
  unfolding unlock_optimistic
  unlock_optimistic-LeavesOrders (negsuc _) reason oid w = (refl, refl)
  unlock_optimistic-LeavesOrders (pos zero) reason oid w = (refl, refl)
  unlock_optimistic-LeavesOrders (pos (suc n)) reason oid w =
      unlock_attempts-LeavesOrders 3 (suc n) reason oid w

module _ (u a : ℕ) (n : ℤ) (reason : Reason) (oid : Option ℕ) where
  pub lock_optimistic-Leaves : Leaves (lock_optimistic quiet u a n reason oid)
  lock_optimistic-Leaves w =
      let s = lock_optimistic-LeavesOrders quiet u a n reason oid w in
      (s.0, s.1, λ h. (optimistic-IsSound quiet (λ k bs b. b) u a n reason oid w h).0)

  pub unlock_optimistic-Leaves : Leaves (unlock_optimistic quiet u a n reason oid)
  unlock_optimistic-Leaves w =
      let s = unlock_optimistic-LeavesOrders quiet u a n reason oid w in
      (s.0, s.1, λ h. (optimistic-IsSound quiet (λ k bs b. b) u a n reason oid w h).1)

-- A result of the repository that went through its check of the invariant.
abbrev Checked : Result Balance → Type 0
Checked (ok b) = IsBalanced b
Checked (err e) = Unit

module _ (b : Balance) where
  check-Checked : Checked (check_invariant b)
  unfolding check_invariant
  check-Checked = ground arith

  unlock-Checked : (n : ℤ) → Checked (unlock_pessimistic b n)
  unfolding unlock_pessimistic check_invariant
  unlock-Checked (negsuc n) = tt
  unlock-Checked (pos n) = ground arith

  settle-Checked : (n : ℤ) → Checked (settle_pessimistic b n)
  unfolding settle_pessimistic check_invariant
  settle-Checked (negsuc n) = tt
  settle-Checked (pos n) = ground arith

  credit-Checked : (n : ℤ) → Checked (credit_pessimistic b n)
  unfolding credit_pessimistic check_invariant
  credit-Checked (negsuc n) = tt
  credit-Checked (pos n) = ground arith

apply_row-Leaves :
    (r : Result Balance) (change : ℤ) (reason : Reason) (oid : Option ℕ)
    → Checked r
    → Leaves (apply_row r change reason oid)
unfolding publish_balance_update
apply_row-Leaves (err e) change reason oid c w = (refl, refl, λ h. h)
apply_row-Leaves (ok b) change reason oid c w =
    (refl, refl, λ h. put-All IsBalanced b w.balances c h)

module _ (b : Balance) (n : ℤ) (reason : Reason) (oid : Option ℕ) where
  pub unlock_row_pessimistic-Leaves : Leaves (unlock_row_pessimistic b n reason oid)
  unfolding unlock_row_pessimistic
  unlock_row_pessimistic-Leaves =
      apply_row-Leaves (unlock_pessimistic b n) _ reason oid (unlock-Checked b n)

  pub settle_row_pessimistic-Leaves : Leaves (settle_row_pessimistic b n reason oid)
  unfolding settle_row_pessimistic
  settle_row_pessimistic-Leaves =
      apply_row-Leaves (settle_pessimistic b n) _ reason oid (settle-Checked b n)

  pub credit_row_pessimistic-Leaves : Leaves (credit_row_pessimistic b n reason oid)
  unfolding credit_row_pessimistic
  credit_row_pessimistic-Leaves =
      apply_row-Leaves (credit_pessimistic b n) _ reason oid (credit-Checked b n)

adjust-Checked : (delta : ℤ) (b : Balance) → Checked (adjust_row delta b)
unfolding check_invariant
adjust-Checked (pos d) b = ground arith
adjust-Checked (negsuc d) b = ground arith

pub admin_adjust-Leaves :
    (u a : ℕ) (delta : ℤ) (reason : Reason) → Leaves (admin_adjust u a delta reason)
unfolding admin_adjust
admin_adjust-Leaves u a delta reason w =
    let b : Balance = (get_or_create w.balances u a).0 in
    let bs : List Balance = (get_or_create w.balances u a).1 in
    let s =
      apply_row-Leaves (adjust_row delta b) delta reason none (adjust-Checked delta b)
        (set_balances w bs) in
    (s.0, s.1, λ h. s.2 (get_or_create-IsSound w.balances u a h))
