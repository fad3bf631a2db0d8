-- ===== src/Balance/Invariant.antt =====
-- total == locked + available, in every row and after every operation of the service.
use uvipystock.Prelude.{
  ℕ, zero, suc, ◌==◌, leb, ltb, ◌≡◌, refl, arith, Bool, true, false, List, Option, Bool-cases,
  Option-cases, inl, inr, ◌≤◌,
}
use uvipystock.Prelude.Int.{ℤ, pos, negsuc, ◌+ℤ◌, ◌-ℤ◌}
use uvipystock.Model.{World}
use uvipystock.Model.Rows.{Balance}
use uvipystock.Redis.{Reason}
use uvipystock.Exec.{Result, ok, err, Exec, value_error}
use uvipystock.Balance.Repo.{
  get_by_user_asset, get_or_create, zero_balance, update_where, update_row, lock_row, unlock_row,
  settle_row, credit_row, optimistic_lock, optimistic_unlock, optimistic_settle, optimistic_credit,
  lock_pessimistic, unlock_pessimistic, settle_pessimistic, credit_pessimistic, check_invariant,
}
use uvipystock.Balance.Service.{
  Others, after_update, publish_balance_update, lock_attempts, lock_optimistic, unlock_attempts,
  unlock_optimistic, settle_attempts, settle_optimistic, credit_attempts, credit_optimistic,
}
use uvipystock.Balance.Laws.{IsBalanced, IsSound, get-All, put-All}

-- Each change of a row keeps the invariant, where its guard holds.
pub lock_row-IsBalanced :
    (a : ℕ) (b : Balance) → IsBalanced b → a ≤ b.available_balance → IsBalanced (lock_row a b)
lock_row-IsBalanced a b h g = ground arith

pub unlock_row-IsBalanced :
    (a : ℕ) (b : Balance) → IsBalanced b → a ≤ b.locked_balance → IsBalanced (unlock_row a b)
unlock_row-IsBalanced a b h g = ground arith

pub settle_row-IsBalanced :
    (a : ℕ) (b : Balance) → IsBalanced b → a ≤ b.locked_balance → IsBalanced (settle_row a b)
unfolding ◌-ℤ◌
settle_row-IsBalanced a b h g = ground arith

pub credit_row-IsBalanced : (a : ℕ) (b : Balance) → IsBalanced b → IsBalanced (credit_row a b)
unfolding ◌+ℤ◌
credit_row-IsBalanced a b h = ground arith

-- The result of a repository call on a balanced row: a balanced row, or a refusal by the guard.
abbrev pub Keeps : Result Balance → Type 0
Keeps (ok b) = IsBalanced b
Keeps (err e) = e ≡ value_error

check-Keeps : (b : Balance) → IsBalanced b → Keeps (check_invariant b)
unfolding check_invariant
check-Keeps b h = ground arith

-- On a balanced row none of the four pessimistic helpers ever fails its check of the invariant:
-- it returns a balanced row, or it refuses with ValueError.
pub pessimistic-Keeps :
    (b : Balance) (amount : ℤ)
    → IsBalanced b
    → Keeps (lock_pessimistic b amount)
      × Keeps (unlock_pessimistic b amount)
      × Keeps (settle_pessimistic b amount)
      × Keeps (credit_pessimistic b amount)
unfolding lock_pessimistic unlock_pessimistic settle_pessimistic credit_pessimistic ◌+ℤ◌ ◌-ℤ◌
pessimistic-Keeps b (negsuc n) h = (refl, refl, refl, refl)
pessimistic-Keeps b (pos a) h = (ground arith, ground arith, ground arith, ground arith)

pub get_or_create-IsSound :
    (bs : List Balance) (u a : ℕ) → IsSound bs → IsSound (get_or_create bs u a).1
unfolding get_or_create
get_or_create-IsSound bs u a h = elim (Option-cases (get_by_user_asset bs u a)) [
  | inl e ↦ rw (e, get_or_create) (put-All IsBalanced (zero_balance u a) bs refl h)
  | inr (b, e) ↦ rw (e, get_or_create) h
]

module _ (guard : Balance → Bool) (set : Balance → Balance)
    (keeps : (b : Balance) → IsBalanced b → guard b ≡ true → IsBalanced (set b)) where
  update_row-IsSound :
      (bs : List Balance) (b : Balance) (v : ℕ)
      → IsSound bs
      → IsBalanced b
      → IsSound (update_row guard set bs b v).1
  update_row-IsSound bs b v h k = elim (Bool-cases (guard b)) [
    | inl g ↦ elim (Bool-cases (b.version == v)) [
      | inl e ↦ rw (e, g) (put-All IsBalanced (set b) bs (keeps b k g) h)
      | inr e ↦ rw e h
    ]
    | inr g ↦ elim (Bool-cases (b.version == v)) [ inl e ↦ rw (e, g) h | inr e ↦ rw e h ]
  ]

  update-IsSound :
      (bs : List Balance) (u a v : ℕ) → IsSound bs → IsSound (update_where guard set bs u a v).1
  update-IsSound bs u a v h = elim (Option-cases (get_by_user_asset bs u a)) [
    | inl e ↦ rw (e, update_where) h
    | inr (b, e) ↦
        rw (e, update_where) (update_row-IsSound bs b v h (get-All IsBalanced bs u a b h e))
  ]

optimistic_lock-IsSound :
    (bs : List Balance) (u a n v : ℕ) → IsSound bs → IsSound (optimistic_lock bs u a n v).1
unfolding optimistic_lock
optimistic_lock-IsSound bs u a n v h =
    update-IsSound (λ b. leb n b.available_balance) (lock_row n)
      (λ b k g. lock_row-IsBalanced n b k (ground arith)) bs u a v h

optimistic_unlock-IsSound :
    (bs : List Balance) (u a n v : ℕ) → IsSound bs → IsSound (optimistic_unlock bs u a n v).1
unfolding optimistic_unlock
optimistic_unlock-IsSound bs u a n v h =
    update-IsSound (λ b. leb n b.locked_balance) (unlock_row n)
      (λ b k g. unlock_row-IsBalanced n b k (ground arith)) bs u a v h

optimistic_settle-IsSound :
    (bs : List Balance) (u a n v : ℕ) → IsSound bs → IsSound (optimistic_settle bs u a n v).1
unfolding optimistic_settle
optimistic_settle-IsSound bs u a n v h =
    update-IsSound (λ b. leb n b.locked_balance) (settle_row n)
      (λ b k g. settle_row-IsBalanced n b k (ground arith)) bs u a v h

optimistic_credit-IsSound :
    (bs : List Balance) (u a n v : ℕ) → IsSound bs → IsSound (optimistic_credit bs u a n v).1
unfolding optimistic_credit
optimistic_credit-IsSound bs u a n v h =
    update-IsSound (λ b. true) (credit_row n) (λ b k g. credit_row-IsBalanced n b k) bs u a v h

-- A method that keeps all rows balanced, whether it returns or raises.
abbrev pub KeepsSound : {A : Type 0} → Exec A → Type 0
KeepsSound m = (w : World) → IsSound w.balances → IsSound (m w).1.balances

module _ (others : Others)
    (keeps : (n : ℕ) (bs : List Balance) → IsSound bs → IsSound (others n bs)) (u a : ℕ) where
  after-IsSound :
      (r : Bool × List Balance) (change : ℤ) (reason : Reason) (oid : Option ℕ)
      (retry : Exec (Unit {0})) (w : World)
      → IsSound r.1
      → KeepsSound retry
      → IsSound (after_update others u a r change reason oid retry w).1.balances
  unfolding publish_balance_update
  after-IsSound (true, bs) change reason oid retry w h k = h
  after-IsSound (false, bs) change reason oid retry w h k = k _ h

  lock_attempts-IsSound :
      (n amount : ℕ) (reason : Reason) (oid : Option ℕ)
      → KeepsSound (lock_attempts others u a n amount reason oid)
  unfolding lock_attempts
  lock_attempts-IsSound zero amount reason oid w h = h
  lock_attempts-IsSound (suc n) amount reason oid w h =
      let bs : List Balance = (get_or_create w.balances u a).1 in
      let b : Balance = (get_or_create w.balances u a).0 in
      let sound : IsSound bs = get_or_create-IsSound w.balances u a h in
      elim (Bool-cases (ltb b.available_balance amount)) [
        | inl short ↦ rw short sound
        | inr enough ↦ rw enough (
            after-IsSound (optimistic_lock (others n bs) u a amount b.version) _ reason oid
              (lock_attempts others u a n amount reason oid) _
              (optimistic_lock-IsSound (others n bs) u a amount b.version (keeps n bs sound))
              (lock_attempts-IsSound n amount reason oid))
      ]

  unlock_attempts-IsSound :
      (n amount : ℕ) (reason : Reason) (oid : Option ℕ)
      → KeepsSound (unlock_attempts others u a n amount reason oid)
  unfolding unlock_attempts
  unlock_attempts-IsSound zero amount reason oid w h = h
  unlock_attempts-IsSound (suc n) amount reason oid w h =
      elim (Option-cases (get_by_user_asset w.balances u a)) [
        | inl e ↦ rw (e, unlock_attempts) h
        | inr (b, e) ↦
            rw (e, unlock_attempts)
              (after-IsSound (optimistic_unlock (others n w.balances) u a amount b.version) _ reason
                oid (unlock_attempts others u a n amount reason oid) _
                (optimistic_unlock-IsSound (others n w.balances) u a amount b.version (keeps n _ h))
                (unlock_attempts-IsSound n amount reason oid))
      ]

  settle_attempts-IsSound :
      (n amount : ℕ) (reason : Reason) (oid : Option ℕ)
      → KeepsSound (settle_attempts others u a n amount reason oid)
  unfolding settle_attempts
  settle_attempts-IsSound zero amount reason oid w h = h
  settle_attempts-IsSound (suc n) amount reason oid w h =
      elim (Option-cases (get_by_user_asset w.balances u a)) [
        | inl e ↦ rw (e, settle_attempts) h
        | inr (b, e) ↦
            rw (e, settle_attempts)
              (after-IsSound (optimistic_settle (others n w.balances) u a amount b.version) _ reason
                oid (settle_attempts others u a n amount reason oid) _
                (optimistic_settle-IsSound (others n w.balances) u a amount b.version (keeps n _ h))
                (settle_attempts-IsSound n amount reason oid))
      ]

  credit_attempts-IsSound :
      (n amount : ℕ) (reason : Reason) (oid : Option ℕ)
      → KeepsSound (credit_attempts others u a n amount reason oid)
  unfolding credit_attempts
  credit_attempts-IsSound zero amount reason oid w h = h
  credit_attempts-IsSound (suc n) amount reason oid w h =
      elim (Option-cases (get_by_user_asset w.balances u a)) [
        | inl e ↦
            rw (e, credit_attempts)
              (credit_attempts-IsSound n amount reason oid _ (get_or_create-IsSound _ u a h))
        | inr (b, e) ↦
            rw (e, credit_attempts)
              (after-IsSound (optimistic_credit (others n w.balances) u a amount b.version) _ reason
                oid (credit_attempts others u a n amount reason oid) _
                (optimistic_credit-IsSound (others n w.balances) u a amount b.version (keeps n _ h))
                (credit_attempts-IsSound n amount reason oid))
      ]

  -- Whatever other transactions commit between the reads and the updates, as long as they keep
  -- every row balanced, each of the four optimistic operations leaves every row balanced, whether
  -- it returns or raises.
  pub optimistic-IsSound :
      (amount : ℤ) (reason : Reason) (oid : Option ℕ) (w : World)
      → IsSound w.balances
      → IsSound (lock_optimistic others u a amount reason oid w).1.balances
        × IsSound (unlock_optimistic others u a amount reason oid w).1.balances
        × IsSound (settle_optimistic others u a amount reason oid w).1.balances
        × IsSound (credit_optimistic others u a amount reason oid w).1.balances
  unfolding lock_optimistic unlock_optimistic settle_optimistic credit_optimistic
  optimistic-IsSound (negsuc n) reason oid w h = (h, h, h, h)
  optimistic-IsSound (pos zero) reason oid w h = (h, h, h, h)
  optimistic-IsSound (pos (suc n)) reason oid w h = (
    lock_attempts-IsSound 3 (suc n) reason oid w h,
    unlock_attempts-IsSound 3 (suc n) reason oid w h,
    settle_attempts-IsSound 3 (suc n) reason oid w h,
    credit_attempts-IsSound 3 (suc n) reason oid w h,
  )
