-- ===== src/Balance/Effects.antt =====
-- What the operations on balances do: the exact change, under interference and without.
use uvipystock.Prelude.{
  ℕ, zero, suc, ◌+◌, ◌≤◌, ◌==◌, leb, ltb, ◌≡◌, refl, ap, sym, subst, ==→eq, ◌∙◌, arith, false, ◌&&◌,
  List, Option, some, Bool-cases, Option-cases, inl, inr,
}
use uvipystock.Prelude.Int.{ℤ, pos, ◌+ℤ◌, ◌-ℤ◌, pos_part, neg_part, int_laws}
use uvipystock.Model.{World}
use uvipystock.Model.Rows.{Balance}
use uvipystock.Redis.{Reason}
use uvipystock.Exec.{ok, err, Exec, insufficient_balance}
use uvipystock.Balance.Repo.{
  get_by_user_asset, put, get_or_create, update_where, lock_row, settle_row, credit_row,
  optimistic_lock, lock_pessimistic, unlock_pessimistic, settle_pessimistic, credit_pessimistic,
}
use uvipystock.Balance.Service.{
  Others, after_update, publish_balance_update, lock_attempts, lock_optimistic,
}
use uvipystock.Balance.Pessimistic.{settle_trade_pessimistic}
use uvipystock.Balance.Laws.{IsBalanced, get-put, supply, supply-put, supply-put_ne}

-- Locking an amount that is available and unlocking it gives the row back, two versions later.
pub unlock-lock :
    (b : Balance) (a : ℕ)
    → IsBalanced b
    → a ≤ b.available_balance
    → (lock_pessimistic b (pos a) ≡ ok (lock_row a b))
      × (unlock_pessimistic (lock_row a b) (pos a) ≡ ok (record b { version = b.version + 2 }))
unfolding lock_pessimistic unlock_pessimistic
unlock-lock b a h g = (ground arith, ground arith)

-- A lock that took: some attempt's table, as the others left it, had a row with enough available,
-- and that row was locked in it.
pub record Took (others : Others) (u a amount : ℕ) (after : List Balance) : Type 0 where
  pub attempt : ℕ
  pub before : List Balance
  pub row : Balance
  pub found : get_by_user_asset (others attempt before) u a ≡ some row
  pub covered : amount ≤ row.available_balance
  pub written : after ≡ put (lock_row amount row) (others attempt before)

module _ (others : Others) (u a amount : ℕ) (reason : Reason) (oid : Option ℕ) where
  after-Took :
      (n v : ℕ) (bs : List Balance) (change : ℤ) (retry : Exec (Unit {0})) (w : World)
      → ((w' : World) → (retry w').0 ≡ ok tt → Took others u a amount (retry w').1.balances)
      → (after_update others u a
          (optimistic_lock (others n bs) u a amount v)
          change
          reason
          oid
          retry
          w).0
        ≡ ok tt
      → Took others u a amount
          (after_update others u a
            (optimistic_lock (others n bs) u a amount v)
            change
            reason
            oid
            retry
            w).1.balances
  unfolding optimistic_lock publish_balance_update
  after-Took n v bs change retry w ih h =
      elim (Option-cases (get_by_user_asset (others n bs) u a)) [
        | inl e ↦ rw (e, update_where) (ih _ (rw (e, update_where) at h))
        | inr (b, e) ↦ elim (Bool-cases (b.version == v && leb amount b.available_balance)) [
          | inl g ↦
              rw (e, update_where)
                (rw g (record {
                  attempt = n;
                  before = bs;
                  row = b;
                  found = e;
                  covered = ground arith;
                  written = refl;
                }))
          | inr g ↦ rw (e, update_where) (rw g (ih _ (rw g at (rw (e, update_where) at h))))
        ]
      ]

  lock_attempts-Took :
      (n : ℕ) (w : World)
      → (lock_attempts others u a n amount reason oid w).0 ≡ ok tt
      → Took others u a amount (lock_attempts others u a n amount reason oid w).1.balances
  unfolding lock_attempts
  lock_attempts-Took zero w h = cc
  lock_attempts-Took (suc n) w h =
      let bs : List Balance = (get_or_create w.balances u a).1 in
      let b : Balance = (get_or_create w.balances u a).0 in
      elim (Bool-cases (ltb b.available_balance amount)) [
        | inl short ↦ let e : err insufficient_balance ≡ ok tt = rw short at h in cc
        | inr enough ↦ rw enough (
            after-Took n b.version bs _ (lock_attempts others u a n amount reason oid) _
              (lock_attempts-Took n) (rw enough at h))
      ]

-- Whatever the other transactions do, a lock that returns has locked exactly its amount in the row
-- as they left it, where that much was available: nothing is spent twice.
pub lock_optimistic-Took :
    (others : Others) (u a n : ℕ) (reason : Reason) (oid : Option ℕ) (w : World)
    → (lock_optimistic others u a (pos (suc n)) reason oid w).0 ≡ ok tt
    → Took others u a (suc n) (lock_optimistic others u a (pos (suc n)) reason oid w).1.balances
unfolding lock_optimistic
lock_optimistic-Took others u a n reason oid w h =
    lock_attempts-Took others u a (suc n) reason oid 3 w h

pub settle_pessimistic-ok :
    (b : Balance) (n : ℕ)
    → IsBalanced b
    → n ≤ b.locked_balance
    → settle_pessimistic b (pos n) ≡ ok (settle_row n b)
unfolding settle_pessimistic ◌-ℤ◌
settle_pessimistic-ok b n h g = ground arith

pub credit_pessimistic-ok :
    (b : Balance) (n : ℕ) → IsBalanced b → credit_pessimistic b (pos n) ≡ ok (credit_row n b)
unfolding credit_pessimistic ◌+ℤ◌
credit_pessimistic-ok b n h = ground arith

cancel_out : (s₀ s₁ s₂ t m n : ℤ) → s₁ +ℤ t ≡ s₀ +ℤ (t -ℤ n) → s₂ +ℤ m ≡ s₁ +ℤ (m +ℤ n) → s₂ ≡ s₀
cancel_out s₀ s₁ s₂ t m n h k =
    omega (int_laws, ap pos_part h, ap neg_part h, ap pos_part k, ap neg_part k)

-- Settling one row and crediting another of the same asset moves no supply.
pub supply-move :
    (t m : Balance) (n x : ℕ) (bs : List Balance)
    → get_by_user_asset bs t.user_id t.asset ≡ some t
    → get_by_user_asset (put (settle_row n t) bs) m.user_id m.asset ≡ some m
    → t.asset ≡ m.asset
    → supply x (put (credit_row n m) (put (settle_row n t) bs)) ≡ supply x bs
supply-move t m n x bs ht hm same = elim (Bool-cases (t.asset == x)) [
  | inl e ↦
      let at_t : t.asset ≡ x = ==→eq _ _ e in
      let at_m : m.asset ≡ x = sym same ∙ at_t in
      cancel_out (supply x bs) (supply x (put (settle_row n t) bs))
        (supply x (put (credit_row n m) (put (settle_row n t) bs))) t.total_balance m.total_balance
        (pos n)
        (subst
          (λ a.
            supply a (put (settle_row n t) bs) +ℤ t.total_balance
            ≡ supply a bs +ℤ (t.total_balance -ℤ pos n))
          at_t (supply-put (settle_row n t) t bs ht))
        (subst
          (λ a.
            supply a (put (credit_row n m) (put (settle_row n t) bs)) +ℤ m.total_balance
            ≡ supply a (put (settle_row n t) bs) +ℤ (m.total_balance +ℤ pos n))
          at_m (supply-put (credit_row n m) m (put (settle_row n t) bs) hm))
  | inr e ↦
      supply-put_ne x (credit_row n m) m (put (settle_row n t) bs) hm (rw (← same) e)
      ∙ supply-put_ne x (settle_row n t) t bs ht e
]

-- Two rows of one asset and of two users: moving an amount that the taker has locked to the
-- maker's available keeps the supply of every asset, and both rows stay balanced.
pub settle_trade_conserves :
    (t m : Balance) (n tid mid x : ℕ) (w : World)
    → get_by_user_asset w.balances t.user_id t.asset ≡ some t
    → get_by_user_asset w.balances m.user_id m.asset ≡ some m
    → IsBalanced t
    → IsBalanced m
    → t.asset ≡ m.asset
    → (t.user_id == m.user_id) ≡ false
    → n ≤ t.locked_balance
    → ((settle_trade_pessimistic t m (pos n) tid mid w).0 ≡ ok tt)
      × (supply x (settle_trade_pessimistic t m (pos n) tid mid w).1.balances ≡ supply x w.balances)
unfolding settle_trade_pessimistic publish_balance_update
settle_trade_conserves t m n tid mid x w ht hm bt bm same ne g =
    rw (settle_pessimistic-ok t n bt g, credit_pessimistic-ok m n bm, settle_trade_pessimistic)
      (
        refl,
        supply-move t m n x w.balances ht
            (get-put (settle_row n t) w.balances m.user_id m.asset ∙ rw ne hm) same,
      )
