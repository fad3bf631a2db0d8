-- ===== src/Trade/Conserve.antt =====
-- What settling and crediting one row take out of an asset and put into it.
use uvipystock.Prelude.{
  ℕ, ◌+◌, ◌==◌, ltb, ==→eq, ◌≡◌, refl, subst, ap, arith, true, List, some, Bool-cases, Option-cases,
  ◌⊎◌, inl, inr,
}
use uvipystock.Prelude.Int.{ℤ, pos, ◌+ℤ◌, ◌-ℤ◌, pos_part, neg_part, int_laws, eqb_ℤ}
use uvipystock.Model.{World}
use uvipystock.Model.Rows.{Balance}
use uvipystock.Redis.{Reason, trade_settled, trade_received}
use uvipystock.Exec.{Exec, Error, ok, err}
use uvipystock.Balance.Repo.{
  get_by_user_asset, put, settle_pessimistic, credit_pessimistic, settle_row, credit_row,
  check_invariant,
}
use uvipystock.Balance.Service.{publish_balance_update}
use uvipystock.Balance.Pessimistic.{settle_row_pessimistic, credit_row_pessimistic}
use uvipystock.Balance.Laws.{get-key, supply, supply-put, supply-put_ne}
use uvipystock.Trade.Service.{settle_if, credit_if}
use uvipystock.Trade.Flow.{flow, Ready, Ready-put, has_row}

check-shape :
    (b : Balance) → (check_invariant b ≡ ok b) ⊎ ((e : Error) × (check_invariant b ≡ err e))
unfolding check_invariant
check-shape b =
    elim (Bool-cases (eqb_ℤ b.total_balance (pos (b.locked_balance + b.available_balance)))) [
      | inl e ↦ rw e (inl refl)
      | inr e ↦ rw e (inr (_, refl))
    ]

settle-shape :
    (b : Balance) (n : ℕ)
    → (settle_pessimistic b (pos n) ≡ ok (settle_row n b))
      ⊎ ((e : Error) × (settle_pessimistic b (pos n) ≡ err e))
unfolding settle_pessimistic
settle-shape b n = elim (Bool-cases (ltb b.locked_balance n)) [
  | inl e ↦ rw e (inr (_, refl))
  | inr e ↦ rw e (check-shape (settle_row n b))
]

credit-shape :
    (b : Balance) (n : ℕ)
    → (credit_pessimistic b (pos n) ≡ ok (credit_row n b))
      ⊎ ((e : Error) × (credit_pessimistic b (pos n) ≡ err e))
unfolding credit_pessimistic
credit-shape b n = check-shape (credit_row n b)

less : (s t s' n : ℤ) → s' +ℤ t ≡ s +ℤ (t -ℤ n) → s' +ℤ n ≡ s +ℤ pos 0
less s t s' n h = omega (int_laws, ap pos_part h, ap neg_part h)

more : (s t s' n : ℤ) → s' +ℤ t ≡ s +ℤ (t +ℤ n) → s' +ℤ pos 0 ≡ s +ℤ n
more s t s' n h = omega (int_laws, ap pos_part h, ap neg_part h)

supply-settle :
    (x n : ℕ) (b : Balance) (bs : List Balance)
    → get_by_user_asset bs b.user_id b.asset ≡ some b
    → supply x (put (settle_row n b) bs) +ℤ pos (flow x b.asset n) ≡ supply x bs +ℤ pos 0
supply-settle x n b bs h = elim (Bool-cases (b.asset == x)) [
  | inl e ↦ rw e (
      subst (λ a. supply a (put (settle_row n b) bs) +ℤ pos n ≡ supply a bs +ℤ pos 0) (==→eq _ _ e)
        (less (supply b.asset bs) b.total_balance _ (pos n) (supply-put (settle_row n b) b bs h)))
  | inr e ↦ rw e (ap (λ s. s +ℤ pos 0) (supply-put_ne x (settle_row n b) b bs h e))
]

supply-credit :
    (x n : ℕ) (b : Balance) (bs : List Balance)
    → get_by_user_asset bs b.user_id b.asset ≡ some b
    → supply x (put (credit_row n b) bs) +ℤ pos 0 ≡ supply x bs +ℤ pos (flow x b.asset n)
supply-credit x n b bs h = elim (Bool-cases (b.asset == x)) [
  | inl e ↦ rw e (
      subst (λ a. supply a (put (credit_row n b) bs) +ℤ pos 0 ≡ supply a bs +ℤ pos n) (==→eq _ _ e)
        (more (supply b.asset bs) b.total_balance _ (pos n) (supply-put (credit_row n b) b bs h)))
  | inr e ↦ rw e (ap (λ s. s +ℤ pos 0) (supply-put_ne x (credit_row n b) b bs h e))
]

module _ (base quote : ℕ) (users : ℕ → ℕ) (ids : List ℕ) where
  abbrev pub R : World → Type 0
  R = Ready base quote users ids

  abbrev pub Step : ℕ → ℕ → ℕ → Exec (Unit {0}) → World → Type 0
  Step x out into m w =
      (a : Unit {0})
      → R w
      → (m w).0 ≡ ok a
      → R (m w).1 × (supply x (m w).1.balances +ℤ pos out ≡ supply x w.balances +ℤ pos into)

  settle_row-Step :
      (x n oid : ℕ) (reason : Reason) (b : Balance) (w : World)
      → get_by_user_asset w.balances b.user_id b.asset ≡ some b
      → Step x (flow x b.asset n) 0 (settle_row_pessimistic b (pos n) reason (some oid)) w
  unfolding settle_row_pessimistic publish_balance_update
  settle_row-Step x n oid reason b w found a r h = elim (settle-shape b n) [
    | inl e ↦ rw e (
      Ready-put base quote users ids (settle_row n b) w _ r refl refl,
      supply-settle x n b w.balances found,
    )
    | inr (z, e) ↦ let bad : err z ≡ ok a = rw e at h in cc
  ]

  credit_row-Step :
      (x n oid : ℕ) (reason : Reason) (b : Balance) (w : World)
      → get_by_user_asset w.balances b.user_id b.asset ≡ some b
      → Step x 0 (flow x b.asset n) (credit_row_pessimistic b (pos n) reason (some oid)) w
  unfolding credit_row_pessimistic publish_balance_update
  credit_row-Step x n oid reason b w found a r h = elim (credit-shape b n) [
    | inl e ↦ rw e (
      Ready-put base quote users ids (credit_row n b) w _ r refl refl,
      supply-credit x n b w.balances found,
    )
    | inr (z, e) ↦ let bad : err z ≡ ok a = rw e at h in cc
  ]

  -- The row that a read finds is the one of its key.
  by_key :
      (P : Balance → ℕ → ℕ → Type 0) (bs : List Balance) (u a : ℕ) (b : Balance)
      → get_by_user_asset bs u a ≡ some b
      → P b b.user_id b.asset
      → P b u a
  by_key P bs u a b found p =
      let k = get-key bs u a b found in subst (λ y. P b u y) k.1 (subst (λ v. P b v b.asset) k.0 p)

  pub settle_if-Step :
      (x u asset n oid : ℕ) (w : World)
      → has_row w.balances u asset ≡ true
      → Step x (flow x asset n) 0 (settle_if (get_by_user_asset w.balances u asset) n oid) w
  unfolding settle_if
  settle_if-Step x u asset n oid w row =
      elim (Option-cases (get_by_user_asset w.balances u asset)) [
        | inl e ↦ absurd (ground arith)
        | inr (b, e) ↦ rw e (
            by_key
              (λ c v y.
                get_by_user_asset w.balances v y ≡ some c
                → Step x (flow x y n) 0 (settle_row_pessimistic c (pos n) trade_settled (some oid))
                    w)
              w.balances u asset b e (settle_row-Step x n oid trade_settled b w) e)
      ]

  pub credit_if-Step :
      (x u asset n oid : ℕ) (w : World)
      → has_row w.balances u asset ≡ true
      → Step x 0 (flow x asset n) (credit_if (get_by_user_asset w.balances u asset) n oid) w
  unfolding credit_if
  credit_if-Step x u asset n oid w row =
      elim (Option-cases (get_by_user_asset w.balances u asset)) [
        | inl e ↦ absurd (ground arith)
        | inr (b, e) ↦ rw e (
            by_key
              (λ c v y.
                get_by_user_asset w.balances v y ≡ some c
                → Step x 0 (flow x y n) (credit_row_pessimistic c (pos n) trade_received (some oid))
                    w)
              w.balances u asset b e (credit_row-Step x n oid trade_received b w) e)
      ]
