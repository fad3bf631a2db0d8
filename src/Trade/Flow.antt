-- ===== src/Trade/Flow.antt =====
-- What a method takes out of an asset and puts into it, if it returns, over rows that stay in their
-- tables.
use uvipystock.Prelude.{
  ℕ, ◌+◌, ◌==◌, ◌≡◌, refl, ap, arith, Bool, true, false, if◌then◌else◌, List, [], ◌∷◌, Option, none,
  some, contains, Bool-cases, inl, inr,
}
use uvipystock.Prelude.Int.{ℤ, pos, ◌+ℤ◌, pos_part, neg_part, int_laws}
use uvipystock.Model.{World}
use uvipystock.Model.Rows.{Balance, Order}
use uvipystock.Redis.{Command}
use uvipystock.Exec.{Exec, Result, ok, err, pure, send, ◌>>=◌, bind_result}
use uvipystock.Balance.Repo.{get_by_user_asset, has_key, put}
use uvipystock.Balance.Laws.{get-put, supply}
use uvipystock.Orders.Repo.{get_order, put_order}

abbrev is_some {ℓ} : {A : Type ℓ} → Option A → Bool
is_some none = false
is_some (some _) = true

abbrev pub has_row : List Balance → ℕ → ℕ → Bool
has_row bs u a = is_some (get_by_user_asset bs u a)

abbrev user : Option Order → Option ℕ
user none = none
user (some o) = some o.user_id

abbrev pub user_of : List Order → ℕ → Option ℕ
user_of os id = user (get_order os id)

has_row-put :
    (b : Balance) (bs : List Balance) (u a : ℕ)
    → has_row bs u a ≡ true
    → has_row (put b bs) u a ≡ true
has_row-put b bs u a h = elim (Bool-cases (has_key u a b)) [
  | inl e ↦ rw (get-put b bs u a, e) refl
  | inr e ↦ rw (get-put b bs u a, e) h
]

pub user_of-put :
    (o p : Order) (os : List Order) (id : ℕ)
    → get_order os o.id ≡ some p
    → p.user_id ≡ o.user_id
    → user_of (put_order o os) id ≡ user_of os id
unfolding get_order put_order
user_of-put o p [] id h e = cc
user_of-put o p (q ∷ qs) id h e = ground (arith, user_of-put o p qs id)

abbrev pub flow : ℕ → ℕ → ℕ → ℕ
flow x a n = if a == x then n else 0

-- The orders `ids` are there, of the users `users`, and these have a row in both assets.
module _ (base quote : ℕ) (users : ℕ → ℕ) (ids : List ℕ) where
  pub record Ready (w : World) : Type 0 where
    pub owner : (id : ℕ) → contains id ids ≡ true → user_of w.orders id ≡ some (users id)
    pub base_row : (id : ℕ) → contains id ids ≡ true → has_row w.balances (users id) base ≡ true
    pub quote_row : (id : ℕ) → contains id ids ≡ true → has_row w.balances (users id) quote ≡ true

  -- Where `m` returns, the supply of the asset `x` has lost `out` and gained `into`.
  abbrev pub Flows : {A : Type 0} → ℕ → ℕ → ℕ → Exec A → Type 0
  Flows {A} x out into m =
      (w : World) (a : A)
      → Ready w
      → (m w).0 ≡ ok a
      → Ready (m w).1 × (supply x (m w).1.balances +ℤ pos out ≡ supply x w.balances +ℤ pos into)

  pub Ready-put :
      (b : Balance) (w w' : World)
      → Ready w
      → w'.orders ≡ w.orders
      → w'.balances ≡ put b w.balances
      → Ready w'
  Ready-put b w w' r eo eb = record {
    owner = λ id h. rw eo (r.owner id h);
    base_row = λ id h. rw eb (has_row-put b w.balances (users id) base (r.base_row id h));
    quote_row = λ id h. rw eb (has_row-put b w.balances (users id) quote (r.quote_row id h));
  }

  pub Ready-same :
      (w w' : World) → Ready w → w'.orders ≡ w.orders → w'.balances ≡ w.balances → Ready w'
  Ready-same w w' r eo eb = record {
    owner = λ id h. rw eo (r.owner id h);
    base_row = λ id h. rw eb (r.base_row id h);
    quote_row = λ id h. rw eb (r.quote_row id h);
  }

  pub Flows-pure : {A : Type 0} (x : ℕ) (a : A) → Flows x 0 0 (pure a)
  Flows-pure x a w a' r h = (r, refl)

  pub Flows-send : (x : ℕ) (cs : List Command) → Flows x 0 0 (send cs)
  Flows-send x cs w a r h = (Ready-same w _ r refl refl, refl)

  join :
      (s₀ s₁ s₂ : ℤ) (o₁ i₁ o₂ i₂ : ℕ)
      → s₁ +ℤ pos o₁ ≡ s₀ +ℤ pos i₁
      → s₂ +ℤ pos o₂ ≡ s₁ +ℤ pos i₂
      → s₂ +ℤ pos (o₁ + o₂) ≡ s₀ +ℤ pos (i₁ + i₂)
  join s₀ s₁ s₂ o₁ i₁ o₂ i₂ h k =
      omega (int_laws, ap pos_part h, ap neg_part h, ap pos_part k, ap neg_part k)

  pub Flows-result :
      {A B : Type 0} (x o₁ i₁ o₂ i₂ : ℕ) (r : Result A) (w w₁ : World) (f : A → Exec B) (b : B)
      → ((a : A)
          → r ≡ ok a
          → Ready w₁ × (supply x w₁.balances +ℤ pos o₁ ≡ supply x w.balances +ℤ pos i₁))
      → ((a : A) → Flows x o₂ i₂ (f a))
      → (bind_result r w₁ f).0 ≡ ok b
      → Ready (bind_result r w₁ f).1
        × (supply x (bind_result r w₁ f).1.balances +ℤ pos (o₁ + o₂)
            ≡ supply x w.balances +ℤ pos (i₁ + i₂))
  Flows-result x o₁ i₁ o₂ i₂ (ok a) w w₁ f b h k e =
      let p = h a refl in
      let q = k a w₁ b p.0 e in
      (
        q.0,
        join (supply x w.balances) (supply x w₁.balances) (supply x (f a w₁).1.balances) o₁ i₁ o₂ i₂
            p.1 q.1,
      )
  Flows-result x o₁ i₁ o₂ i₂ (err z) w w₁ f b h k e = cc

  pub Flows-bind :
      {A B : Type 0} (x o₁ i₁ o₂ i₂ : ℕ) (m : Exec A) (f : A → Exec B)
      → Flows x o₁ i₁ m
      → ((a : A) → Flows x o₂ i₂ (f a))
      → Flows x (o₁ + o₂) (i₁ + i₂) (m >>= f)
  Flows-bind x o₁ i₁ o₂ i₂ m f h k w b r e =
      Flows-result x o₁ i₁ o₂ i₂ (m w).0 w (m w).1 f b (λ a q. h w a r q) k e
