-- ===== src/Balance/Laws.antt =====
-- The table of balances: what a read finds after a write, and an invariant of all rows.
use uvipystock.Prelude.{
  ℕ, ◌+◌, ◌==◌, ◌≡◌, arith, false, if◌then◌else◌, List, [], ◌∷◌, some, ap, subst, All, Bool-cases,
  inl, inr,
}
use uvipystock.Prelude.Int.{ℤ, pos, ◌+ℤ◌, pos_part, neg_part, int_laws}
use uvipystock.Model.Rows.{Balance}
use uvipystock.Balance.Repo.{has_key, get_by_user_asset, put}

-- total == locked + available.
abbrev pub IsBalanced : Balance → Type 0
IsBalanced b = b.total_balance ≡ pos (b.locked_balance + b.available_balance)

abbrev pub IsSound : List Balance → Type 0
IsSound bs = All IsBalanced bs

pub get-put :
    (b : Balance) (bs : List Balance) (u a : ℕ)
    → get_by_user_asset (put b bs) u a
      ≡ (if has_key u a b then some b else get_by_user_asset bs u a)
unfolding get_by_user_asset put
get-put b [] u a = ground arith
get-put b (c ∷ cs) u a = ground (arith, get-put b cs u a)

pub get-key :
    (bs : List Balance) (u a : ℕ) (b : Balance)
    → get_by_user_asset bs u a ≡ some b
    → (b.user_id ≡ u) × (b.asset ≡ a)
unfolding get_by_user_asset
get-key [] u a b h = cc
get-key (c ∷ cs) u a b h = ground (arith, get-key cs u a b)

some_inj : {x y : Balance} → some x ≡ some y → x ≡ y
some_inj h = cc

pub get-All :
    (P : Balance → Type 0) (bs : List Balance) (u a : ℕ) (b : Balance)
    → All P bs
    → get_by_user_asset bs u a ≡ some b
    → P b
unfolding get_by_user_asset
get-All P [] u a b all h = cc
get-All P (c ∷ cs) u a b all h = elim (Bool-cases (has_key u a c)) [
  | inl hit ↦ let e : some c ≡ some b = rw hit at h in subst P (some_inj e) all.0
  | inr miss ↦ get-All P cs u a b all.1 (rw miss at h)
]

pub put-All :
    (P : Balance → Type 0) (b : Balance) (bs : List Balance) → P b → All P bs → All P (put b bs)
unfolding put
put-All P b [] p all = (p, tt)
put-All P b (c ∷ cs) p all = elim (Bool-cases (has_key b.user_id b.asset c)) [
  | inl hit ↦ rw hit (p, all.1)
  | inr miss ↦ rw miss (all.0, put-All P b cs p all.1)
]

-- The sum of an asset over all users.
pub supply : ℕ → List Balance → ℤ
supply a [] = pos 0
supply a (b ∷ bs) = let rest = supply a bs in if b.asset == a then b.total_balance +ℤ rest else rest

add_first : (x y s t u : ℤ) → s +ℤ x ≡ t +ℤ y → u +ℤ s +ℤ x ≡ u +ℤ t +ℤ y
add_first x y s t u h = omega (int_laws, ap pos_part h, ap neg_part h)

swap_first : (x y s : ℤ) → y +ℤ s +ℤ x ≡ x +ℤ s +ℤ y
swap_first x y s = omega int_laws

-- Writing a row back moves the supply of its asset by what its total moved.
pub supply-put :
    (b c : Balance) (bs : List Balance)
    → get_by_user_asset bs b.user_id b.asset ≡ some c
    → supply b.asset (put b bs) +ℤ c.total_balance ≡ supply b.asset bs +ℤ b.total_balance
unfolding supply put get_by_user_asset
supply-put b c [] h = cc
supply-put b c (d ∷ ds) h = ground (
  arith,
  supply-put b c ds,
  add_first c.total_balance b.total_balance (supply b.asset (put b ds)) (supply b.asset ds)
      d.total_balance,
  swap_first c.total_balance b.total_balance (supply b.asset ds),
)

-- It moves no other supply.
pub supply-put_ne :
    (a : ℕ) (b c : Balance) (bs : List Balance)
    → get_by_user_asset bs b.user_id b.asset ≡ some c
    → (b.asset == a) ≡ false
    → supply a (put b bs) ≡ supply a bs
unfolding supply put get_by_user_asset
supply-put_ne a b c [] h ne = cc
supply-put_ne a b c (d ∷ ds) h ne = ground (arith, supply-put_ne a b c ds)
