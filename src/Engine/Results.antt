-- ===== src/Engine/Results.antt =====
-- backend/app/matching/engine.pyx: what a match promises: conservation, the limit price, a rest that
-- does not cross, and no trade for a post-only order.
use uvipystock.Prelude.{
  ℕ, ◌+◌, ◌≤◌, ◌<◌, ◌≡◌, ◌⊎◌, inl, inr, refl, sym, subst, arith, false, if◌then◌else◌, List, [],
  ◌∷◌, some, sum_by, All, Bool-cases,
}
use uvipystock.Enums.{OrderSide, buy, sell}
use uvipystock.Engine.Double.{mantissa_end}
use uvipystock.Engine.Book.{Level}
use uvipystock.Engine.Match.{
  Taker, CType, Outcome, Matched, Fill, ok, post_only_cross, market, limit, ioc, fok, post_only,
  would_cross, enough, trades_cap, walk, untouched, match_type, match_side,
}
use uvipystock.Engine.Round.{IsWellFormed, IsExact}
use uvipystock.Engine.Walk.{
  side_volume, side_load, OutOfReach, WithinLimit, walk_levels-WithinLimit,
}
use uvipystock.Engine.Sides.{WalkedSide, walk_levels-WalkedSide}

abbrev pub traded : List Fill → ℕ
traded fs = sum_by (λ (f : Fill). f.quantity) fs

-- What a matched order leaves, on a sound side of the book.
pub record Conserves (t : Taker) (ls : List Level) (m : Matched) : Type 0 where
  pub taker_side : traded m.fills + m.remaining ≡ t.quantity
  pub maker_side : side_volume m.opposite + traded m.fills ≡ side_volume ls
  pub sound : All IsWellFormed m.opposite
  pub exact : All IsExact m.opposite

pub walk-Conserves :
    (t : Taker) (ls : List Level)
    → All IsWellFormed ls
    → All IsExact ls
    → t.quantity < mantissa_end
    → side_load ls ≤ trades_cap
    → Conserves t ls (walk t ls)
unfolding walk
walk-Conserves t ls wf x q r =
    let w : WalkedSide t.side t.price ls _ _ _ =
      walk_levels-WalkedSide t.side t.price ls
        (record { remaining = t.quantity; fills = []; overflow = false }) wf refl (omega arith) in
    let m = w.moved x q in
    record {
      taker_side = omega (arith, m.taker_side);
      maker_side = omega (arith, m.maker_side);
      sound = w.sound;
      exact = m.exact;
    }

untouched-Conserves :
    (t : Taker) (ls : List Level) (o : Outcome)
    → All IsWellFormed ls
    → All IsExact ls
    → Conserves t ls (untouched ls o t.quantity)
untouched-Conserves t ls o wf x = record {
  taker_side = omega arith;
  maker_side = omega arith;
  sound = wf;
  exact = x;
}

match_type-Conserves :
    (type : CType) (t : Taker) (ls : List Level)
    → All IsWellFormed ls
    → All IsExact ls
    → t.quantity < mantissa_end
    → side_load ls ≤ trades_cap
    → Conserves t ls (match_type type t ls)
unfolding match_type
match_type-Conserves post_only t ls wf x q r = untouched-Conserves t ls _ wf x
match_type-Conserves fok t ls wf x q r = elim (Bool-cases (enough t.side t.price t.quantity 0 ls)) [
  | inl e ↦ rw e (walk-Conserves t ls wf x q r)
  | inr e ↦ rw e (untouched-Conserves t ls _ wf x)
]
match_type-Conserves market t ls wf x q r = walk-Conserves t ls wf x q r
match_type-Conserves limit t ls wf x q r = walk-Conserves t ls wf x q r
match_type-Conserves ioc t ls wf x q r = walk-Conserves t ls wf x q r

-- On a sound side with few enough rounds for the trade buffer, whose levels' volumes are the sums of
-- their makers' quantities, and where these and the taker's quantity are whole numbers, below 2^53,
-- of one power of two: for each type of order, what is traded and what remains add up to the taker's
-- quantity, the book loses exactly what is traded, and the side is as before in all these respects.
pub match_side-Conserves :
    (t : Taker) (ls : List Level)
    → All IsWellFormed ls
    → All IsExact ls
    → t.quantity < mantissa_end
    → side_load ls ≤ trades_cap
    → Conserves t ls (match_side t ls)
unfolding match_side
match_side-Conserves t ls wf x q r = match_type-Conserves t.type t ls wf x q r

match_type-WithinLimit :
    (type : CType) (t : Taker) (ls : List Level)
    → WithinLimit t.side t.price (match_type type t ls).fills
unfolding match_type walk
match_type-WithinLimit post_only t ls = tt
match_type-WithinLimit fok t ls = elim (Bool-cases (enough t.side t.price t.quantity 0 ls)) [
  | inl e ↦ rw e (walk_levels-WithinLimit t.side t.price ls _ tt)
  | inr e ↦ rw e tt
]
match_type-WithinLimit market t ls = walk_levels-WithinLimit t.side t.price ls _ tt
match_type-WithinLimit limit t ls = walk_levels-WithinLimit t.side t.price ls _ tt
match_type-WithinLimit ioc t ls = walk_levels-WithinLimit t.side t.price ls _ tt

-- Whatever the book, no trade is at a price worse than the taker's limit.
pub match_side-WithinLimit :
    (t : Taker) (ls : List Level) → WithinLimit t.side t.price (match_side t ls).fills
unfolding match_side
match_side-WithinLimit t ls = match_type-WithinLimit t.type t ls

uncrossed :
    (side : OrderSide) (p : ℕ) (ls : List Level)
    → would_cross side (some p) ls ≡ false
    → OutOfReach side (some p) ls
unfolding would_cross
uncrossed side p [] h = tt
uncrossed buy p (l ∷ ls) h = h
uncrossed sell p (l ∷ ls) h = h

-- What is left of an order that was matched without complaint cannot trade with the side.
abbrev pub Settled : Taker → Matched → Type 0
Settled t m = (m.remaining ≡ 0) ⊎ OutOfReach t.side t.price m.opposite

walk-Settled :
    (t : Taker) (ls : List Level)
    → All IsWellFormed ls
    → side_load ls ≤ trades_cap
    → Settled t (walk t ls)
unfolding walk
walk-Settled t ls wf r =
    let w : WalkedSide t.side t.price ls _ _ _ =
      walk_levels-WalkedSide t.side t.price ls
        (record { remaining = t.quantity; fills = []; overflow = false }) wf refl (omega arith) in
    w.ended

match_type-Settled :
    (type : CType) (t : Taker) (ls : List Level) (p : ℕ)
    → t.price ≡ some p
    → All IsWellFormed ls
    → side_load ls ≤ trades_cap
    → (match_type type t ls).outcome ≡ ok
    → Settled t (match_type type t ls)
unfolding match_type
match_type-Settled post_only t ls p e wf r o = elim (Bool-cases (would_cross t.side t.price ls)) [
  | inl crosses ↦ absurd (ground arith)
  | inr clear ↦ inr (
      subst (λ q. would_cross t.side q ls ≡ false → OutOfReach t.side q ls) (sym e)
        (uncrossed t.side p ls) clear)
]
match_type-Settled fok t ls p e wf r o = elim (Bool-cases (enough t.side t.price t.quantity 0 ls)) [
  | inl found ↦ rw found (walk-Settled t ls wf r)
  | inr short ↦ absurd (ground arith)
]
match_type-Settled market t ls p e wf r o = walk-Settled t ls wf r
match_type-Settled limit t ls p e wf r o = walk-Settled t ls wf r
match_type-Settled ioc t ls p e wf r o = walk-Settled t ls wf r

-- On a sound side with few enough rounds for the trade buffer, an order with a price whose match
-- ends with the outcome OK is filled, or the best level that is left is worse than its price: what
-- rests of it does not cross the book.
pub rest_uncrossed :
    (t : Taker) (ls : List Level) (p : ℕ)
    → t.price ≡ some p
    → All IsWellFormed ls
    → side_load ls ≤ trades_cap
    → (match_side t ls).outcome ≡ ok
    → Settled t (match_side t ls)
unfolding match_side
rest_uncrossed t ls p e wf r o = match_type-Settled t.type t ls p e wf r o

-- A post-only order trades nothing and leaves the side as it was; it is refused where it crosses.
pub post_only_passive :
    (t : Taker) (ls : List Level)
    → t.type ≡ post_only
    → match_side t ls
      ≡ untouched ls (if would_cross t.side t.price ls then post_only_cross else ok) t.quantity
unfolding match_side match_type
post_only_passive t ls e =
    subst
      (λ (c : CType).
        match_type c t ls
        ≡ untouched ls (if would_cross t.side t.price ls then post_only_cross else ok) t.quantity)
      (sym e) refl
