-- ===== src/Engine/FillOrKill.antt =====
-- backend/app/matching/engine.pyx: a fill-or-kill order takes all or nothing.
use uvipystock.Prelude.{
  ℕ, ◌+◌, ◌≤◌, ◌<◌, ◌≡◌, ◌⊎◌, inl, inr, refl, sym, subst, arith, true, false, List, [], ◌∷◌, Option,
  All, Bool-cases,
}
use uvipystock.Enums.{OrderSide}
use uvipystock.Engine.Double.{mantissa_end, fadd, round_double_small}
use uvipystock.Engine.Book.{Level}
use uvipystock.Engine.Match.{
  Taker, CType, Matched, ok, fok_rejected, fok, enough, trades_cap, walk, untouched, match_type,
  match_side,
}
use uvipystock.Engine.Round.{IsWellFormed, IsExact}
use uvipystock.Engine.Walk.{side_volume, side_load, reach}
use uvipystock.Engine.Sides.{MovedSide, WalkedSide, walk_levels-WalkedSide}
use uvipystock.Engine.Results.{traded, walk-Conserves}

-- The pre-check of FOK counts the volume within reach, where the sums are exact.
enough-reach :
    (side : OrderSide) (price : Option ℕ) (q found : ℕ) (ls : List Level)
    → All IsExact ls
    → found + side_volume ls < mantissa_end
    → enough side price q found ls ≡ true
    → q ≤ found + reach side price ls
unfolding enough
enough-reach side price q found [] x s h = cc
enough-reach side price q found (l ∷ ls) x s h =
    let sum : fadd found l.total_volume ≡ found + l.total_volume =
      round_double_small _ (omega (arith, x.0.volume)) in
    let more =
      enough-reach side price q (found + l.total_volume) ls x.1 (omega (arith, x.0.volume)) in
    ground (arith, x.0.volume, sum, more)

walk_fills :
    (t : Taker) (ls : List Level)
    → All IsWellFormed ls
    → All IsExact ls
    → t.quantity < mantissa_end
    → side_volume ls < mantissa_end
    → side_load ls ≤ trades_cap
    → enough t.side t.price t.quantity 0 ls ≡ true
    → ((walk t ls).outcome ≡ ok) × ((walk t ls).remaining ≡ 0)
unfolding walk
walk_fills t ls wf x q s r e =
    let w : WalkedSide t.side t.price ls _ _ _ =
      walk_levels-WalkedSide t.side t.price ls
        (record { remaining = t.quantity; fills = []; overflow = false }) wf refl (omega arith) in
    let m : MovedSide t.side t.price ls _ _ _ = w.moved x q in
    ground (
      arith,
      m.drained,
      m.taker_side,
      w.no_overflow,
      enough-reach t.side t.price t.quantity 0 ls x (omega arith) e,
    )

-- Filled completely, by trades of the whole quantity; or rejected, with no trade and the book as
-- it was.
abbrev pub AllOrNone : Taker → List Level → Matched → Type 0
AllOrNone t ls m =
    (m.outcome ≡ ok) × (m.remaining ≡ 0) × (traded m.fills ≡ t.quantity)
    ⊎ m ≡ untouched ls fok_rejected t.quantity

match_fok :
    (t : Taker) (ls : List Level)
    → All IsWellFormed ls
    → All IsExact ls
    → t.quantity < mantissa_end
    → side_volume ls < mantissa_end
    → side_load ls ≤ trades_cap
    → AllOrNone t ls (match_type fok t ls)
unfolding match_type
match_fok t ls wf x q s r = elim (Bool-cases (enough t.side t.price t.quantity 0 ls)) [
  | inl e ↦
      let f = walk_fills t ls wf x q s r e in
      let c = walk-Conserves t ls wf x q r in
      inl (rw e (f.0, f.1, omega (arith, c.taker_side, f.1)))
  | inr e ↦ inr (rw e)
]

-- On a sound side with few enough rounds for the trade buffer, whose levels' volumes are the sums of
-- their makers' quantities, and where the volume of the side and the taker's quantity are whole
-- numbers, below 2^53, of one power of two: a fill-or-kill order is filled completely, or it is
-- rejected with no trade and the book as it was.
pub fok_filled_or_rejected :
    (t : Taker) (ls : List Level)
    → t.type ≡ fok
    → All IsWellFormed ls
    → All IsExact ls
    → t.quantity < mantissa_end
    → side_volume ls < mantissa_end
    → side_load ls ≤ trades_cap
    → AllOrNone t ls (match_side t ls)
unfolding match_side
fok_filled_or_rejected t ls e wf x q s r =
    subst (λ (c : CType). AllOrNone t ls (match_type c t ls)) (sym e) (match_fok t ls wf x q s r)
