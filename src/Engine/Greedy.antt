-- ===== src/Engine/Greedy.antt =====
-- backend/app/matching/engine.pyx: the trades of a match are those of price-time priority.
use uvipystock.Prelude.{
  ℕ, ◌+◌, ◌==◌, ◌≤◌, ◌<◌, ◌≡◌, inl, inr, refl, ap, sym, subst, ◌∙◌, arith, false, List, [], ◌∷◌,
  ◌++◌, Option, length, All, Bool-cases, List-cases, ==→eq, append-nil, map,
}
use uvipystock.Enums.{OrderSide}
use uvipystock.Engine.Book.{Node, Level}
use uvipystock.Engine.Match.{
  Progress, Fill, Taker, CType, market, limit, ioc, fok, post_only, trades_cap, walk_level,
  level_fuel, walk_levels, acceptable, walk, match_type, match_side,
}
use uvipystock.Engine.Round.{IsWellFormed, load}
use uvipystock.Engine.Level.{Walked, walk_level-Walked}
use uvipystock.Engine.Walk.{side_load, load-le, walk_levels_done, walk_levels_far, walk_levels_step}
use uvipystock.Engine.Sides.{used_up, room_left}
use uvipystock.Engine.Priority.{
  Offer, offer_of, offers_of, offers, greedy, greedy_zero, greedy_far, IsPlain, value,
  value-walk_level,
}

-- A level with makers, and every one of them on offer in full.
pub record IsOpen (l : Level) : Type 0 where
  pub stocked : 0 < length l.nodes
  pub plain : All IsPlain l.nodes

module _ (side : OrderSide) (price : Option ℕ) where
  level_far :
      (l : Level) (q : ℕ) (os : List Offer)
      → IsOpen l
      → acceptable side price l.price ≡ false
      → greedy side price q (offers_of l ++ os) ≡ []
  level_far l q os w far = elim (List-cases l.nodes) [
    | inl e ↦ absurd (omega (arith, w.stocked, ap length e))
    | inr (n, ns, e) ↦
        ap (λ (ms : List Node). greedy side price q (map (offer_of l.price) ms ++ os)) e
        ∙ greedy_far side price q (offer_of l.price n) (map (offer_of l.price) ns ++ os) far
  ]

  nothing_more :
      (q : ℕ) (fs : List Fill) (os : List Offer)
      → greedy side price q os ≡ []
      → fs ≡ fs ++ greedy side price q os
  nothing_more q fs os e = sym (append-nil fs) ∙ ap (λ gs. fs ++ gs) (sym e)

  pub walk_levels-greedy :
      (ls : List Level) (p : Progress)
      → All IsWellFormed ls
      → All IsOpen ls
      → p.overflow ≡ false
      → length p.fills + side_load ls ≤ trades_cap
      → (walk_levels side price ls p).1.fills ≡ p.fills ++ greedy side price p.remaining (offers ls)
  unfolding walk_levels greedy
  walk_levels-greedy [] p wf w o r = sym (append-nil p.fills)
  walk_levels-greedy (l ∷ ls) p wf w o r = elim (Bool-cases (acceptable side price l.price)) [
    | inr far ↦ rw (walk_levels_far side price l ls p far) (
        nothing_more p.remaining p.fills (offers (l ∷ ls))
          (level_far l p.remaining (offers ls) w.0 far))
    | inl ok ↦ elim (Bool-cases (p.remaining == 0)) [
      | inl z ↦
          let done : p.remaining ≡ 0 = ==→eq _ _ z in
          rw (walk_levels_done side price (l ∷ ls) p done) (
            nothing_more p.remaining p.fills (offers (l ∷ ls))
              (greedy_zero side price p.remaining (offers (l ∷ ls)) done))
      | inr z ↦
          let l' : Level = (walk_level (level_fuel l) l p).0 in
          let p₁ : Progress = (walk_level (level_fuel l) l p).1 in
          let enough : load l.nodes < level_fuel l = omega (arith, load-le l.nodes) in
          let v : Walked l p l' p₁ =
            walk_level-Walked (level_fuel l) l p wf.0 o enough (omega arith) in
          let here : value side price (offers ls) l.price l'.nodes p₁
              ≡ p.fills ++ greedy side price p.remaining (offers (l ∷ ls)) =
            value-walk_level side price (offers ls) (level_fuel l) l p o enough (omega arith)
              w.0.plain ok in
          rw (walk_levels_step side price l ls p ok z v.no_overflow)
            (elim (Bool-cases (p₁.remaining == 0)) [
              | inl z' ↦
                  let done : p₁.remaining ≡ 0 = ==→eq _ _ z' in
                  rw (walk_levels_done side price ls p₁ done) (
                    nothing_more p₁.remaining p₁.fills _
                      (greedy_zero side price p₁.remaining _ done)
                    ∙ here)
              | inr z' ↦
                  walk_levels-greedy ls p₁ wf.1 w.1 v.no_overflow (room_left l l' ls p p₁ v z' r)
                  ∙ subst
                      (λ (ms : List Node).
                        value side price (offers ls) l.price ms p₁
                        ≡ p.fills ++ greedy side price p.remaining (offers (l ∷ ls)))
                      (used_up l l' ls p p₁ v z') here
            ])
    ]
  ]

walk-greedy :
    (t : Taker) (ls : List Level)
    → All IsWellFormed ls
    → All IsOpen ls
    → side_load ls ≤ trades_cap
    → (walk t ls).fills ≡ greedy t.side t.price t.quantity (offers ls)
unfolding walk
walk-greedy t ls wf w r =
    walk_levels-greedy t.side t.price ls
      (record { remaining = t.quantity; fills = []; overflow = false }) wf w refl (omega arith)

-- The types that trade at once what they can.
abbrev pub Takes : CType → Type 0
Takes market = Unit
Takes limit = Unit
Takes ioc = Unit
Takes _ = ⊥

match_type-greedy :
    (type : CType) (t : Taker) (ls : List Level)
    → Takes type
    → All IsWellFormed ls
    → All IsOpen ls
    → side_load ls ≤ trades_cap
    → (match_type type t ls).fills ≡ greedy t.side t.price t.quantity (offers ls)
unfolding match_type
match_type-greedy market t ls k wf w r = walk-greedy t ls wf w r
match_type-greedy limit t ls k wf w r = walk-greedy t ls wf w r
match_type-greedy ioc t ls k wf w r = walk-greedy t ls wf w r
match_type-greedy fok t ls k wf w r = absurd k
match_type-greedy post_only t ls k wf w r = absurd k

-- On a sound side whose levels hold makers that are on offer in full, with few enough rounds for
-- the trade buffer, the trades of a market, limit or immediate-or-cancel order are those of the
-- specification: the offers of the levels in their order, and in a level in theirs, each taken as
-- far as it goes, until the order is filled or the next price is out of its reach.
pub match_side-greedy :
    (t : Taker) (ls : List Level)
    → Takes t.type
    → All IsWellFormed ls
    → All IsOpen ls
    → side_load ls ≤ trades_cap
    → (match_side t ls).fills ≡ greedy t.side t.price t.quantity (offers ls)
unfolding match_side
match_side-greedy t ls k wf w r = match_type-greedy t.type t ls k wf w r
