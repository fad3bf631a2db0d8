-- ===== src/Engine/Walk.antt =====
-- The loop over the levels: the price limit, where it stops, and the volume of a side.
use uvipystock.Prelude.{
  ℕ, zero, suc, ◌+◌, ◌*◌, ◌==◌, leb, ◌≤◌, ◌≡◌, inl, inr, refl, ap, arith, true, false, ◌||◌, not,
  if◌then◌else◌, List, [], ◌∷◌, Option, length, sum_by, All, All-append, Bool-cases, List-cases,
  ◌∙◌, tests,
}
use uvipystock.Enums.{OrderSide}
use uvipystock.Engine.Book.{Node, Level, compact}
use uvipystock.Engine.Match.{
  Progress, Fill, fill_of, take, trades_cap, walk_level, level_fuel, walk_levels, acceptable,
}
use uvipystock.Engine.Round.{node_volume, load, IsWellFormed, IsExact}

abbrev pub side_volume : List Level → ℕ
side_volume ls = sum_by (λ (l : Level). node_volume l.nodes) ls

abbrev pub side_load : List Level → ℕ
side_load ls = sum_by (λ (l : Level). load l.nodes) ls

-- The best level is out of the taker's reach, or there is none.
abbrev pub OutOfReach : OrderSide → Option ℕ → List Level → Type 0
OutOfReach side price [] = Unit
OutOfReach side price (l ∷ _) = acceptable side price l.price ≡ false

-- The volume of the levels before the first that is out of reach.
abbrev pub reach : OrderSide → Option ℕ → List Level → ℕ
reach side price [] = 0
reach side price (l ∷ ls) =
    if acceptable side price l.price then node_volume l.nodes + reach side price ls else 0

-- Every trade is at a price that the taker accepts.
abbrev pub WithinLimit : OrderSide → Option ℕ → List Fill → Type 0
WithinLimit side price fs = All (λ (f : Fill). acceptable side price f.price ≡ true) fs

-- A level's trades are all at its price.
take-All :
    (P : Fill → Type 0) (n : Node) (ns : List Node) (l : Level) (p : Progress)
    → ((f : Fill) → f.price ≡ l.price → P f)
    → All P p.fills
    → All P (take n ns l p).1.fills
unfolding take
take-All P n ns l p h all = elim (Bool-cases (leb trades_cap (length p.fills))) [
  | inl e ↦ rw e all
  | inr e ↦ rw e (All-append P p.fills (fill_of p.remaining l n ∷ []) all (h _ refl, tt))
]

take-price :
    (n : Node) (ns : List Node) (l : Level) (p : Progress) → (take n ns l p).0.price ≡ l.price
unfolding take
take-price n ns l p = ground arith

walk_level-All :
    (P : Fill → Type 0) (fuel : ℕ) (l : Level) (p : Progress)
    → ((f : Fill) → f.price ≡ l.price → P f)
    → All P p.fills
    → All P (walk_level fuel l p).1.fills
unfolding walk_level
walk_level-All P zero l p h all = all
walk_level-All P (suc fuel) l p h all = elim (List-cases l.nodes) [
  | inl e ↦ simp (e, walk_level) all
  | inr (n, ns, e) ↦ elim (Bool-cases (p.overflow || p.remaining == 0)) [
    | inl z ↦ simp (e, z, walk_level) all
    | inr z ↦
        simp (e, z, walk_level)
          (walk_level-All P fuel (take n ns l p).0 (take n ns l p).1
            (λ f q. h f (q ∙ take-price n ns l p)) (take-All P n ns l p h all))
  ]
]

-- Every trade of the walk is within the limit, also when the buffer overflows.
pub walk_levels-WithinLimit :
    (side : OrderSide) (price : Option ℕ) (ls : List Level) (p : Progress)
    → WithinLimit side price p.fills
    → WithinLimit side price (walk_levels side price ls p).1.fills
unfolding walk_levels
walk_levels-WithinLimit side price [] p h = h
walk_levels-WithinLimit side price (l ∷ ls) p h =
    elim (Bool-cases (p.remaining == 0 || not (acceptable side price l.price))) [
      | inl stop ↦ rw stop h
      | inr go ↦
          let P = λ (f : Fill). acceptable side price f.price ≡ true in
          let ok : acceptable side price l.price ≡ true = ground arith in
          let here : WithinLimit side price (walk_level (level_fuel l) l p).1.fills =
            walk_level-All P (level_fuel l) l p (λ f e. rw e ok) h in
          elim (Bool-cases (walk_level (level_fuel l) l p).1.overflow) [
            | inl full ↦ rw go (rw full here)
            | inr more ↦ rw go (
                rw more
                  (walk_levels-WithinLimit side price ls (walk_level (level_fuel l) l p).1 here))
          ]
    ]

pub load-le : (ns : List Node) → load ns ≤ 2 * length ns
load-le [] = omega arith
load-le (n ∷ ns) = ground (arith, load-le ns)

no_nodes : (l : Level) → IsWellFormed l → (l.order_count == 0) ≡ true → l.nodes ≡ []
no_nodes l wf e = elim (List-cases l.nodes) [
  | inl empty ↦ empty
  | inr (n, ns, q) ↦ absurd (omega (tests, wf.count, ap length q))
]

pub compact-volume :
    (l : Level) (ls : List Level)
    → IsWellFormed l
    → side_volume (compact l ls) ≡ node_volume l.nodes + side_volume ls
compact-volume l ls wf = elim (Bool-cases (l.order_count == 0)) [
  | inl e ↦ rw (e, compact) (omega (arith, ap node_volume (no_nodes l wf e)))
  | inr e ↦ rw (e, compact)
]

pub compact-IsWellFormed :
    (l : Level) (ls : List Level)
    → IsWellFormed l
    → All IsWellFormed ls
    → All IsWellFormed (compact l ls)
compact-IsWellFormed l ls wf all = elim (Bool-cases (l.order_count == 0)) [
  | inl e ↦ rw (e, compact) all
  | inr e ↦ rw (e, compact) (wf, all)
]

pub compact-IsExact :
    (l : Level) (ls : List Level) → IsExact l → All IsExact ls → All IsExact (compact l ls)
compact-IsExact l ls x all = elim (Bool-cases (l.order_count == 0)) [
  | inl e ↦ rw (e, compact) all
  | inr e ↦ rw (e, compact) (x, all)
]

pub compact_empty :
    (l : Level) (ls : List Level) → IsWellFormed l → l.nodes ≡ [] → compact l ls ≡ ls
compact_empty l ls wf e = ground (arith, wf.count, ap length e)

pub walk_levels_done :
    (side : OrderSide) (price : Option ℕ) (ls : List Level) (p : Progress)
    → p.remaining ≡ 0
    → walk_levels side price ls p ≡ (ls, p)
unfolding walk_levels
walk_levels_done side price [] p e = refl
walk_levels_done side price (l ∷ ls) p e = ground arith

pub walk_levels_far :
    (side : OrderSide) (price : Option ℕ) (l : Level) (ls : List Level) (p : Progress)
    → acceptable side price l.price ≡ false
    → walk_levels side price (l ∷ ls) p ≡ (l ∷ ls, p)
unfolding walk_levels
walk_levels_far side price l ls p e = ground arith

-- One level, and the walk over the rest.
pub walk_levels_step :
    (side : OrderSide) (price : Option ℕ) (l : Level) (ls : List Level) (p : Progress)
    → acceptable side price l.price ≡ true
    → (p.remaining == 0) ≡ false
    → (walk_level (level_fuel l) l p).1.overflow ≡ false
    → let (l', p') = walk_level (level_fuel l) l p in
      let rest = walk_levels side price ls p' in
      walk_levels side price (l ∷ ls) p ≡ (compact l' rest.0, rest.1)
unfolding walk_levels
walk_levels_step side price l ls p ok z o = rw (z, ok) (rw o)
