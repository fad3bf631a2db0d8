-- ===== src/Engine/Fuel.antt =====
-- backend/app/matching/engine.pyx: the loop over a level ends by its own test.
use uvipystock.Prelude.{
  ℕ, zero, suc, ◌+◌, ◌==◌, leb, ◌≤◌, ◌<◌, ◌≡◌, ◌⊎◌, inl, inr, refl, ap, sym, ◌∙◌, arith, true,
  false, ◌||◌, List, [], ◌∷◌, length, Bool-cases, List-cases,
}
use uvipystock.Engine.Book.{Node, Level}
use uvipystock.Engine.Match.{Progress, take, trades_cap, walk_level, level_fuel}
use uvipystock.Engine.Round.{load, load-level_after}
use uvipystock.Engine.Walk.{load-le}

-- The test at the head of the loop fails.
abbrev pub Ended : Level × Progress → Type 0
Ended (l, p) = (p.overflow ≡ true) ⊎ (p.remaining ≡ 0) ⊎ (l.nodes ≡ [])

stays : (fuel : ℕ) (l : Level) (p : Progress) → Ended (l, p) → walk_level fuel l p ≡ (l, p)
unfolding walk_level
stays zero l p h = refl
stays (suc fuel) l p h = elim (List-cases l.nodes) [
  | inl e ↦ simp (e, walk_level) refl
  | inr (n, ns, e) ↦ ground (arith, e, h)
]

goes :
    (fuel : ℕ) (l : Level) (p : Progress) (n : Node) (ns : List Node)
    → l.nodes ≡ n ∷ ns
    → (p.overflow || p.remaining == 0) ≡ false
    → walk_level (suc fuel) l p ≡ walk_level fuel (take n ns l p).0 (take n ns l p).1
unfolding walk_level
goes fuel l p n ns e h = ground arith

-- After a round the loop has ended, or it has fewer rounds to go.
take_less :
    (n : Node) (ns : List Node) (l : Level) (p : Progress)
    → Ended (take n ns l p) ⊎ (load (take n ns l p).0.nodes < load (n ∷ ns))
unfolding take
take_less n ns l p = elim (Bool-cases (leb trades_cap (length p.fills))) [
  | inl full ↦ rw full (inl (inl refl))
  | inr room ↦ rw room (elim (load-level_after p.remaining n ns l) [
    | inl filled_up ↦ inl (inr (inl filled_up))
    | inr fewer ↦ inr fewer
  ])
]

-- The loop ends, and more fuel changes nothing.
abbrev Stable : ℕ → ℕ → Level → Progress → Type 0
Stable fuel more l p = Ended (walk_level fuel l p) × (walk_level more l p ≡ walk_level fuel l p)

Ended-Stable : (fuel more : ℕ) (l : Level) (p : Progress) → Ended (l, p) → Stable fuel more l p
Ended-Stable fuel more l p h = (rw (stays fuel l p h) h, stays more l p h ∙ sym (stays fuel l p h))

walk_level-Stable :
    (fuel more : ℕ) (l : Level) (p : Progress)
    → load l.nodes < fuel
    → fuel ≤ more
    → Stable fuel more l p
walk_level-Stable zero more l p h k = absurd (omega arith)
walk_level-Stable (suc fuel) zero l p h k = absurd (omega arith)
walk_level-Stable (suc fuel) (suc more) l p h k = elim (List-cases l.nodes) [
  | inl e ↦ Ended-Stable (suc fuel) (suc more) l p (inr (inr e))
  | inr (n, ns, e) ↦ elim (Bool-cases (p.overflow || p.remaining == 0)) [
    | inl z ↦ Ended-Stable (suc fuel) (suc more) l p (ground arith)
    | inr z ↦
        let at : load l.nodes ≡ load (n ∷ ns) = ap load e in
        rw (goes fuel l p n ns e z) (
          rw (goes more l p n ns e z) (elim (take_less n ns l p) [
            | inl done ↦ Ended-Stable fuel more _ _ done
            | inr fewer ↦ walk_level-Stable fuel more _ _ (omega arith) (omega arith)
          ]))
  ]
]

-- On any level, in any state, the loop over its makers ends by its own test with the fuel that it
-- is given: the buffer has overflowed, the taker is filled, or the level is used up. More fuel gives
-- the same result.
pub walk_level_ends :
    (k : ℕ) (l : Level) (p : Progress)
    → Ended (walk_level (level_fuel l) l p)
      × (walk_level (level_fuel l + k) l p ≡ walk_level (level_fuel l) l p)
walk_level_ends k l p =
    walk_level-Stable (level_fuel l) (level_fuel l + k) l p (omega (arith, load-le l.nodes))
      (omega arith)
