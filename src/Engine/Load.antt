-- ===== src/Engine/Load.antt =====
-- Adding makers to the book keeps its sides sound.
use uvipystock.Prelude.{
  ℕ, ◌+◌, ◌==◌, ◌<◌, ◌≡◌, inl, inr, refl, arith, Bool, List, [], ◌∷◌, length-append, sum_by-append,
  All, All-append, Bool-cases,
}
use uvipystock.Engine.Book.{Node, Level, append_order, empty_level, before, add_to_side}
use uvipystock.Engine.Round.{rounds, IsWellFormed}
use uvipystock.Engine.Walk.{side_load}

append_order-IsWellFormed :
    (n : Node) (l : Level) → 0 < n.remaining_qty → IsWellFormed l → IsWellFormed (append_order n l)
append_order-IsWellFormed n l q wf = record {
  count = omega (arith, wf.count, length-append l.nodes (n ∷ []));
  live = All-append (λ (m : Node). 0 < m.remaining_qty) l.nodes (n ∷ []) wf.live (q, tt);
}

empty_level-IsWellFormed : (price : ℕ) → IsWellFormed (empty_level price)
empty_level-IsWellFormed price = record { count = refl; live = tt }

-- A side with one more node is sound, and has that node's rounds more.
pub add_to_side-IsWellFormed :
    (d : Bool) (price : ℕ) (n : Node) (ls : List Level)
    → 0 < n.remaining_qty
    → All IsWellFormed ls
    → All IsWellFormed (add_to_side d price n ls)
      × (side_load (add_to_side d price n ls) ≡ side_load ls + rounds n)
unfolding add_to_side
add_to_side-IsWellFormed d price n [] q wf = (
  (append_order-IsWellFormed n (empty_level price) q (empty_level-IsWellFormed price), tt),
  omega arith,
)
add_to_side-IsWellFormed d price n (l ∷ ls) q wf =
    let new = append_order-IsWellFormed n (empty_level price) q (empty_level-IsWellFormed price) in
    elim (Bool-cases (l.price == price)) [
      | inl e ↦ rw e (
        (append_order-IsWellFormed n l q wf.0, wf.1),
        omega (arith, sum_by-append rounds l.nodes (n ∷ [])),
      )
      | inr e ↦ elim (Bool-cases (before d price l.price)) [
        | inl f ↦ rw e (rw f ((new, (wf.0, wf.1)), omega arith))
        | inr f ↦
            let rest = add_to_side-IsWellFormed d price n ls q wf.1 in
            rw e (rw f ((wf.0, rest.0), omega (arith, rest.1)))
      ]
    ]
