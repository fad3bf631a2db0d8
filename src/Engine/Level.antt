-- ===== src/Engine/Level.antt =====
-- The loop over the makers of one level: it ends by its own test, and where the sums are exact it
-- moves quantity only from the taker and the makers to the trades.
use uvipystock.Prelude.{
  ℕ, zero, suc, ◌+◌, ◌-◌, ◌==◌, ◌≤◌, ◌<◌, ◌≡◌, ◌⊎◌, inl, inr, refl, ap, List-cases, ==→eq, ◌∙◌,
  arith, false, List, [], ◌∷◌, length, Bool-cases,
}
use uvipystock.Engine.Double.{mantissa_end, round_double_small}
use uvipystock.Engine.Book.{Node, Level}
use uvipystock.Engine.Match.{Progress, fill_qty, level_after, take, trades_cap, walk_level}
use uvipystock.Engine.Round.{
  node_volume, filled, rounds, load, IsWellFormed, fill_qty-le, next_progress, take_room,
  next_progress-filled, next_progress-length, level_after-volume, level_after-IsWellFormed, IsExact,
  level_after-IsExact, load-level_after,
}

-- Where the sums are exact, quantity has moved from the taker and the makers to the trades only.
pub record Moved (l : Level) (p : Progress) (l' : Level) (p' : Progress) : Type 0 where
  pub taker_side : filled p' + p'.remaining ≡ filled p + p.remaining
  pub maker_side : node_volume l'.nodes + filled p' ≡ node_volume l.nodes + filled p
  pub grown : filled p ≤ filled p'
  pub exact : IsExact l'

-- What is known after a level, from what was known before it.
pub record Walked (l : Level) (p : Progress) (l' : Level) (p' : Progress) : Type 0 where
  pub ended : (p'.remaining ≡ 0) ⊎ (l'.nodes ≡ [])
  pub no_overflow : p'.overflow ≡ false
  pub moved : IsExact l → p.remaining < mantissa_end → Moved l p l' p'
  pub sound : IsWellFormed l'
  pub same_price : l'.price ≡ l.price
  pub room : (p'.remaining ≡ 0) ⊎ (length p'.fills + load l'.nodes ≤ length p.fills + load l.nodes)

stay-Walked :
    (l : Level) (p : Progress)
    → IsWellFormed l
    → p.overflow ≡ false
    → (p.remaining ≡ 0) ⊎ (l.nodes ≡ [])
    → Walked l p l p
stay-Walked l p wf o done = record {
  ended = done;
  no_overflow = o;
  moved = λ x h. record { taker_side = refl; maker_side = refl; grown = omega arith; exact = x };
  sound = wf;
  same_price = refl;
  room = inr (omega arith);
}

pub rounds_pos : (n : Node) → 0 < rounds n
rounds_pos n = ground arith

pub level_after-price :
    (r : ℕ) (n : Node) (ns : List Node) (l : Level) → (level_after r n ns l).price ≡ l.price
level_after-price r n ns l = ground arith

pub walk_level_done :
    (fuel : ℕ) (l : Level) (p : Progress)
    → (l.nodes ≡ []) ⊎ (p.remaining ≡ 0)
    → walk_level fuel l p ≡ (l, p)
unfolding walk_level
walk_level_done zero l p h = refl
walk_level_done (suc fuel) l p h = ground arith

pub walk_level_step :
    (fuel : ℕ) (l : Level) (p : Progress) (n : Node) (ns : List Node)
    → l.nodes ≡ n ∷ ns
    → p.overflow ≡ false
    → (p.remaining == 0) ≡ false
    → walk_level (suc fuel) l p ≡ walk_level fuel (take n ns l p).0 (take n ns l p).1
unfolding walk_level
walk_level_step fuel l p n ns e o z = ground arith

module _ (l : Level) (p : Progress) (n : Node) (ns : List Node) (e : l.nodes ≡ n ∷ ns) where
  next_exact :
      p.remaining < mantissa_end
      → (next_progress l p n).remaining ≡ p.remaining - fill_qty p.remaining n
  next_exact h = round_double_small _ (omega arith)

  next_small : p.remaining < mantissa_end → (next_progress l p n).remaining < mantissa_end
  next_small h = omega (arith, next_exact h)

  round-Moved :
      (l' : Level) (p' : Progress)
      → IsExact l
      → p.remaining < mantissa_end
      → Moved (level_after p.remaining n ns l) (next_progress l p n) l' p'
      → Moved l p l' p'
  round-Moved l' p' x h m =
      let at : node_volume l.nodes ≡ node_volume (n ∷ ns) = ap node_volume e in
      let kept = level_after-volume p.remaining n ns l (omega (arith, at, x.small)) in
      let here = next_progress-filled l p n in
      record {
        taker_side = omega (arith, m.taker_side, here, next_exact h, (fill_qty-le p.remaining n).0);
        maker_side = omega (arith, m.maker_side, here, kept, at);
        grown = omega (arith, m.grown, here);
        exact = m.exact;
      }

  -- One round, and then what is known after the rest.
  round-Walked :
      (l' : Level) (p' : Progress)
      → (p'.remaining ≡ 0) ⊎ (load (level_after p.remaining n ns l).nodes < load (n ∷ ns))
      → Walked (level_after p.remaining n ns l) (next_progress l p n) l' p'
      → Walked l p l' p'
  round-Walked l' p' d w = record {
    ended = w.ended;
    no_overflow = w.no_overflow;
    moved = λ x h.
        round-Moved l' p' x h (w.moved (level_after-IsExact p.remaining n ns l e x) (next_small h));
    sound = w.sound;
    same_price = w.same_price ∙ level_after-price p.remaining n ns l;
    room = rw e (ground (arith, next_progress-length l p n));
  }

pub walk_level-Walked :
    (fuel : ℕ) (l : Level) (p : Progress)
    → IsWellFormed l
    → p.overflow ≡ false
    → load l.nodes < fuel
    → length p.fills + load l.nodes ≤ trades_cap
    → Walked l p (walk_level fuel l p).0 (walk_level fuel l p).1
walk_level-Walked zero l p wf o f r = absurd (omega arith)
walk_level-Walked (suc fuel) l p wf o f r = elim (List-cases l.nodes) [
  | inl e ↦ rw (walk_level_done (suc fuel) l p (inl e)) (stay-Walked l p wf o (inr e))
  | inr (n, ns, e) ↦ elim (Bool-cases (p.remaining == 0)) [
    | inl z ↦
        let done : p.remaining ≡ 0 = ==→eq _ _ z in
        rw (walk_level_done (suc fuel) l p (inr done)) (stay-Walked l p wf o (inl done))
    | inr z ↦
        let at : load l.nodes ≡ load (n ∷ ns) = ap load e in
        let wf' : IsWellFormed (level_after p.remaining n ns l) =
          level_after-IsWellFormed p.remaining n ns l e wf in
        rw (walk_level_step fuel l p n ns e o z) (
          rw (take_room n ns l p (omega (arith, rounds_pos n)))
            (elim (load-level_after p.remaining n ns l) [
              | inl filled_up ↦
                  rw
                    (walk_level_done fuel (level_after p.remaining n ns l) (next_progress l p n)
                      (inr filled_up))
                    (round-Walked l p n ns e _ _ (inl filled_up)
                      (stay-Walked _ (next_progress l p n) wf' o (inl filled_up)))
              | inr fewer ↦ round-Walked l p n ns e _ _ (inr fewer) (
                  walk_level-Walked fuel (level_after p.remaining n ns l) (next_progress l p n) wf'
                    o (omega arith) (omega (arith, next_progress-length l p n)))
            ]))
  ]
]
