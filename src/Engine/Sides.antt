-- ===== src/Engine/Sides.antt =====
-- The loop over the levels of a side: what is known when it stops.
use uvipystock.Prelude.{
  ℕ, ◌+◌, ◌==◌, ◌≤◌, ◌<◌, ◌≡◌, ◌⊎◌, inl, inr, refl, ap, arith, true, false, List, [], ◌∷◌, Option,
  length, All, Bool-cases, ==→eq,
}
use uvipystock.Enums.{OrderSide}
use uvipystock.Engine.Double.{mantissa_end}
use uvipystock.Engine.Book.{Level, compact}
use uvipystock.Engine.Match.{Progress, trades_cap, walk_level, level_fuel, walk_levels, acceptable}
use uvipystock.Engine.Round.{node_volume, filled, load, IsWellFormed, IsExact}
use uvipystock.Engine.Level.{Moved, Walked, walk_level-Walked}
use uvipystock.Engine.Walk.{
  side_volume, side_load, OutOfReach, reach, load-le, compact-volume, compact-IsWellFormed,
  compact-IsExact, compact_empty, walk_levels_done, walk_levels_far, walk_levels_step,
}

-- Where the sums are exact: what has moved, and that an unfilled taker has had all in its reach.
pub record MovedSide (side : OrderSide) (price : Option ℕ) (ls : List Level) (p : Progress)
    (ls' : List Level) (p' : Progress) : Type 0 where
  pub taker_side : filled p' + p'.remaining ≡ filled p + p.remaining
  pub maker_side : side_volume ls' + filled p' ≡ side_volume ls + filled p
  pub exact : All IsExact ls'
  pub drained : (p'.remaining ≡ 0) ⊎ (filled p' ≡ filled p + reach side price ls)

pub record WalkedSide (side : OrderSide) (price : Option ℕ) (ls : List Level) (p : Progress)
    (ls' : List Level) (p' : Progress) : Type 0 where
  pub ended : (p'.remaining ≡ 0) ⊎ OutOfReach side price ls'
  pub no_overflow : p'.overflow ≡ false
  pub moved : All IsExact ls → p.remaining < mantissa_end → MovedSide side price ls p ls' p'
  pub sound : All IsWellFormed ls'

-- A level that leaves the taker unfilled is used up, and has made room for the trades of the rest.
module _ (l l' : Level) (ls : List Level) (p p₁ : Progress) (w : Walked l p l' p₁)
    (z : (p₁.remaining == 0) ≡ false) where
  pub used_up : l'.nodes ≡ []
  used_up = elim w.ended [ inl e ↦ absurd (ground arith) | inr e ↦ e ]

  pub room_left :
      length p.fills + side_load (l ∷ ls) ≤ trades_cap → length p₁.fills + side_load ls ≤ trades_cap
  room_left r = elim w.room [
    | inl e ↦ absurd (ground arith)
    | inr fits ↦ omega (arith, ap load used_up)
  ]

module _ (side : OrderSide) (price : Option ℕ) where
  drained_now :
      (ls : List Level) (p : Progress)
      → (p.remaining ≡ 0) ⊎ OutOfReach side price ls
      → (p.remaining ≡ 0) ⊎ (filled p ≡ filled p + reach side price ls)
  drained_now ls p (inl done) = inl done
  drained_now [] p (inr far) = inr (omega arith)
  drained_now (l ∷ ls) p (inr far) = inr (rw far (omega arith))

  stay-WalkedSide :
      (ls : List Level) (p : Progress)
      → All IsWellFormed ls
      → p.overflow ≡ false
      → (p.remaining ≡ 0) ⊎ OutOfReach side price ls
      → WalkedSide side price ls p ls p
  stay-WalkedSide ls p wf o done = record {
    ended = done;
    no_overflow = o;
    moved = λ x h. record {
      taker_side = refl;
      maker_side = refl;
      exact = x;
      drained = drained_now ls p done;
    };
    sound = wf;
  }

  drain_after :
      (l l' : Level) (ls : List Level) (p p₁ p' : Progress)
      → Moved l p l' p₁
      → acceptable side price l.price ≡ true
      → l'.nodes ≡ []
      → (p'.remaining ≡ 0) ⊎ (filled p' ≡ filled p₁ + reach side price ls)
      → (p'.remaining ≡ 0) ⊎ (filled p' ≡ filled p + reach side price (l ∷ ls))
  drain_after l l' ls p p₁ p' w ok e (inl done) = inl done
  drain_after l l' ls p p₁ p' w ok e (inr d) =
      inr (rw ok (omega (arith, w.maker_side, ap node_volume e)))

  drain :
      (l l' : Level) (ls : List Level) (p p₁ p' : Progress)
      → Moved l p l' p₁
      → acceptable side price l.price ≡ true
      → (p'.remaining ≡ 0) ⊎ (l'.nodes ≡ [])
      → (p'.remaining ≡ 0) ⊎ (filled p' ≡ filled p₁ + reach side price ls)
      → (p'.remaining ≡ 0) ⊎ (filled p' ≡ filled p + reach side price (l ∷ ls))
  drain l l' ls p p₁ p' w ok (inl done) d = inl done
  drain l l' ls p p₁ p' w ok (inr e) d = drain_after l l' ls p p₁ p' w ok e d

  level-MovedSide :
      (l l' : Level) (ls rest : List Level) (p p₁ p' : Progress)
      → IsWellFormed l'
      → Moved l p l' p₁
      → MovedSide side price ls p₁ rest p'
      → acceptable side price l.price ≡ true
      → (p'.remaining ≡ 0) ⊎ (l'.nodes ≡ [])
      → MovedSide side price (l ∷ ls) p (compact l' rest) p'
  level-MovedSide l l' ls rest p p₁ p' wf w v ok empty = record {
    taker_side = omega (arith, w.taker_side, v.taker_side);
    maker_side = omega (arith, w.maker_side, v.maker_side, compact-volume l' rest wf);
    exact = compact-IsExact l' rest w.exact v.exact;
    drained = drain l l' ls p p₁ p' w ok empty v.drained;
  }

  level-WalkedSide :
      (l l' : Level) (ls rest : List Level) (p p₁ p' : Progress)
      → Walked l p l' p₁
      → WalkedSide side price ls p₁ rest p'
      → (p'.remaining ≡ 0) ⊎ OutOfReach side price (compact l' rest)
      → acceptable side price l.price ≡ true
      → (p'.remaining ≡ 0) ⊎ (l'.nodes ≡ [])
      → WalkedSide side price (l ∷ ls) p (compact l' rest) p'
  level-WalkedSide l l' ls rest p p₁ p' w v done ok empty = record {
    ended = done;
    no_overflow = v.no_overflow;
    moved = λ x h.
        let m = w.moved x.0 h in
        level-MovedSide l l' ls rest p p₁ p' w.sound m
          (v.moved x.1 (omega (arith, m.taker_side, m.grown))) ok empty;
    sound = compact-IsWellFormed l' rest w.sound v.sound;
  }

  reach_after :
      (l' : Level) (rest : List Level) (p' : Progress)
      → IsWellFormed l'
      → l'.nodes ≡ []
      → (p'.remaining ≡ 0) ⊎ OutOfReach side price rest
      → (p'.remaining ≡ 0) ⊎ OutOfReach side price (compact l' rest)
  reach_after l' rest p' wf e (inl done) = inl done
  reach_after l' rest p' wf e (inr far) = inr (rw (compact_empty l' rest wf e) far)

  pub walk_levels-WalkedSide :
      (ls : List Level) (p : Progress)
      → All IsWellFormed ls
      → p.overflow ≡ false
      → length p.fills + side_load ls ≤ trades_cap
      → WalkedSide side price ls p (walk_levels side price ls p).0 (walk_levels side price ls p).1
  unfolding walk_levels
  walk_levels-WalkedSide [] p wf o r = stay-WalkedSide [] p tt o (inr tt)
  walk_levels-WalkedSide (l ∷ ls) p wf o r = elim (Bool-cases (acceptable side price l.price)) [
    | inr far ↦
        rw (walk_levels_far side price l ls p far) (stay-WalkedSide (l ∷ ls) p wf o (inr far))
    | inl ok ↦ elim (Bool-cases (p.remaining == 0)) [
      | inl z ↦
          let done : p.remaining ≡ 0 = ==→eq _ _ z in
          rw (walk_levels_done side price (l ∷ ls) p done)
            (stay-WalkedSide (l ∷ ls) p wf o (inl done))
      | inr z ↦
          let l' : Level = (walk_level (level_fuel l) l p).0 in
          let p₁ : Progress = (walk_level (level_fuel l) l p).1 in
          let w : Walked l p l' p₁ =
            walk_level-Walked (level_fuel l) l p wf.0 o (omega (arith, load-le l.nodes))
              (omega arith) in
          rw (walk_levels_step side price l ls p ok z w.no_overflow)
            (elim (Bool-cases (p₁.remaining == 0)) [
              | inl z' ↦
                  let done : p₁.remaining ≡ 0 = ==→eq _ _ z' in
                  rw (walk_levels_done side price ls p₁ done) (
                    level-WalkedSide l l' ls ls p p₁ p₁ w
                      (stay-WalkedSide ls p₁ wf.1 w.no_overflow (inl done)) (inl done) ok
                      (inl done))
              | inr z' ↦
                  let rest : List Level = (walk_levels side price ls p₁).0 in
                  let p' : Progress = (walk_levels side price ls p₁).1 in
                  let v : WalkedSide side price ls p₁ rest p' =
                    walk_levels-WalkedSide ls p₁ wf.1 w.no_overflow
                      (room_left l l' ls p p₁ w z' r) in
                  let empty : l'.nodes ≡ [] = used_up l l' ls p p₁ w z' in
                  level-WalkedSide l l' ls rest p p₁ p' w v
                    (reach_after l' rest p' w.sound empty v.ended) ok (inr empty)
            ])
    ]
  ]
