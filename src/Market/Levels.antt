-- ===== src/Market/Levels.antt =====
-- backend/app/redis_client/orderbook.py: what the levels of a snapshot are to be.
use uvipystock.Prelude.{
  ℕ, ◌+◌, ◌==◌, ◌≡◌, refl, sym, ap, ◌∙◌, arith, Bool, true, false, Bool-cases, inl, inr,
  if◌then◌else◌, List, [], ◌∷◌, All, Option, none, some,
}
use uvipystock.Redis.Score.{decode_score}
use uvipystock.Worker.Book.{Member, Fields}
use uvipystock.Market.Depth.{
  Level, add_level, shown, add_member, add_members, comes_first, insert_level, sort_levels,
  aggregate_side,
}

-- The volume of the level at a price.
unfoldable pub level_at : ℕ → List Level → Option ℕ
level_at p [] = none
level_at p (l ∷ ls) = if l.price == p then some l.volume else level_at p ls

abbrev plus : Option ℕ → Option ℕ → Option ℕ
plus none b = b
plus (some a) none = some a
plus (some a) (some b) = some (a + b)

abbrev shown_by : ℕ → Member → Option Fields → Option ℕ
shown_by p r none = none
shown_by p r (some h) = if (decode_score r.score).0 == p then some (shown h) else none

-- What the orders at a price show together, of those with a HASH; nothing if there is none.
unfoldable pub shown_at : (ℕ → Option Fields) → ℕ → List Member → Option ℕ
shown_at hashes p [] = none
shown_at hashes p (r ∷ rs) = plus (shown_by p r (hashes r.order_id)) (shown_at hashes p rs)

abbrev DistinctLevels : List Level → Type 0
DistinctLevels [] = Unit
DistinctLevels (l ∷ ls) = (level_at l.price ls ≡ none) × DistinctLevels ls

-- Each level comes strictly before those that follow.
abbrev pub Sorted : Bool → List Level → Type 0
Sorted d [] = Unit
Sorted d (l ∷ ls) = All (λ (m : Level). comes_first d l.price m.price ≡ true) ls × Sorted d ls

plus_assoc : (a b c : Option ℕ) → plus (plus a b) c ≡ plus a (plus b c)
plus_assoc none b c = refl
plus_assoc (some a) none c = refl
plus_assoc (some a) (some b) none = refl
plus_assoc (some a) (some b) (some c) = ap some (omega arith)

plus-none : (a : Option ℕ) → plus a none ≡ a
plus-none none = refl
plus-none (some a) = refl

add_level_at :
    (p a q : ℕ) (ls : List Level)
    → level_at p (add_level a q ls) ≡ plus (level_at p ls) (if a == p then some q else none)
unfolding level_at add_level
add_level_at p a q [] = ground arith
add_level_at p a q (l ∷ ls) = ground (arith, add_level_at p a q ls, plus-none (level_at p ls))

add_level-Distinct :
    (a q : ℕ) (ls : List Level) → DistinctLevels ls → DistinctLevels (add_level a q ls)
unfolding level_at add_level
add_level-Distinct a q [] h = (refl, tt)
add_level-Distinct a q (l ∷ ls) h = elim (Bool-cases (l.price == a)) [
  | inl e ↦ rw e h
  | inr e ↦ rw e (
    ground (arith, e, add_level_at l.price a q ls, h.0, plus-none (level_at l.price ls)),
    add_level-Distinct a q ls h.1,
  )
]

module _ (hashes : ℕ → Option Fields) where
  add_member_at :
      (p : ℕ) (r : Member) (h : Option Fields) (ls : List Level)
      → level_at p (add_member r h ls) ≡ plus (level_at p ls) (shown_by p r h)
  add_member_at p r none ls = sym (plus-none (level_at p ls))
  add_member_at p r (some h) ls = add_level_at p (decode_score r.score).0 (shown h) ls

  add_member-Distinct :
      (r : Member) (h : Option Fields) (ls : List Level)
      → DistinctLevels ls
      → DistinctLevels (add_member r h ls)
  add_member-Distinct r none ls d = d
  add_member-Distinct r (some h) ls d = add_level-Distinct (decode_score r.score).0 (shown h) ls d

  add_members_at :
      (p : ℕ) (rs : List Member) (ls : List Level)
      → level_at p (add_members hashes rs ls) ≡ plus (level_at p ls) (shown_at hashes p rs)
  unfolding add_members shown_at
  add_members_at p [] ls = sym (plus-none (level_at p ls))
  add_members_at p (r ∷ rs) ls =
      let h = hashes r.order_id in
      add_members_at p rs (add_member r h ls)
      ∙ ap (λ a. plus a (shown_at hashes p rs)) (add_member_at p r h ls)
      ∙ plus_assoc (level_at p ls) (shown_by p r h) (shown_at hashes p rs)

  add_members-Distinct :
      (rs : List Member) (ls : List Level)
      → DistinctLevels ls
      → DistinctLevels (add_members hashes rs ls)
  unfolding add_members
  add_members-Distinct [] ls d = d
  add_members-Distinct (r ∷ rs) ls d =
      add_members-Distinct rs (add_member r (hashes r.order_id) ls)
        (add_member-Distinct r (hashes r.order_id) ls d)

comes_trans :
    (d : Bool) (a b c : ℕ)
    → comes_first d a b ≡ true
    → comes_first d b c ≡ true
    → comes_first d a c ≡ true
comes_trans true a b c h k = ground arith
comes_trans false a b c h k = ground arith

comes_next :
    (d : Bool) (a b : ℕ) → comes_first d a b ≡ false → (b == a) ≡ false → comes_first d b a ≡ true
comes_next true a b h k = ground arith
comes_next false a b h k = ground arith

module _ (d : Bool) where
  insert_level_at :
      (p : ℕ) (l : Level) (ls : List Level)
      → level_at l.price ls ≡ none
      → level_at p (insert_level d l ls) ≡ (if l.price == p then some l.volume else level_at p ls)
  unfolding level_at insert_level
  insert_level_at p l [] h = refl
  insert_level_at p l (m ∷ ms) h = elim (Bool-cases (comes_first d l.price m.price)) [
    | inl e ↦ rw e refl
    | inr e ↦ rw e (ground (arith, h, insert_level_at p l ms))
  ]

  sort_levels_at :
      (p : ℕ) (ls : List Level) → DistinctLevels ls → level_at p (sort_levels d ls) ≡ level_at p ls
  unfolding level_at sort_levels
  sort_levels_at p [] h = refl
  sort_levels_at p (l ∷ ls) h =
      insert_level_at p l (sort_levels d ls) (sort_levels_at l.price ls h.1 ∙ h.0)
      ∙ rw (sort_levels_at p ls h.1) refl

  insert-All :
      (a : ℕ) (l : Level) (ls : List Level)
      → comes_first d a l.price ≡ true
      → All (λ (m : Level). comes_first d a m.price ≡ true) ls
      → All (λ (m : Level). comes_first d a m.price ≡ true) (insert_level d l ls)
  unfolding insert_level
  insert-All a l [] h k = (h, tt)
  insert-All a l (m ∷ ms) h k = elim (Bool-cases (comes_first d l.price m.price)) [
    | inl e ↦ rw e (h, k)
    | inr e ↦ rw e (k.0, insert-All a l ms h k.1)
  ]

  after-All :
      (a b : ℕ) (ls : List Level)
      → comes_first d a b ≡ true
      → All (λ (m : Level). comes_first d b m.price ≡ true) ls
      → All (λ (m : Level). comes_first d a m.price ≡ true) ls
  after-All a b [] h k = tt
  after-All a b (m ∷ ms) h k = (comes_trans d a b m.price h k.0, after-All a b ms h k.1)

  insert_level-Sorted :
      (l : Level) (ls : List Level)
      → level_at l.price ls ≡ none
      → Sorted d ls
      → Sorted d (insert_level d l ls)
  unfolding level_at insert_level
  insert_level-Sorted l [] h s = (tt, tt)
  insert_level-Sorted l (m ∷ ms) h s = elim (Bool-cases (comes_first d l.price m.price)) [
    | inl e ↦ rw e ((e, after-All l.price m.price ms e s.0), s)
    | inr e ↦ rw e (
      insert-All m.price l ms (comes_next d l.price m.price e (ground (arith, h))) s.0,
      insert_level-Sorted l ms (ground (arith, h)) s.1,
    )
  ]

  sort_levels-Sorted : (ls : List Level) → DistinctLevels ls → Sorted d (sort_levels d ls)
  unfolding sort_levels
  sort_levels-Sorted [] h = tt
  sort_levels-Sorted (l ∷ ls) h =
      insert_level-Sorted l (sort_levels d ls) (sort_levels_at l.price ls h.1 ∙ h.0)
        (sort_levels-Sorted ls h.1)

-- One side of a snapshot has a level for exactly the prices at which an order with a HASH stands,
-- with what these orders show together, and the levels are strictly in the order of their prices,
-- lowest first for the asks and highest first for the bids.
pub aggregate_side_lem :
    (hashes : ℕ → Option Fields) (d : Bool) (raw : List Member)
    → Sorted d (aggregate_side hashes d raw)
      × ((p : ℕ) → level_at p (aggregate_side hashes d raw) ≡ shown_at hashes p raw)
unfolding aggregate_side level_at
aggregate_side_lem hashes d raw =
    let distinct = add_members-Distinct hashes raw [] tt in
    (
      sort_levels-Sorted d (add_members hashes raw []) distinct,
      λ p. sort_levels_at d p (add_members hashes raw []) distinct ∙ add_members_at hashes p raw [],
    )
