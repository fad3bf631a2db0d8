-- ===== src/Engine/Priority.antt =====
-- What matching means: the offers of the side in priority order, best price first and oldest first
-- at a price, each taken as far as it goes.
use uvipystock.Prelude.{
  ℕ, zero, suc, ◌+◌, ◌==◌, leb, min, ◌≤◌, ◌<◌, ◌≡◌, ◌⊎◌, inl, inr, refl, ap, sym, subst, ◌∙◌, arith,
  true, false, ◌||◌, not, if◌then◌else◌, List, [], ◌∷◌, ◌++◌, Option, length, All, Bool-cases,
  List-cases, ==→eq, append_assoc, map,
}
use native.Mathlib.Decide.{dec_le}
use uvipystock.Enums.{OrderSide}
use uvipystock.Engine.Double.{fsub, round_double, round_double_zero}
use uvipystock.Engine.Book.{Node, Level}
use uvipystock.Engine.Match.{
  Progress, Fill, visible_avail, fill_qty, fill_of, maker_after, level_after, trades_cap,
  walk_level, acceptable,
}
use uvipystock.Engine.Round.{load, next_progress, take_room, next_progress-length, load-level_after}
use uvipystock.Engine.Level.{walk_level_done, walk_level_step, rounds_pos, level_after-price}

-- A resting order as a taker sees it.
pub record Offer : Type 0 where
  pub order_id : ℕ
  pub price : ℕ
  pub quantity : ℕ

abbrev pub offer_of : ℕ → Node → Offer
offer_of price n = record { order_id = n.order_id; price = price; quantity = n.remaining_qty }

abbrev pub offers_of : Level → List Offer
offers_of l = map (offer_of l.price) l.nodes

abbrev pub offers : List Level → List Offer
offers [] = []
offers (l ∷ ls) = offers_of l ++ offers ls

-- The specification: offer by offer, up to the first that is out of reach. What is left after an
-- offer is the difference as a double.
unfoldable pub greedy : OrderSide → Option ℕ → ℕ → List Offer → List Fill
greedy side price q [] = []
greedy side price q (o ∷ os) =
    let rest = greedy side price (fsub q o.quantity) os in
    if q == 0 || not (acceptable side price o.price)
    then []
    else record { maker_order_id = o.order_id; price = o.price; quantity = min q o.quantity } ∷ rest

pub greedy_done :
    (side : OrderSide) (price : Option ℕ) (os : List Offer) → greedy side price 0 os ≡ []
unfolding greedy
greedy_done side price [] = refl
greedy_done side price (o ∷ os) = refl

pub greedy_zero :
    (side : OrderSide) (price : Option ℕ) (q : ℕ) (os : List Offer)
    → q ≡ 0
    → greedy side price q os ≡ []
greedy_zero side price q os e = ap (λ (k : ℕ). greedy side price k os) e ∙ greedy_done side price os

pub greedy_far :
    (side : OrderSide) (price : Option ℕ) (q : ℕ) (o : Offer) (os : List Offer)
    → acceptable side price o.price ≡ false
    → greedy side price q (o ∷ os) ≡ []
unfolding greedy
greedy_far side price q o os h = ground (arith, h)

pub greedy_step :
    (side : OrderSide) (price : Option ℕ) (q : ℕ) (o : Offer) (os : List Offer)
    → acceptable side price o.price ≡ true
    → (q == 0) ≡ false
    → greedy side price q (o ∷ os)
      ≡ record { maker_order_id = o.order_id; price = o.price; quantity = min q o.quantity }
        ∷ greedy side price (fsub q o.quantity) os
unfolding greedy
greedy_step side price q o os h z = rw (h, z) refl

-- All of the maker is on offer at once, as in a book that the worker loads.
abbrev pub IsPlain : Node → Type 0
IsPlain n = (n.is_iceberg ≡ false) ⊎ (n.visible_qty ≡ n.remaining_qty)

fill-plain : (r : ℕ) (n : Node) → IsPlain n → fill_qty r n ≡ min r n.remaining_qty
fill-plain r n (inl h) = ground (arith, h)
fill-plain r n (inr h) = ground (arith, h)

maker_after-IsPlain : (r : ℕ) (n : Node) → IsPlain n → IsPlain (maker_after r n)
maker_after-IsPlain r n (inl h) = inl h
maker_after-IsPlain r n (inr h) = elim (Bool-cases n.is_iceberg) [
  | inr e ↦ inl e
  | inl e ↦ elim (Bool-cases (leb (visible_avail n) r)) [
    | inl f ↦ inr (ground (arith, e, f, h))
    | inr f ↦ inr (ground (arith, e, f, h))
  ]
]

-- What is left of a taker after a plain maker.
fsub-fill : (r : ℕ) (n : Node) → IsPlain n → fsub r (fill_qty r n) ≡ fsub r n.remaining_qty
fsub-fill r n plain = ap round_double (omega (arith, fill-plain r n plain))

fills_up :
    (r : ℕ) (n : Node)
    → IsPlain n
    → ((maker_after r n).remaining_qty == 0) ≡ false
    → fsub r n.remaining_qty ≡ 0
fills_up r n plain e = elim (dec_le n.remaining_qty r) [
  | yes h ↦
      let none_left : (maker_after r n).remaining_qty ≡ 0 =
        ap round_double (omega (arith, fill-plain r n plain)) ∙ round_double_zero in
      absurd (ground (arith, none_left, e))
  | no h ↦ ap round_double (omega arith) ∙ round_double_zero
]

level_after-IsPlain :
    (r : ℕ) (n : Node) (ns : List Node) (l : Level)
    → IsPlain n
    → All IsPlain ns
    → All IsPlain (level_after r n ns l).nodes
level_after-IsPlain r n ns l plain all = elim (Bool-cases ((maker_after r n).remaining_qty == 0)) [
  | inl e ↦ rw (e, level_after) all
  | inr e ↦ rw (e, level_after) (maker_after-IsPlain r n plain, all)
]

module _ (side : OrderSide) (price : Option ℕ) (tail : List Offer) where
  -- What has been traded, and what the specification trades from here.
  abbrev pub value : ℕ → List Node → Progress → List Fill
  value at ns p = p.fills ++ greedy side price p.remaining (map (offer_of at) ns ++ tail)

  fill_greedy :
      (l : Level) (r : ℕ) (n : Node) (os : List Offer)
      → IsPlain n
      → acceptable side price l.price ≡ true
      → (r == 0) ≡ false
      → greedy side price r (offer_of l.price n ∷ os)
        ≡ fill_of r l n ∷ greedy side price (fsub r n.remaining_qty) os
  fill_greedy l r n os plain ok z =
      greedy_step side price r (offer_of l.price n) os ok z
      ∙ ap
          (λ (k : ℕ).
            record { maker_order_id = n.order_id; price = l.price; quantity = k }
            ∷ greedy side price (fsub r n.remaining_qty) os)
          (sym (fill-plain r n plain))

  -- What is left to trade after a round.
  round_rest :
      (l : Level) (r : ℕ) (n : Node) (ns : List Node)
      → IsPlain n
      → greedy side price
          (fsub r (fill_qty r n))
          (map (offer_of l.price) (level_after r n ns l).nodes ++ tail)
        ≡ greedy side price (fsub r n.remaining_qty) (map (offer_of l.price) ns ++ tail)
  round_rest l r n ns plain = elim (Bool-cases ((maker_after r n).remaining_qty == 0)) [
    | inl e ↦
        rw (e, level_after)
          (ap (λ (k : ℕ). greedy side price k (map (offer_of l.price) ns ++ tail))
            (fsub-fill r n plain))
    | inr e ↦
        greedy_zero side price _ _ (fsub-fill r n plain ∙ fills_up r n plain e)
        ∙ sym (greedy_zero side price _ _ (fills_up r n plain e))
  ]

  round_value :
      (l : Level) (p : Progress) (n : Node) (ns : List Node)
      → IsPlain n
      → (p.remaining == 0) ≡ false
      → acceptable side price l.price ≡ true
      → value l.price (level_after p.remaining n ns l).nodes (next_progress l p n)
        ≡ value l.price (n ∷ ns) p
  round_value l p n ns plain z ok =
      append_assoc p.fills (fill_of p.remaining l n ∷ []) _
      ∙ ap (λ rest. p.fills ++ fill_of p.remaining l n ∷ rest) (round_rest l p.remaining n ns plain)
      ∙ ap (λ fs. p.fills ++ fs)
          (sym (fill_greedy l p.remaining n (map (offer_of l.price) ns ++ tail) plain ok z))

  pub value-walk_level :
      (fuel : ℕ) (l : Level) (p : Progress)
      → p.overflow ≡ false
      → load l.nodes < fuel
      → length p.fills + load l.nodes ≤ trades_cap
      → All IsPlain l.nodes
      → acceptable side price l.price ≡ true
      → value l.price (walk_level fuel l p).0.nodes (walk_level fuel l p).1
        ≡ value l.price l.nodes p
  value-walk_level zero l p o f r plain ok = absurd (omega arith)
  value-walk_level (suc fuel) l p o f r plain ok = elim (List-cases l.nodes) [
    | inl e ↦ rw (walk_level_done (suc fuel) l p (inl e)) refl
    | inr (n, ns, e) ↦ elim (Bool-cases (p.remaining == 0)) [
      | inl z ↦ rw (walk_level_done (suc fuel) l p (inr (==→eq _ _ z))) refl
      | inr z ↦
          let at : load l.nodes ≡ load (n ∷ ns) = ap load e in
          let here : All IsPlain (n ∷ ns) = subst (All IsPlain) e plain in
          let l₁ : Level = level_after p.remaining n ns l in
          let p₁ : Progress = next_progress l p n in
          rw (walk_level_step fuel l p n ns e o z) (
            rw (take_room n ns l p (omega (arith, rounds_pos n))) (
              elim (load-level_after p.remaining n ns l) [
                | inl filled_up ↦ rw (walk_level_done fuel l₁ p₁ (inr filled_up)) refl
                | inr fewer ↦
                    subst
                      (λ (k : ℕ).
                        value k (walk_level fuel l₁ p₁).0.nodes (walk_level fuel l₁ p₁).1
                        ≡ value k l₁.nodes p₁)
                      (level_after-price p.remaining n ns l)
                      (value-walk_level fuel l₁ p₁ o (omega arith)
                        (omega (arith, next_progress-length l p n))
                        (level_after-IsPlain p.remaining n ns l here.0 here.1)
                        (rw (level_after-price p.remaining n ns l) ok))
              ]
              ∙ round_value l p n ns here.0 z ok
              ∙ ap (λ ms. value l.price ms p) (sym e)))
    ]
  ]
