-- ===== src/Engine/Append.antt =====
-- backend/app/matching/engine.pyx: makers that are added in priority order stand at the end of
-- their side.
use uvipystock.Prelude.{
  ℕ, ◌==◌, ◌≤◌, ◌<◌, ◌≡◌, refl, ap, sym, subst, ◌∙◌, arith, Bool, true, false, List, [], ◌∷◌, ◌++◌,
  All, All-append, append_assoc, append-nil, map, inl, inr, Bool-cases, ==→eq, length-append,
}
use uvipystock.Engine.Book.{Node, Level, append_order, empty_level, before, add_to_side}
use uvipystock.Engine.Priority.{Offer, offer_of, offers_of, offers, IsPlain}
use uvipystock.Engine.Greedy.{IsOpen}

-- A price that is better for the taker, or no worse, on a side that descends or not.
abbrev pub Better : Bool → ℕ → ℕ → Type 0
Better true p q = q < p
Better false p q = p < q

abbrev pub NoWorse : Bool → ℕ → ℕ → Type 0
NoWorse true p q = q ≤ p
NoWorse false p q = p ≤ q

-- Every level is better than the price, but for the last, which may have it.
abbrev pub Ends : Bool → ℕ → List Level → Type 0
Ends d price [] = Unit
Ends d price (l ∷ []) = NoWorse d l.price price
Ends d price (l ∷ k ∷ ls) = Better d l.price price × Ends d price (k ∷ ls)

Better-differs : (d : Bool) (p q : ℕ) → Better d p q → (p == q) ≡ false
Better-differs true p q h = ground arith
Better-differs false p q h = ground arith

Better-first : (d : Bool) (p q : ℕ) → Better d p q → before d q p ≡ false
Better-first true p q h = ground arith
Better-first false p q h = ground arith

NoWorse-first : (d : Bool) (p q : ℕ) → NoWorse d p q → before d q p ≡ false
NoWorse-first true p q h = ground arith
NoWorse-first false p q h = ground arith

strictly : (d : Bool) (p q : ℕ) → NoWorse d p q → (p == q) ≡ false → Better d p q
strictly true p q h e = ground arith
strictly false p q h e = ground arith

transitive : (d : Bool) (p q r : ℕ) → Better d p q → NoWorse d q r → Better d p r
transitive true p q r h k = omega arith
transitive false p q r h k = omega arith

Ends-more :
    (d : Bool) (q : ℕ) (l : Level) (ls : List Level)
    → Better d l.price q
    → Ends d q ls
    → Ends d q (l ∷ ls)
Ends-more true q l [] h e = omega arith
Ends-more false q l [] h e = omega arith
Ends-more d q l (k ∷ ls) h e = (h, e)

map-append : (f : Node → Offer) (xs ys : List Node) → map f (xs ++ ys) ≡ map f xs ++ map f ys
map-append f [] ys = refl
map-append f (x ∷ xs) ys = ap (λ os. f x ∷ os) (map-append f xs ys)

append_order-IsOpen :
    (n : Node) (l : Level) → IsPlain n → All IsPlain l.nodes → IsOpen (append_order n l)
append_order-IsOpen n l plain all = record {
  stocked = omega (arith, length-append l.nodes (n ∷ []));
  plain = All-append IsPlain l.nodes (n ∷ []) all (plain, tt);
}

-- The side after the maker: its offers with the maker's last, its levels open, and its last level at
-- the maker's price.
pub record Appended (d : Bool) (price : ℕ) (n : Node) (ls ls' : List Level) : Type 0 where
  pub in_order : offers ls' ≡ offers ls ++ offer_of price n ∷ []
  pub open_levels : All IsOpen ls'
  pub next : (q : ℕ) → NoWorse d price q → Ends d q ls'

module _ (d : Bool) (price : ℕ) (n : Node) (plain : IsPlain n) where
  Appended-new : Appended d price n [] (append_order n (empty_level price) ∷ [])
  Appended-new = record {
    in_order = refl;
    open_levels = (append_order-IsOpen n (empty_level price) plain tt, tt);
    next = λ q h. h;
  }

  Appended-same :
      (l : Level) → IsOpen l → l.price ≡ price → Appended d price n (l ∷ []) (append_order n l ∷ [])
  Appended-same l w e = record {
    in_order =
        append-nil (map (offer_of l.price) (l.nodes ++ n ∷ []))
        ∙ map-append (offer_of l.price) l.nodes (n ∷ [])
        ∙ ap (λ (k : ℕ). offers_of l ++ offer_of k n ∷ []) e
        ∙ ap (λ os. os ++ offer_of price n ∷ []) (sym (append-nil (offers_of l)));
    open_levels = (append_order-IsOpen n l plain w.plain, tt);
    next = λ q h. subst (λ (k : ℕ). NoWorse d k q) (sym e) h;
  }

  pub add_to_side-Appended :
      (ls : List Level)
      → All IsOpen ls
      → Ends d price ls
      → Appended d price n ls (add_to_side d price n ls)
  unfolding add_to_side
  add_to_side-Appended [] w e = Appended-new
  add_to_side-Appended (l ∷ []) w e = elim (Bool-cases (l.price == price)) [
    | inl same ↦ rw same (Appended-same l w.0 (==→eq _ _ same))
    | inr differs ↦ rw differs (
        rw (NoWorse-first d l.price price e) (record {
          in_order = ap (λ os. os ++ offer_of price n ∷ []) (sym (append-nil (offers_of l)));
          open_levels = (w.0, (append_order-IsOpen n (empty_level price) plain tt, tt));
          next = λ q h. (transitive d l.price price q (strictly d l.price price e differs) h, h);
        }))
  ]
  add_to_side-Appended (l ∷ k ∷ ls) w e =
      let rest = add_to_side-Appended (k ∷ ls) w.1 e.1 in
      rw (Better-differs d l.price price e.0) (
        rw (Better-first d l.price price e.0) (record {
          in_order =
              ap (λ os. offers_of l ++ os) rest.in_order
              ∙ sym (append_assoc (offers_of l) (offers (k ∷ ls)) (offer_of price n ∷ []));
          open_levels = (w.0, rest.open_levels);
          next = λ q h. Ends-more d q l _ (transitive d l.price price q e.0 h) (rest.next q h);
        }))
