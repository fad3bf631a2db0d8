-- ===== src/Worker/Order.antt =====
-- backend/app/matching/worker.py: a match against the book that the worker loads takes the makers in
-- the order in which they were loaded.
use uvipystock.Prelude.{
  ℕ, suc, ◌+◌, ◌==◌, ◌≤◌, ◌<◌, ◌≡◌, inl, inr, Bool-cases, refl, ap, sym, subst, ◌∙◌, arith, Bool,
  true, false, List, [], ◌∷◌, ◌++◌, length, All, map, append_assoc, append-nil,
}
use uvipystock.Enums.{OrderSide, buy, sell, opposite}
use uvipystock.Exec.{Result, ok}
use uvipystock.Orders.Validate.{MakerOrder, ask_quantity}
use uvipystock.Engine.Book.{Level, Engine, insert_node, node_pool_cap, empty_engine, add_to_side}
use uvipystock.Engine.Match.{Taker, trades_cap, match_active_order, opposite_of}
use uvipystock.Engine.Round.{IsWellFormed}
use uvipystock.Engine.Walk.{side_load}
use uvipystock.Engine.Priority.{Offer, offers, greedy, IsPlain}
use uvipystock.Engine.Greedy.{IsOpen, Takes, match_side-greedy}
use uvipystock.Engine.Append.{Ends, NoWorse, Appended, add_to_side-Appended}
use uvipystock.Worker.Place.{load_makers}
use uvipystock.Worker.Load.{Fits, maker_node, insert-Fits, accepted}

-- What a maker offers: of an iceberg its visible part.
abbrev pub maker_offer : MakerOrder → Offer
maker_offer m = record { order_id = m.order_id; price = m.price; quantity = ask_quantity m }

-- Bids are kept and read in descending order, asks in ascending order.
abbrev pub descends : OrderSide → Bool
descends buy = false
descends sell = true

-- The makers, for a taker of a side: all of the other side, from the best price to the worst, each
-- with something on offer.
abbrev pub InOrder : OrderSide → List MakerOrder → Type 0
InOrder side [] = Unit
InOrder side (m ∷ []) = (m.side ≡ opposite side) × (0 < ask_quantity m)
InOrder side (m ∷ k ∷ ms) =
    (m.side ≡ opposite side)
    × (0 < ask_quantity m)
    × NoWorse (descends side) m.price k.price
    × InOrder side (k ∷ ms)

maker_node-IsPlain : (m : MakerOrder) → IsPlain (maker_node m)
maker_node-IsPlain m = elim (Bool-cases m.is_iceberg) [ inr e ↦ inl e | inl e ↦ inr (rw e refl) ]

-- The side that the taker meets, with what the loading knows of it.
record Ready (side : OrderSide) (n : ℕ) (os : List Offer) (e : Engine) : Type 0 where
  fits : Fits n e
  open_levels : All IsOpen (opposite_of side e)
  in_order : offers (opposite_of side e) ≡ os

opposite_of-insert :
    (side : OrderSide) (m : MakerOrder) (e : Engine)
    → m.side ≡ opposite side
    → opposite_of side (insert_node m.side m.price (maker_node m) e)
      ≡ add_to_side (descends side) m.price (maker_node m) (opposite_of side e)
opposite_of-insert buy m e h =
    ap (λ (s : OrderSide). opposite_of buy (insert_node s m.price (maker_node m) e)) h
opposite_of-insert sell m e h =
    ap (λ (s : OrderSide). opposite_of sell (insert_node s m.price (maker_node m) e)) h

first-InOrder :
    (side : OrderSide) (m : MakerOrder) (ms : List MakerOrder)
    → InOrder side (m ∷ ms)
    → (m.side ≡ opposite side) × (0 < ask_quantity m)
first-InOrder side m [] h = h
first-InOrder side m (k ∷ ms) h = (h.0, h.1)

rest-InOrder :
    (side : OrderSide) (m : MakerOrder) (ms : List MakerOrder)
    → InOrder side (m ∷ ms)
    → InOrder side ms
rest-InOrder side m [] h = tt
rest-InOrder side m (k ∷ ms) h = h.3

-- The next maker is no better than the levels that are there.
abbrev Starts : OrderSide → List MakerOrder → List Level → Type 0
Starts side [] ls = Unit
Starts side (m ∷ ms) ls = Ends (descends side) m.price ls

Starts-again :
    (side : OrderSide) (m : MakerOrder) (ms : List MakerOrder) (ls ls' : List Level)
    → InOrder side (m ∷ ms)
    → Appended (descends side) m.price (maker_node m) ls ls'
    → Starts side ms ls'
Starts-again side m [] ls ls' h a = tt
Starts-again side m (k ∷ ms) ls ls' h a = a.next k.price h.2

insert-Ready :
    (side : OrderSide) (n : ℕ) (os : List Offer) (m : MakerOrder) (ms : List MakerOrder)
    (e : Engine)
    → Ready side n os e
    → InOrder side (m ∷ ms)
    → Starts side (m ∷ ms) (opposite_of side e)
    → Ready side (suc n) (os ++ maker_offer m ∷ []) (insert_node m.side m.price (maker_node m) e)
      × Starts side ms (opposite_of side (insert_node m.side m.price (maker_node m) e))
insert-Ready side n os m ms e r o s =
    let f = first-InOrder side m ms o in
    let a =
      subst (Appended (descends side) m.price (maker_node m) (opposite_of side e))
        (sym (opposite_of-insert side m e f.0))
        (add_to_side-Appended (descends side) m.price (maker_node m) (maker_node-IsPlain m)
          (opposite_of side e) r.open_levels s) in
    (
      record {
        fits = insert-Fits m.side n m.price m e f.1 r.fits;
        open_levels = a.open_levels;
        in_order = a.in_order ∙ ap (λ (ps : List Offer). ps ++ maker_offer m ∷ []) r.in_order;
      },
      Starts-again side m ms _ _ o a,
    )

same-Ready :
    (side : OrderSide) (n k : ℕ) (os ps : List Offer) (e : Engine)
    → n ≡ k
    → os ≡ ps
    → Ready side n os e
    → Ready side k ps e
same-Ready side n k os ps e h g r = record {
  fits = subst (λ (j : ℕ). Fits j e) h r.fits;
  open_levels = r.open_levels;
  in_order = r.in_order ∙ g;
}

abbrev LoadedInOrder : OrderSide → ℕ → List Offer → Result Engine → Type 0
LoadedInOrder side n os r = (e : Engine) × (r ≡ ok e) × Ready side n os e

load_makers-Ready :
    (side : OrderSide) (n : ℕ) (os : List Offer) (ms : List MakerOrder) (e : Engine)
    → Ready side n os e
    → InOrder side ms
    → Starts side ms (opposite_of side e)
    → n + length ms ≤ node_pool_cap
    → LoadedInOrder side (n + length ms) (os ++ map maker_offer ms) (load_makers ms e)
unfolding load_makers
load_makers-Ready side n os [] e r o s room =
    (e, refl, same-Ready side n _ os _ e (omega arith) (sym (append-nil os)) r)
load_makers-Ready side n os (m ∷ ms) e r o s room =
    let f = first-InOrder side m ms o in
    let z : (ask_quantity m == 0) ≡ false = ground (arith, f.1) in
    let e' = insert_node m.side m.price (maker_node m) e in
    let a = insert-Ready side n os m ms e r o s in
    let next =
      load_makers-Ready side (suc n) (os ++ maker_offer m ∷ []) ms e' a.0 (rest-InOrder side m ms o)
        a.1 (omega arith) in
    rw (accepted n m e r.fits (omega arith) z) (
      next.0,
      next.1,
      same-Ready side _ _ _ _ next.0 (omega arith)
          (append_assoc os (maker_offer m ∷ []) (map maker_offer ms)) next.2,
    )

sound_side :
    (side : OrderSide) (n : ℕ) (e : Engine)
    → Fits n e
    → All IsWellFormed (opposite_of side e) × (side_load (opposite_of side e) ≤ n)
sound_side buy n e f = (f.asks_sound, f.asks_load)
sound_side sell n e f = (f.bids_sound, f.bids_load)

Starts-empty :
    (side : OrderSide) (ms : List MakerOrder) → Starts side ms (opposite_of side empty_engine)
Starts-empty side [] = tt
Starts-empty buy (m ∷ ms) = tt
Starts-empty sell (m ∷ ms) = tt

empty-Ready : (side : OrderSide) → Ready side 0 [] empty_engine
empty-Ready side = record {
  fits = record {
    bids_sound = tt;
    asks_sound = tt;
    bids_load = omega arith;
    asks_load = omega arith;
    pool = omega arith;
  };
  open_levels = elim side as (λ k. All IsOpen (opposite_of k empty_engine)) [
    | buy ↦ tt
    | sell ↦ tt
  ];
  in_order = elim side as (λ k. offers (opposite_of k empty_engine) ≡ []) [
    | buy ↦ refl
    | sell ↦ refl
  ];
}

matched_in_order :
    (t : Taker) (n : ℕ) (os : List Offer) (e : Engine)
    → Takes t.type
    → Ready t.side n os e
    → n ≤ trades_cap
    → (match_active_order t e).1.fills ≡ greedy t.side t.price t.quantity os
unfolding match_active_order
matched_in_order t n os e k r small =
    let sound = sound_side t.side n e r.fits in
    match_side-greedy t (opposite_of t.side e) k sound.0 r.open_levels (omega (arith, sound.1))
    ∙ ap (λ (ps : List Offer). greedy t.side t.price t.quantity ps) r.in_order

-- The worker's limit is a thousand makers. Where they come for a taker's side from the best price to
-- the worst, each with something on offer, loading them into an empty book never raises, and the
-- trades of a market, limit or immediate-or-cancel order with that book are those of the
-- specification on the makers as they came: one after the other, each as far as its offer goes,
-- until the order is filled or the next price is out of its reach.
pub loaded-InOrder :
    (t : Taker) (ms : List MakerOrder)
    → Takes t.type
    → InOrder t.side ms
    → length ms ≤ 1_000
    → (e : Engine) × (load_makers ms empty_engine ≡ ok e)
      × ((match_active_order t e).1.fills ≡ greedy t.side t.price t.quantity (map maker_offer ms))
loaded-InOrder t ms k o small =
    let l =
      load_makers-Ready t.side 0 [] ms empty_engine (empty-Ready t.side) o (Starts-empty t.side ms)
        (omega arith) in
    (l.0, l.1, matched_in_order t (0 + length ms) (map maker_offer ms) l.0 k l.2 (omega arith))
