-- ===== src/Worker/Book.antt =====
-- backend/app/redis_client/orderbook.py: the makers that the worker reads. What ZRANGE or ZREVRANGE
-- returned, and the HASH of each order, are arguments; a field that is missing or empty is `none`.
use uvipystock.Prelude.{
  ℕ, suc, map, ◌≤◌, ◌<◌, ◌≡◌, refl, inl, inr, Bool-cases, arith, Bool, true, false, List, [], ◌∷◌,
  Option, none, some, All, length,
}
use uvipystock.Enums.{OrderSide, opposite}
use uvipystock.Redis.Score.{decode_score}
use uvipystock.Orders.Validate.{MakerOrder, ask_quantity}
use uvipystock.Exec.{ok}
use uvipystock.Engine.Book.{Engine, empty_engine}
use uvipystock.Engine.Match.{Taker, match_active_order}
use uvipystock.Engine.Priority.{greedy}
use uvipystock.Engine.Greedy.{Takes}
use uvipystock.Worker.Bridge.{Floats, as_doubles}
use uvipystock.Worker.Place.{load_makers}
use uvipystock.Engine.Append.{NoWorse}
use uvipystock.Worker.Order.{InOrder, descends, maker_offer, loaded-InOrder}

-- A member of the sorted set with its score.
pub record Member : Type 0 where
  pub order_id : ℕ
  pub score : ℕ

-- The fields of an order's HASH that are read here.
pub record Fields : Type 0 where
  pub side : OrderSide
  pub quantity : Option ℕ
  pub visible_quantity : Option ℕ
  pub hidden_quantity : Option ℕ
  pub is_iceberg : Bool

-- `a or b`
abbrev pub or_default : Option ℕ → ℕ → ℕ
or_default none d = d
or_default (some v) d = v

unfoldable pub maker_of : Member → Fields → MakerOrder
unfolding decode_score
maker_of r h = record {
  order_id = r.order_id;
  side = h.side;
  price = (decode_score r.score).0;
  quantity = or_default h.quantity 0;
  visible_quantity = or_default h.visible_quantity (or_default h.quantity 0);
  hidden_quantity = or_default h.hidden_quantity 0;
  is_iceberg = h.is_iceberg;
}

abbrev with_fields : Member → Option Fields → List MakerOrder → List MakerOrder
with_fields r none ms = ms
with_fields r (some h) ms = maker_of r h ∷ ms

-- `get_opposite_orders_for_match`: an order with no HASH is left out.
unfoldable pub get_opposite_orders : (ℕ → Option Fields) → List Member → List MakerOrder
unfolding maker_of
get_opposite_orders hashes [] = []
get_opposite_orders hashes (r ∷ rs) =
    with_fields r (hashes r.order_id) (get_opposite_orders hashes rs)

-- ZRANGE lists by ascending score, ZREVRANGE by descending.
abbrev pub Ranged : Bool → List Member → Type 0
Ranged d [] = Unit
Ranged d (r ∷ rs) = All (λ (s : Member). NoWorse d r.score s.score) rs × Ranged d rs

-- A HASH of an order on the other side, with something on offer.
abbrev pub Offers : OrderSide → Member → Option Fields → Type 0
Offers side r none = Unit
Offers side r (some h) = (h.side ≡ opposite side) × (0 < ask_quantity (maker_of r h))

price-NoWorse :
    (d : Bool) (r s : Member)
    → NoWorse d r.score s.score
    → NoWorse d (decode_score r.score).0 (decode_score s.score).0
unfolding decode_score
price-NoWorse true r s h = omega arith
price-NoWorse false r s h = omega arith

-- A maker before others that are no better.
InOrder-more :
    (side : OrderSide) (m : MakerOrder) (ms : List MakerOrder)
    → (m.side ≡ opposite side) × (0 < ask_quantity m)
    → All (λ (k : MakerOrder). NoWorse (descends side) m.price k.price) ms
    → InOrder side ms
    → InOrder side (m ∷ ms)
InOrder-more side m [] g a o = g
InOrder-more side m (k ∷ ms) g a o = (g.0, g.1, a.0, o)

module _ (side : OrderSide) where
  with_fields-All :
      (P : MakerOrder → Type 0) (r : Member) (h : Option Fields) (ms : List MakerOrder)
      → ((f : Fields) → P (maker_of r f))
      → All P ms
      → All P (with_fields r h ms)
  with_fields-All P r none ms p a = a
  with_fields-All P r (some f) ms p a = (p f, a)

  -- What follows a member in the range is no better than it.
  later-NoWorse :
      (hashes : ℕ → Option Fields) (r : Member) (rs : List Member)
      → All (λ (s : Member). NoWorse (descends side) r.score s.score) rs
      → All
          (λ (m : MakerOrder). NoWorse (descends side) (decode_score r.score).0 m.price)
          (get_opposite_orders hashes rs)
  unfolding get_opposite_orders maker_of
  later-NoWorse hashes r [] a = tt
  later-NoWorse hashes r (s ∷ rs) a =
      with_fields-All (λ (m : MakerOrder). NoWorse (descends side) (decode_score r.score).0 m.price)
        s (hashes s.order_id) (get_opposite_orders hashes rs)
        (λ f. price-NoWorse (descends side) r s a.0) (later-NoWorse hashes r rs a.1)

  with_fields-InOrder :
      (r : Member) (h : Option Fields) (ms : List MakerOrder)
      → Offers side r h
      → All (λ (m : MakerOrder). NoWorse (descends side) (decode_score r.score).0 m.price) ms
      → InOrder side ms
      → InOrder side (with_fields r h ms)
  unfolding maker_of
  with_fields-InOrder r none ms g a o = o
  with_fields-InOrder r (some f) ms g a o = InOrder-more side (maker_of r f) ms g a o

  pub get_opposite_orders-InOrder :
      (hashes : ℕ → Option Fields) (rs : List Member)
      → Ranged (descends side) rs
      → All (λ (r : Member). Offers side r (hashes r.order_id)) rs
      → InOrder side (get_opposite_orders hashes rs)
  unfolding get_opposite_orders
  get_opposite_orders-InOrder hashes [] a g = tt
  get_opposite_orders-InOrder hashes (r ∷ rs) a g =
      with_fields-InOrder r (hashes r.order_id) (get_opposite_orders hashes rs) g.0
        (later-NoWorse hashes r rs a.0) (get_opposite_orders-InOrder hashes rs a.1 g.1)

with_fields-length :
    (r : Member) (h : Option Fields) (ms : List MakerOrder) (rs : List Member)
    → length ms ≤ length rs
    → length (with_fields r h ms) ≤ suc (length rs)
with_fields-length r none ms rs h = omega arith
with_fields-length r (some f) ms rs h = omega arith

get_opposite_orders-length :
    (hashes : ℕ → Option Fields) (rs : List Member)
    → length (get_opposite_orders hashes rs) ≤ length rs
unfolding get_opposite_orders
get_opposite_orders-length hashes [] = omega arith
get_opposite_orders-length hashes (r ∷ rs) =
    with_fields-length r (hashes r.order_id) (get_opposite_orders hashes rs) rs
      (get_opposite_orders-length hashes rs)

module _ (F : Floats) where
  double-NoWorse :
      (d : Bool) (p q : ℕ)
      → NoWorse d p q
      → NoWorse d (F.decimal_to_double p) (F.decimal_to_double q)
  double-NoWorse true p q h = F.double-le q p h
  double-NoWorse false p q h = F.double-le p q h

  double-Offers : (m : MakerOrder) → 0 < ask_quantity m → 0 < ask_quantity (as_doubles F m)
  double-Offers m h = elim (Bool-cases m.is_iceberg) [
    | inl e ↦ rw e (F.double-pos m.visible_quantity (ground (arith, e, h)))
    | inr e ↦ rw e (F.double-pos m.quantity (ground (arith, e, h)))
  ]

  doubles-InOrder :
      (side : OrderSide) (ms : List MakerOrder)
      → InOrder side ms
      → InOrder side (map (as_doubles F) ms)
  doubles-InOrder side [] o = tt
  doubles-InOrder side (m ∷ []) o = (o.0, double-Offers m o.1)
  doubles-InOrder side (m ∷ k ∷ ms) o = (
    o.0,
    double-Offers m o.1,
    double-NoWorse (descends side) m.price k.price o.2,
    doubles-InOrder side (k ∷ ms) o.3,
  )

  map-length : (ms : List MakerOrder) → length (map (as_doubles F) ms) ≡ length ms
  map-length [] = refl
  map-length (m ∷ ms) = omega (arith, map-length ms)

  -- The worker asks for a thousand members, for a buy by ascending and for a sell by descending
  -- score. Where their HASHes are of orders on the other side with something on offer, the book that
  -- it loads from what it reads is never refused, and the trades of a market, limit or
  -- immediate-or-cancel order are those of the specification on the orders in the order of the
  -- range, with prices, quantities and differences as doubles.
  pub read_in_order :
      (t : Taker) (hashes : ℕ → Option Fields) (rs : List Member)
      → Takes t.type
      → Ranged (descends t.side) rs
      → All (λ (r : Member). Offers t.side r (hashes r.order_id)) rs
      → length rs ≤ 1_000
      → let ms = map (as_doubles F) (get_opposite_orders hashes rs) in
        (e : Engine) × (load_makers ms empty_engine ≡ ok e)
        × ((match_active_order t e).1.fills ≡ greedy t.side t.price t.quantity (map maker_offer ms))
  read_in_order t hashes rs k a g small =
      let ms = get_opposite_orders hashes rs in
      loaded-InOrder t (map (as_doubles F) ms) k
        (doubles-InOrder t.side ms (get_opposite_orders-InOrder t.side hashes rs a g))
        (omega (arith, map-length ms, get_opposite_orders-length hashes rs))
