-- ===== src/Records/Table.antt =====
-- The table of orders: ids that are used once and below the sequence, and what of a row is never
-- changed again.
use uvipystock.Prelude.{
  ℕ, suc, ◌≤◌, ◌<◌, ◌==◌, ==→eq, map, ◌≡◌, refl, sym, ap, subst, ◌∙◌, arith, ◌&&◌, if◌then◌else◌,
  Bool-cases, inl, inr, List, [], ◌∷◌, ◌++◌, Option, none, some,
}
use uvipystock.Enums.{OrderSide, OrderType, OrderStatus, is_active}
use uvipystock.Model.Rows.{Order}
use uvipystock.Orders.Laws.{get_order-id}
use uvipystock.Orders.Repo.{
  get_order, put_order, update_status, cancel_children, with_status, is_child,
}

-- What a row is created with.
pub record Terms : Type 0 where
  pub id : ℕ
  pub user_id : ℕ
  pub symbol : ℕ
  pub side : OrderSide
  pub type : OrderType
  pub price : Option ℕ
  pub stop_price : Option ℕ
  pub quantity : ℕ
  pub visible_quantity : Option ℕ
  pub hidden_quantity : Option ℕ
  pub replaces_id : Option ℕ
  pub parent_order_id : Option ℕ

abbrev pub terms : Order → Terms
terms o = record {
  id = o.id;
  user_id = o.user_id;
  symbol = o.symbol;
  side = o.side;
  type = o.type;
  price = o.price;
  stop_price = o.stop_price;
  quantity = o.quantity;
  visible_quantity = o.visible_quantity;
  hidden_quantity = o.hidden_quantity;
  replaces_id = o.replaces_id;
  parent_order_id = o.parent_order_id;
}

-- The terms of the row with an id.
unfoldable pub terms_at : List Order → ℕ → Option Terms
terms_at [] id = none
terms_at (o ∷ os) id = if o.id == id then some (terms o) else terms_at os id

-- A row with these terms is in the table.
abbrev pub Stands : Terms → List Order → Type 0
Stands t os = terms_at os t.id ≡ some t

-- Ids are below the next one, and no two rows share one.
abbrev pub IsNumbered : ℕ → List Order → Type 0
IsNumbered n [] = Unit
IsNumbered n (o ∷ os) = (o.id < n) × (terms_at os o.id ≡ none) × IsNumbered n os

terms_at-get_order :
    (os : List Order) (id : ℕ) (o : Order)
    → get_order os id ≡ some o
    → terms_at os id ≡ some (terms o)
unfolding get_order terms_at
terms_at-get_order [] id o h = absurd cc
terms_at-get_order (p ∷ ps) id o h = ground (arith, terms_at-get_order ps id o, h)

pub get_order-Stands :
    (os : List Order) (id : ℕ) (o : Order) → get_order os id ≡ some o → Stands (terms o) os
get_order-Stands os id o h =
    subst (λ i. terms_at os i ≡ some (terms o)) (sym (get_order-id os id o h))
      (terms_at-get_order os id o h)

pub terms_at-id : (os : List Order) (id : ℕ) (t : Terms) → terms_at os id ≡ some t → t.id ≡ id
unfolding terms_at
terms_at-id [] id t h = absurd cc
terms_at-id (o ∷ os) id t h = elim (Bool-cases (o.id == id)) [
  | inl e ↦ let same : some (terms o) ≡ some t = rw e at h in ground (arith, same, ==→eq o.id id e)
  | inr e ↦ terms_at-id os id t (rw e at h)
]

pub terms_at-none : (os : List Order) (n id : ℕ) → IsNumbered n os → n ≤ id → terms_at os id ≡ none
unfolding terms_at
terms_at-none [] n id h g = refl
terms_at-none (o ∷ os) n id h g = ground (arith, h.0, terms_at-none os n id h.2 g, g)

-- Appending the row with the next id.
module _ (q : Order) where
  append_at :
      (os : List Order) (n id : ℕ)
      → q.id ≡ n
      → IsNumbered n os
      → terms_at (os ++ q ∷ []) id ≡ (if q.id == id then some (terms q) else terms_at os id)
  unfolding terms_at
  append_at [] n id e h = refl
  append_at (o ∷ os) n id e h = ground (arith, append_at os n id e h.2, h.0, e)

  pub append-IsNumbered :
      (os : List Order) (n : ℕ) → q.id ≡ n → IsNumbered n os → IsNumbered (suc n) (os ++ q ∷ [])
  unfolding terms_at
  append-IsNumbered [] n e h = (omega (arith, e), refl, tt)
  append-IsNumbered (o ∷ os) n e h = (
    omega (arith, h.0),
    ground (arith, append_at os n o.id e h.2, h.0, h.1, e),
    append-IsNumbered os n e h.2,
  )

  pub append-Stands :
      (os : List Order) (n : ℕ) (t : Terms)
      → q.id ≡ n
      → IsNumbered n os
      → Stands t os
      → Stands t (os ++ q ∷ [])
  append-Stands os n t e h s =
      ground (arith, append_at os n t.id e h, terms_at-none os n t.id h, e, s)

  pub new-Stands :
      (os : List Order) (n : ℕ) → q.id ≡ n → IsNumbered n os → Stands (terms q) (os ++ q ∷ [])
  new-Stands os n e h = ground (arith, append_at os n q.id e h)

-- Writing back a row with the terms of the one that is there.
module _ (o : Order) where
  pub put_at :
      (os : List Order) (id : ℕ)
      → Stands (terms o) os
      → terms_at (put_order o os) id ≡ terms_at os id
  unfolding terms_at put_order
  put_at [] id s = absurd cc
  put_at (p ∷ ps) id s = ground (arith, put_at ps id, s)

  pub put-IsNumbered :
      (n : ℕ) (os : List Order)
      → Stands (terms o) os
      → IsNumbered n os
      → IsNumbered n (put_order o os)
  unfolding terms_at put_order
  put-IsNumbered n [] s h = absurd cc
  put-IsNumbered n (p ∷ ps) s h = elim (Bool-cases (p.id == o.id)) [
    | inl e ↦
        rw e
          (ground (arith, e, h.0), subst (λ i. terms_at ps i ≡ none) (==→eq p.id o.id e) h.1, h.2)
    | inr e ↦
        let s' : Stands (terms o) ps = rw e at s in
        rw e (h.0, put_at ps p.id s' ∙ h.1, put-IsNumbered n ps s' h.2)
  ]

-- A change of every row that keeps its terms.
module _ (f : Order → Order) (same : (o : Order) → terms (f o) ≡ terms o) where
  pub map_at : (os : List Order) (id : ℕ) → terms_at (map f os) id ≡ terms_at os id
  unfolding terms_at
  map_at [] id = refl
  map_at (o ∷ os) id = ground (arith, map_at os id, ap (λ (t : Terms). t.id) (same o), same o)

  pub map-IsNumbered : (n : ℕ) (os : List Order) → IsNumbered n os → IsNumbered n (map f os)
  map-IsNumbered n [] h = tt
  map-IsNumbered n (o ∷ os) h =
      let e = ap (λ (t : Terms). t.id) (same o) in
      (
        subst (λ i. i < n) (sym e) h.0,
        subst (λ i. terms_at (map f os) i ≡ none) (sym e) (map_at os o.id ∙ h.1),
        map-IsNumbered n os h.2,
      )

abbrev pub status_if : ℕ → OrderStatus → Order → Order
status_if id status o = if o.id == id then with_status status o else o

pub update_status-map :
    (id : ℕ) (status : OrderStatus) (os : List Order)
    → update_status id status os ≡ map (status_if id status) os
unfolding update_status
update_status-map id status [] = refl
update_status-map id status (o ∷ os) =
    ap (λ ps. status_if id status o ∷ ps) (update_status-map id status os)

abbrev pub cancel_if : ℕ → Order → Order
cancel_if id o =
    if is_child id o.parent_order_id && is_active o.status
    then with_status OrderStatus.canceled o
    else o

pub cancel_children-map : (id : ℕ) (os : List Order) → cancel_children id os ≡ map (cancel_if id) os
unfolding cancel_children
cancel_children-map id [] = refl
cancel_children-map id (o ∷ os) = ap (λ ps. cancel_if id o ∷ ps) (cancel_children-map id os)

pub status_if-terms : (id : ℕ) (s : OrderStatus) (o : Order) → terms (status_if id s o) ≡ terms o
status_if-terms id s o = elim (Bool-cases (o.id == id)) [ inl e ↦ rw e refl | inr e ↦ rw e refl ]

pub cancel_if-terms : (id : ℕ) (o : Order) → terms (cancel_if id o) ≡ terms o
cancel_if-terms id o = elim (Bool-cases (is_child id o.parent_order_id && is_active o.status)) [
  | inl e ↦ rw e refl
  | inr e ↦ rw e refl
]
