-- ===== src/Records/Inserted.antt =====
-- backend/app/services/order_service.py: the rows that a bulk placement inserts.
use uvipystock.Prelude.{
  ℕ, suc, ◌+◌, ◌≤◌, ◌≡◌, refl, sym, subst, ◌∙◌, arith, if◌then◌else◌, List, [], ◌∷◌, ◌++◌, Option,
  none, some, ap,
}
use uvipystock.Enums.{is_stop_type}
use uvipystock.Model.{World}
use uvipystock.Model.Rows.{Order}
use uvipystock.Exec.{Exec, Result, ok, err, bind_result, pure, send, ◌>>=◌, ◌>>◌}
use uvipystock.Orders.Validate.{OrderCreate, SltpConfig}
use uvipystock.Orders.Place.{
  new_order, insert_with_children, create_sltp_child, insert_order, link_sl, link_tp,
  register_stop_order, enqueue_placed,
}
use uvipystock.Orders.Bulk.{insert_each}
use uvipystock.Records.Table.{Terms, terms}

-- The row is one that was created from the input, with an id of its own.
abbrev pub IsRowOf : ℕ → OrderCreate → Order → Type 0
IsRowOf user_id dto o = terms o ≡ terms (record (new_order user_id dto) { id = o.id })

-- One row for each input, in their order, with rising ids from `n` on.
abbrev pub RowsFor : ℕ → ℕ → List OrderCreate → List Order → Type 0
RowsFor user_id n [] [] = Unit
RowsFor user_id n [] (o ∷ os) = ⊥
RowsFor user_id n (dto ∷ dtos) [] = ⊥
RowsFor user_id n (dto ∷ dtos) (o ∷ os) =
    (n ≤ o.id) × IsRowOf user_id dto o × RowsFor user_id (suc o.id) dtos os

-- A result, if there is one, with the world after it.
abbrev pub Ends : {A : Type 0} → (A → World → Type 0) → Result A × World → Type 0
Ends P (ok a, w) = P a w
Ends P (err e, w) = Unit

pub Ends-bind :
    {A B : Type 0} (P : A → World → Type 0) (Q : B → World → Type 0) (r : Result A × World)
    (f : A → Exec B)
    → Ends P r
    → ((a : A) (w : World) → P a w → Ends Q (f a w))
    → Ends Q (bind_result r.0 r.1 f)
Ends-bind P Q (ok a, w) f p q = q a w p
Ends-bind P Q (err e, w) f p q = tt

Ends-any : {A : Type 0} (r : Result A × World) → Ends (λ a w. Unit {0}) r
Ends-any (ok a, w) = tt
Ends-any (err e, w) = tt

Ends-weaken :
    {A : Type 0} (P Q : A → World → Type 0) (r : Result A × World)
    → Ends P r
    → ((a : A) (w : World) → P a w → Q a w)
    → Ends Q r
Ends-weaken P Q (ok a, w) p h = h a w p
Ends-weaken P Q (err e, w) p h = tt

-- The row stays, and ids are only used up.
abbrev Linked : Order → ℕ → Order → World → Type 0
Linked o n o' w = (terms o' ≡ terms o) × (n ≤ w.next_order_id)

Linked-sl :
    (u : ℕ) (c : Option SltpConfig) (o : Order) (w : World)
    → Ends (Linked o w.next_order_id) (link_sl u c o w)
unfolding link_sl create_sltp_child insert_order
Linked-sl u none o w = (refl, omega arith)
Linked-sl u (some c) o w = (refl, omega arith)

Linked-tp :
    (u : ℕ) (c : Option SltpConfig) (o : Order) (w : World)
    → Ends (Linked o w.next_order_id) (link_tp u c o w)
unfolding link_tp create_sltp_child insert_order
Linked-tp u none o w = (refl, omega arith)
Linked-tp u (some c) o w = (refl, omega arith)

-- The next id is that of the row, and is used up.
abbrev Inserted : ℕ → OrderCreate → ℕ → Order → World → Type 0
Inserted u dto n o w =
    (terms o ≡ terms (record (new_order u dto) { id = n })) × (suc n ≤ w.next_order_id)

then_tp :
    (u : ℕ) (dto : OrderCreate) (n : ℕ) (o' : Order) (w : World)
    → Linked (record (new_order u dto) { id = n }) (suc n) o' w
    → Ends (Inserted u dto n) (link_tp u dto.tp o' w)
then_tp u dto n o' w h =
    Ends-weaken (Linked o' w.next_order_id) (Inserted u dto n) _ (Linked-tp u dto.tp o' w)
      (λ o'' w' k. (k.0 ∙ h.0, omega (arith, k.1, h.1)))

inserted :
    (u : ℕ) (dto : OrderCreate) (w : World)
    → Ends (Inserted u dto w.next_order_id) (insert_with_children u dto w)
unfolding insert_with_children insert_order
inserted u dto w =
    let n = w.next_order_id in
    let o = record (new_order u dto) { id = n } in
    let w₁ = record w { orders = w.orders ++ o ∷ []; next_order_id = n + 1 } in
    Ends-bind (Linked o (n + 1)) (Inserted u dto n) (link_sl u dto.sl o w₁)
      (λ o'. link_tp u dto.tp o') (Linked-sl u dto.sl o w₁)
      (λ o' w' h. then_tp u dto n o' w' (h.0, omega (arith, h.1)))

higher :
    (u n m : ℕ) (dtos : List OrderCreate) (os : List Order)
    → n ≤ m
    → RowsFor u m dtos os
    → RowsFor u n dtos os
higher u n m [] [] h r = tt
higher u n m [] (o ∷ os) h r = r
higher u n m (dto ∷ dtos) [] h r = r
higher u n m (dto ∷ dtos) (o ∷ os) h r = (omega (arith, r.0), r.1, r.2)

-- The first row, and those after it.
first_row :
    (u n : ℕ) (dto : OrderCreate) (dtos : List OrderCreate) (o : Order) (os : List Order) (k : ℕ)
    → terms o ≡ terms (record (new_order u dto) { id = n })
    → suc n ≤ k
    → RowsFor u k dtos os
    → RowsFor u n (dto ∷ dtos) (o ∷ os)
first_row u n dto dtos o os k e h r =
    let same : o.id ≡ n = ap (λ (t : Terms). t.id) e in
    (
      omega (arith, same),
      subst (λ (i : ℕ). terms o ≡ terms (record (new_order u dto) { id = i })) (sym same) e,
      higher u (suc o.id) k dtos os (omega (arith, same)) r,
    )

pub insert_each-RowsFor :
    (u : ℕ) (dtos : List OrderCreate) (w : World)
    → Ends (λ os w'. RowsFor u w.next_order_id dtos os) (insert_each u dtos w)
unfolding insert_each
insert_each-RowsFor u [] w = tt
insert_each-RowsFor u (dto ∷ dtos) w =
    let P = λ (os : List Order) (w' : World). RowsFor u w.next_order_id (dto ∷ dtos) os in
    let later = λ (o : Order).
      send (if is_stop_type o.type then register_stop_order o else enqueue_placed o.bulk_id o)
      >> (insert_each u dtos >>= λ os. pure (o ∷ os)) in
    Ends-bind (Inserted u dto w.next_order_id) P (insert_with_children u dto w) later
      (inserted u dto w)
      (λ o w₁ h.
        let w₂ = record w₁ {
          commands =
              w₁.commands
              ++ (if is_stop_type o.type
                  then register_stop_order o
                  else enqueue_placed o.bulk_id o);
        } in
        Ends-bind (λ os w'. RowsFor u w₁.next_order_id dtos os) P (insert_each u dtos w₂)
          (λ os. pure (o ∷ os)) (insert_each-RowsFor u dtos w₂)
          (λ os w' r. first_row u w.next_order_id dto dtos o os w₁.next_order_id h.0 h.1 r))
