-- ===== src/Api/Refused.antt =====
-- backend/app/api/v1/orders.py: what is left of a request that is refused.
use uvipystock.Prelude.{
  ℕ, ◌≡◌, ◌⊎◌, inl, inr, refl, ap, true, false, List, Option, none, some, Option-cases, Bool-cases,
}
use uvipystock.Model.{World}
use uvipystock.Model.Rows.{Order}
use uvipystock.Enums.{is_active}
use uvipystock.Exec.{Result, Error, ok, err, commit, transaction}
use uvipystock.Orders.Repo.{get_by_user}
use uvipystock.Orders.Validate.{MakerOrder}
use uvipystock.Orders.Place.{place_order}
use uvipystock.Orders.Refusals.{place_order-Silent}
use uvipystock.Api.Errors.{Response, responded, status_of, status_code}
use uvipystock.Api.Schema.{OrderCreateRequest, request_to_dto}
use uvipystock.Api.Endpoints.{
  respond, place_errors, cancel_errors, place_order_route, cancel_order_route,
}

-- Placed and committed, or an error with nothing left behind.
abbrev pub PlacedOrUnchanged : World → Response Order × World → Type 0
PlacedOrUnchanged w (r, w') =
    ((o : Order) × (r ≡ responded 201 o)) ⊎ (((e : Error) × (r ≡ place_errors e)) × (w' ≡ w))

settle_place :
    (r : Result Order) (w w' : World)
    → ((e : Error) → r ≡ err e → w'.commands ≡ w.commands)
    → PlacedOrUnchanged w (respond 201 place_errors (commit r w w').0, (commit r w w').1)
settle_place (ok o) w w' h = inl (o, refl)
settle_place (err e) w w' h = inr ((e, refl), ap (λ cs. record w { commands = cs }) (h e refl))

-- A placement ends with 201 and the order, or with the status of its error, and then the tables and
-- what was sent to Redis are as they were.
pub place_order_refused :
    (asks : ℕ → List MakerOrder) (u : ℕ) (body : OrderCreateRequest) (w : World)
    → PlacedOrUnchanged w (place_order_route asks u body w)
unfolding place_order_route transaction
place_order_refused asks u body w =
    let m = place_order asks u (request_to_dto none body) in
    settle_place (m w).0 w (m w).1 (place_order-Silent asks u (request_to_dto none body) w)

-- What a cancellation answers, by the order that it finds: 404 where there is none of the user, and
-- 409 for one that is no longer active, with tables and Redis as they were; and for an active one
-- 200, or an error with the tables as they were.
abbrev pub Answered : Option Order → World → Response Order × World → Type 0
Answered none w (r, w') = (status_of r ≡ 404) × (w' ≡ w)
Answered (some o) w (r, w') =
    (is_active o.status ≡ false) × (status_of r ≡ 409) × (w' ≡ w)
    ⊎ (is_active o.status ≡ true)
      × ((status_of r ≡ 200) ⊎ (w' ≡ record w { commands = w'.commands }))

settle_cancel :
    (r : Result Order) (w w' : World)
    → let s : Response Order × World =
        (respond 200 cancel_errors (commit r w w').0, (commit r w w').1) in
      (status_of s.0 ≡ 200) ⊎ (s.1 ≡ record w { commands = s.1.commands })
settle_cancel (ok o) w w' = inl refl
settle_cancel (err e) w w' = inr refl

-- A cancellation ends with 404 where the user has no order of that id, and with 409 where the order
-- is no longer active, and then the tables and what was sent to Redis are as they were; for an
-- active order of the user it ends with 200, or the tables are as they were.
pub cancel_order_answers :
    (u id : ℕ) (w : World) → Answered (get_by_user w.orders id u) w (cancel_order_route u id w)
unfolding cancel_order_route transaction status_code
cancel_order_answers u id w = elim (Option-cases (get_by_user w.orders id u)) [
  | inl missing ↦ rw missing (refl, refl)
  | inr (o, found) ↦ rw found (elim (Bool-cases (is_active o.status)) [
    | inl active ↦ rw active (inr (refl, settle_cancel _ w _))
    | inr idle ↦ rw idle (inl (refl, refl, refl))
  ])
]
