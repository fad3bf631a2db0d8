-- ===== src/Api/Endpoints.antt =====
-- backend/app/api/v1/orders.py: the routes that change orders. A route commits where the service
-- returns; otherwise it rolls back, or its session is closed without a commit.
use uvipystock.Prelude.{ℕ, Bool, true, false, List, [], none, length}
use uvipystock.Model.{World}
use uvipystock.Model.Rows.{Order}
use uvipystock.Exec.{
  Exec, Result, Error, ok, err, transaction, insufficient_balance, order_validation,
  order_not_found, order_not_cancelable,
}
use uvipystock.Orders.Validate.{MakerOrder}
use uvipystock.Orders.Place.{place_order}
use uvipystock.Orders.Bulk.{place_bulk_orders}
use uvipystock.Orders.Cancel.{cancel_order, cancel_bulk_orders}
use uvipystock.Orders.Modify.{modify_order}
use uvipystock.Api.Errors.{AppError, Response, responded, failed, internal_error}
use uvipystock.Api.Schema.{
  OrderCreateRequest, OrderBulkCreateRequest, OrderModifyRequest, request_to_dto, dtos_of,
}

-- The `except` clauses of the four routes. What has no clause ends in the handler of all exceptions.
abbrev pub place_errors : Error → Response Order
place_errors insufficient_balance = failed AppError.insufficient_balance_http
place_errors order_validation = failed AppError.order_validation_http
place_errors _ = internal_error

abbrev pub modify_errors : Error → Response Order
modify_errors order_not_found = failed AppError.order_not_found_http
modify_errors order_not_cancelable = failed AppError.order_not_cancelable_http
modify_errors order_validation = failed AppError.order_validation_http
modify_errors insufficient_balance = failed AppError.insufficient_balance_http
modify_errors _ = internal_error

abbrev pub cancel_errors : Error → Response Order
cancel_errors order_not_found = failed AppError.order_not_found_http
cancel_errors order_not_cancelable = failed AppError.order_not_cancelable_http
cancel_errors _ = internal_error

abbrev pub respond : {A : Type 0} → ℕ → (Error → Response A) → Result A → Response A
respond status errors (ok a) = responded status a
respond status errors (err e) = errors e

abbrev pub route : {A : Type 0} → ℕ → (Error → Response A) → Exec A → World → Response A × World
route status errors m w = let (r, w') = transaction m w in (respond status errors r, w')

-- The answer to a bulk placement; a refusal is an answer too.
pub record OrderBulkCreateResponse : Type 0 where
  pub is_success : Bool
  pub total : ℕ
  pub succeeded : ℕ
  pub orders : List Order

abbrev pub all_placed : ℕ → List Order → OrderBulkCreateResponse
all_placed total os = record {
  is_success = true;
  total = total;
  succeeded = length os;
  orders = os;
}

abbrev pub none_placed : ℕ → OrderBulkCreateResponse
none_placed total = record { is_success = false; total = total; succeeded = 0; orders = [] }

abbrev pub bulk_respond : ℕ → Result (List Order) → Response OrderBulkCreateResponse
bulk_respond total (ok os) = responded 201 (all_placed total os)
bulk_respond total (err insufficient_balance) = responded 201 (none_placed total)
bulk_respond total (err order_validation) = responded 201 (none_placed total)
bulk_respond total (err _) = internal_error

module _ (asks : ℕ → List MakerOrder) where
  -- POST /orders
  unfoldable pub place_order_route : ℕ → OrderCreateRequest → World → Response Order × World
  unfolding transaction place_order request_to_dto
  place_order_route user_id body =
      route 201 place_errors (place_order asks user_id (request_to_dto none body))

  -- POST /orders/bulk
  unfoldable pub place_bulk_route :
      ℕ → OrderBulkCreateRequest → World → Response OrderBulkCreateResponse × World
  unfolding transaction place_bulk_orders request_to_dto
  place_bulk_route user_id body w =
      let (r, w') = transaction (place_bulk_orders asks user_id body.bulk_id (dtos_of body)) w in
      (bulk_respond (length body.orders) r, w')

-- PUT /orders/{id}
unfoldable pub modify_order_route : ℕ → ℕ → OrderModifyRequest → World → Response Order × World
unfolding transaction modify_order
modify_order_route user_id order_id body =
    route 200 modify_errors (modify_order user_id order_id body.price body.quantity)

-- DELETE /orders/{id}
unfoldable pub cancel_order_route : ℕ → ℕ → World → Response Order × World
unfolding transaction cancel_order
cancel_order_route user_id order_id = route 200 cancel_errors (cancel_order user_id order_id)

-- `cancel_bulk_orders`, on the ids that the service cancels.
unfoldable pub cancel_bulk_route : ℕ → List ℕ → World → Response (List ℕ) × World
unfolding transaction cancel_bulk_orders
cancel_bulk_route user_id ids = route 200 (λ e. internal_error) (cancel_bulk_orders user_id ids)
