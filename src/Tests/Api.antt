-- ===== src/Tests/Api.antt =====
-- The routes and the authentication on concrete requests.
use uvipystock.Prelude.{ℕ, ◌+◌, ◌*◌, ◌≡◌, refl, true, false, List, [], ◌∷◌, Option, none, some}
use uvipystock.Prelude.Int.{ℤ, pos}
use uvipystock.Enums.{buy}
use uvipystock.Enums
use uvipystock.Orders.Repo.{get_by_user}
use uvipystock.Api.Schema.{OrderCreateRequest, OrderBulkCreateRequest, gtc, valid_create}
use uvipystock.Api.Endpoints.{place_order_route, cancel_order_route}
use uvipystock.Api.Refused.{PlacedOrUnchanged, Answered, place_order_refused, cancel_order_answers}
use uvipystock.Api.AllOrNothing.{AllOrNothing}
use uvipystock.Api.Auth.{
  ApiKey, Headers, Request, Payload, RequestState, granted, trade, authenticate_request,
}
use uvipystock.Api.Admitted.{Authentic, granted-Authentic}
use uvipystock.Gateway.Manager.{connect}
use uvipystock.Gateway.Private.{Incoming, message, registered, handshake, open_private}
use uvipystock.Gateway.Proven.{Opened, open_private-Opened}
use uvipystock.Tests.Trading.{one, world, no_asks}
use uvipystock.Tests.Limits.{times}

abbrev body : OrderCreateRequest
body = record {
  symbol = 1;
  side = buy;
  type = Enums.OrderType.limit;
  price = some (2 * one);
  stop_price = none;
  trailing_delta = none;
  quantity = one;
  time_in_force = gtc;
  client_order_id = none;
  post_only = false;
  iceberg_visible_quantity = none;
  iceberg_hidden_quantity = none;
  sl = none;
  tp = none;
}

accepted : valid_create body ≡ true
unfolding valid_create
accepted = refl

place_order_refused_example : PlacedOrUnchanged world (place_order_route no_asks 1 body world)
place_order_refused_example = place_order_refused no_asks 1 body world

abbrev bulk : OrderBulkCreateRequest
bulk = record { bulk_id = some 3; orders = body ∷ body ∷ [] }

cancel_order_answers_example :
    Answered (get_by_user world.orders 6 1) world (cancel_order_route 1 6 world)
cancel_order_answers_example = cancel_order_answers 1 6 world

abbrev a_key : ApiKey
a_key = record {
  id = 1;
  user_id = 5;
  api_key = 77;
  secret_hash = 9;
  permissions = trade ∷ [];
  rate_limit_per_min = 2;
  is_revoked = false;
  expires_at = none;
}

abbrev a_request : Request
a_request = record { method = 1; path = 2; body = 3 }

abbrev headers : Headers
headers = record { x_api_key = some 77; x_timestamp = some 1_000; x_signature = some 12 }

abbrev int_of : ℕ → Option ℤ
int_of text = some (pos text)

abbrev hmac : ℕ → Payload → ℕ
hmac secret p = secret + p.request.body

abbrev buckets : ℕ → List ℕ
buckets k = []

abbrev state : RequestState
state = record {
  api_key = 77;
  user_id = 5;
  api_key_id = 1;
  permissions = trade ∷ [];
  rate_limit = record { limit = 2; remaining = 1; retry_after = 0; is_exceeded = false };
}

let_through :
    (authenticate_request int_of hmac times a_request 1_020 1_020_000_000
      (a_key ∷ [])
      headers
      buckets).0
    ≡ granted state
unfolding authenticate_request
let_through = refl

granted-Authentic_example :
    Authentic int_of hmac times a_request 1_020 1_020_000_000 (a_key ∷ []) headers buckets 5
granted-Authentic_example =
    granted-Authentic int_of hmac times a_request 1_020 1_020_000_000 (a_key ∷ []) headers buckets
      state let_through

abbrev no_headers : Headers
no_headers = record { x_api_key = none; x_timestamp = none; x_signature = none }

abbrev ws_hmac : ℕ → ℕ → ℤ → ℕ
ws_hmac secret key timestamp = secret + key

abbrev first_message : Incoming
first_message =
    message
      (record { is_auth = true; api_key = some 77; timestamp = some 1_000; signature = some 86 })

-- The socket 3 is registered for the user 5.
socket_opened :
    open_private int_of ws_hmac (a_key ∷ []) 1_020 no_headers first_message 3 []
    ≡ (registered 5, record { key = 5; sockets = 3 ∷ [] } ∷ [])
unfolding open_private handshake connect
socket_opened = refl

open_private-Opened_example :
    Opened int_of ws_hmac
      (a_key ∷ [])
      1_020
      no_headers
      first_message
      3
      []
      (open_private int_of ws_hmac (a_key ∷ []) 1_020 no_headers first_message 3 [])
open_private-Opened_example =
    open_private-Opened int_of ws_hmac (a_key ∷ []) 1_020 no_headers first_message 3 []
