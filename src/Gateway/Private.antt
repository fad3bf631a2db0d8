-- ===== src/Gateway/Private.antt =====
-- backend/app/ws/private.py: the handshake of a private connection, with `verify_ws_signature` of
-- core/security.py. `ws_hmac` is the hex digest under a secret of an API key and a time; the rest is as
-- in Api/Auth. What the client sends within the five seconds is an argument.
use uvipystock.Prelude.{ℕ, ◌==◌, Bool, false, not, if◌then◌else◌, List, Option, none, some}
use uvipystock.Prelude.Int.{ℤ}
use uvipystock.Api.Auth.{ApiKey, Headers, get_by_api_key, is_stale}
use uvipystock.Gateway.Manager.{Entry, connect}

-- The message; a missing or empty field is `none`.
pub record AuthMessage : Type 0 where
  pub is_auth : Bool
  pub api_key : Option ℕ
  pub timestamp : Option ℕ
  pub signature : Option ℕ

pub data Incoming : Type 0 where
  message : AuthMessage → Incoming
  silence disconnects : Incoming

-- How the handshake ends: with the user's registration, with a refusal (4003), with the time-out
-- (4001), with the client gone, or with an error of the headers that nothing catches.
pub data Handshake : Type 0 where
  registered : ℕ → Handshake
  auth_failed auth_timeout gone header_error : Handshake

module _ (int_of : ℕ → Option ℤ) (ws_hmac : ℕ → ℕ → ℤ → ℕ) (rows : List ApiKey) (now : ℕ) where
  -- `verify_ws_signature`
  unfoldable pub verify_ws_signature : ℕ → ℕ → ℤ → ℕ → Bool
  verify_ws_signature secret key timestamp provided =
      if is_stale now timestamp then false else ws_hmac secret key timestamp == provided

  -- The lookup that both ways share; an exception is `none`.
  unfoldable pub check_key : Option ApiKey → ℕ → ℤ → ℕ → Option ℕ
  unfolding verify_ws_signature
  check_key none key timestamp signature = none
  check_key (some row) key timestamp signature =
      if row.is_revoked
      then none
      else if not (verify_ws_signature row.secret_hash key timestamp signature)
      then none
      else some row.user_id

  unfoldable pub check_time : ℕ → Option ℤ → ℕ → Option ℕ
  unfolding check_key get_by_api_key
  check_time key none signature = none
  check_time key (some timestamp) signature =
      check_key (get_by_api_key rows key) key timestamp signature

  abbrev pub ended : Handshake → Option ℕ → Handshake
  ended failure none = failure
  ended failure (some user_id) = registered user_id

  -- `_wait_for_auth_message`, on the three fields.
  abbrev pub from_message : Option ℕ → Option ℕ → Option ℕ → Handshake
  from_message (some key) (some timestamp) (some signature) =
      ended auth_failed (check_time key (int_of timestamp) signature)
  from_message _ _ _ = auth_failed

  abbrev pub wait_for_message : Incoming → Handshake
  wait_for_message (message m) =
      if m.is_auth then from_message m.api_key m.timestamp m.signature else auth_failed
  wait_for_message silence = auth_timeout
  wait_for_message disconnects = gone

  -- `_try_header_auth`, and the wait where one of the three headers is missing.
  abbrev pub from_ws_headers : Option ℕ → Option ℕ → Option ℕ → Incoming → Handshake
  from_ws_headers (some key) (some timestamp) (some signature) i =
      ended header_error (check_time key (int_of timestamp) signature)
  from_ws_headers _ _ _ i = wait_for_message i

  unfoldable pub handshake : Headers → Incoming → Handshake
  unfolding check_time
  handshake h i = from_ws_headers h.x_api_key h.x_timestamp h.x_signature i

  abbrev pub registry_after : Handshake → ℕ → List Entry → List Entry
  registry_after (registered user_id) socket es = connect socket user_id es
  registry_after _ socket es = es

  -- `handle_private_channel` up to its loop.
  unfoldable pub open_private : Headers → Incoming → ℕ → List Entry → Handshake × List Entry
  unfolding handshake
  open_private h i socket es = (handshake h i, registry_after (handshake h i) socket es)
