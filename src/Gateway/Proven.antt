-- ===== src/Gateway/Proven.antt =====
-- backend/app/ws/private.py: who is registered by a handshake.
use uvipystock.Prelude.{
  ℕ, ◌≡◌, refl, ap, arith, true, false, Bool-cases, inl, inr, ◌≢◌, ◌⊎◌, List, Option, none, some,
}
use uvipystock.Prelude.Int.{ℤ}
use uvipystock.Api.Auth.{ApiKey, Headers, get_by_api_key, is_stale}
use uvipystock.Gateway.Manager.{Entry, connect}
use uvipystock.Gateway.Private.{
  AuthMessage, Incoming, message, silence, disconnects, Handshake, registered, auth_failed,
  auth_timeout, gone, header_error, verify_ws_signature, check_key, check_time, ended, from_message,
  wait_for_message, from_ws_headers, handshake, registry_after, open_private,
}

module _ (int_of : ℕ → Option ℤ) (ws_hmac : ℕ → ℕ → ℤ → ℕ) (rows : List ApiKey) (now : ℕ) where
  -- The key is known and in use, its text is a time within the replay window, and the signature is
  -- that of the key and the time under the key's secret.
  pub record Proven (key text signature user_id : ℕ) : Type 0 where
    pub row : ApiKey
    pub timestamp : ℤ
    pub is_number : int_of text ≡ some timestamp
    pub found : get_by_api_key rows key ≡ some row
    pub in_use : row.is_revoked ≡ false
    pub fresh : is_stale now timestamp ≡ false
    pub signed : ws_hmac row.secret_hash key timestamp ≡ signature
    pub same_user : user_id ≡ row.user_id

  checked-Proven :
      (found : Option ApiKey) (key text : ℕ) (timestamp : ℤ) (signature u : ℕ)
      → int_of text ≡ some timestamp
      → get_by_api_key rows key ≡ found
      → check_key int_of ws_hmac rows now found key timestamp signature ≡ some u
      → Proven key text signature u
  unfolding check_key verify_ws_signature
  checked-Proven none key text timestamp signature u n f e = absurd cc
  checked-Proven (some row) key text timestamp signature u n f e = record {
    row = row;
    timestamp = timestamp;
    is_number = n;
    found = f;
    in_use = ground (arith, e);
    fresh = ground (arith, e);
    signed = ground (arith, e);
    same_user = ground (arith, e);
  }

  timed-Proven :
      (key text : ℕ) (parsed : Option ℤ) (signature u : ℕ)
      → int_of text ≡ parsed
      → check_time int_of ws_hmac rows now key parsed signature ≡ some u
      → Proven key text signature u
  unfolding check_time
  timed-Proven key text none signature u n e = absurd cc
  timed-Proven key text (some t) signature u n e =
      checked-Proven (get_by_api_key rows key) key text t signature u n refl e

  -- The three texts are those of the headers, or those of a message of the right kind.
  abbrev pub Given : Headers → Incoming → ℕ → ℕ → ℕ → Type 0
  Given h i key text signature =
      ((h.x_api_key ≡ some key) × (h.x_timestamp ≡ some text) × (h.x_signature ≡ some signature))
      ⊎ ((m : AuthMessage) × (i ≡ message m)
          × (m.is_auth ≡ true)
          × (m.api_key ≡ some key)
          × (m.timestamp ≡ some text)
          × (m.signature ≡ some signature))

  abbrev pub Authenticated : Headers → Incoming → ℕ → Type 0
  Authenticated h i u =
      (key : ℕ) × (text : ℕ) × (signature : ℕ) × Given h i key text signature
      × Proven key text signature u

  ended-some :
      (failure : Handshake) (r : Option ℕ) (u : ℕ)
      → failure ≢ registered u
      → ended int_of ws_hmac rows now failure r ≡ registered u
      → r ≡ some u
  ended-some failure none u n e = absurd (n e)
  ended-some failure (some v) u n e = cc

  message-Authenticated :
      (h : Headers) (m : AuthMessage) (key text signature : Option ℕ) (u : ℕ)
      → m.is_auth ≡ true
      → m.api_key ≡ key
      → m.timestamp ≡ text
      → m.signature ≡ signature
      → from_message int_of ws_hmac rows now key text signature ≡ registered u
      → Authenticated h (message m) u
  message-Authenticated h m (some key) (some text) (some signature) u a k t s e = (
    key,
    text,
    signature,
    inr (m, refl, a, k, t, s),
    timed-Proven key text (int_of text) signature u refl (ended-some auth_failed _ u (λ x. cc) e),
  )
  message-Authenticated h m none text signature u a k t s e = absurd cc
  message-Authenticated h m (some key) none signature u a k t s e = absurd cc
  message-Authenticated h m (some key) (some text) none u a k t s e = absurd cc

  wait-Authenticated :
      (h : Headers) (i : Incoming) (u : ℕ)
      → wait_for_message int_of ws_hmac rows now i ≡ registered u
      → Authenticated h i u
  wait-Authenticated h (message m) u e = elim (Bool-cases m.is_auth) [
    | inl a ↦
        message-Authenticated h m m.api_key m.timestamp m.signature u a refl refl refl (rw a at e)
    | inr a ↦ absurd (ground (arith, a, e))
  ]
  wait-Authenticated h silence u e = absurd cc
  wait-Authenticated h disconnects u e = absurd cc

  headers-Authenticated :
      (h : Headers) (i : Incoming) (key text signature : Option ℕ) (u : ℕ)
      → h.x_api_key ≡ key
      → h.x_timestamp ≡ text
      → h.x_signature ≡ signature
      → from_ws_headers int_of ws_hmac rows now key text signature i ≡ registered u
      → Authenticated h i u
  headers-Authenticated h i (some key) (some text) (some signature) u k t s e = (
    key,
    text,
    signature,
    inl (k, t, s),
    timed-Proven key text (int_of text) signature u refl (ended-some header_error _ u (λ x. cc) e),
  )
  headers-Authenticated h i none text signature u k t s e = wait-Authenticated h i u e
  headers-Authenticated h i (some key) none signature u k t s e = wait-Authenticated h i u e
  headers-Authenticated h i (some key) (some text) none u k t s e = wait-Authenticated h i u e

  abbrev pub Opened : Headers → Incoming → ℕ → List Entry → Handshake × List Entry → Type 0
  Opened h i socket es r =
      ((u : ℕ) × Authenticated h i u × (r ≡ (registered u, connect socket u es))) ⊎ (r.1 ≡ es)

  handshake-cases :
      (s : Handshake)
      → ((u : ℕ) × (s ≡ registered u))
        ⊎ ((socket : ℕ) (es : List Entry) → registry_after int_of ws_hmac rows now s socket es ≡ es)
  handshake-cases (registered u) = inl (u, refl)
  handshake-cases auth_failed = inr (λ socket es. refl)
  handshake-cases auth_timeout = inr (λ socket es. refl)
  handshake-cases gone = inr (λ socket es. refl)
  handshake-cases header_error = inr (λ socket es. refl)

-- A private socket is registered for the owner of a key that is known and not revoked, on the HMAC of
-- the key and of a time within thirty seconds of the server's clock, from its headers or from its
-- first message; any other handshake leaves the registry as it was.
pub open_private-Opened :
    (int_of : ℕ → Option ℤ) (ws_hmac : ℕ → ℕ → ℤ → ℕ) (rows : List ApiKey) (now : ℕ) (h : Headers)
    (i : Incoming) (socket : ℕ) (es : List Entry)
    → Opened int_of ws_hmac rows now h i socket es
        (open_private int_of ws_hmac rows now h i socket es)
unfolding open_private handshake
open_private-Opened int_of ws_hmac rows now h i socket es =
    let s = from_ws_headers int_of ws_hmac rows now h.x_api_key h.x_timestamp h.x_signature i in
    elim (handshake-cases int_of ws_hmac rows now s) [
      | inl (u, e) ↦ inl (
        u,
        headers-Authenticated int_of ws_hmac rows now h i h.x_api_key h.x_timestamp h.x_signature u
            refl refl refl e,
        ap (λ t. (t, registry_after int_of ws_hmac rows now t socket es)) e,
      )
      | inr same ↦ inr (same socket es)
    ]
