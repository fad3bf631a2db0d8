-- ===== src/Api/Admitted.antt =====
-- backend/app/api/deps.py: what is known of a request that is let through.
use uvipystock.Prelude.{
  ℕ, ltb, ◌<◌, ◌≡◌, inl, inr, refl, ap, sym, ◌∙◌, arith, Bool, true, false, not, if◌then◌else◌,
  List, Option, none, some, Bool-cases, ltb→lt, ==→eq,
}
use uvipystock.Prelude.Int.{ℤ}
use uvipystock.RateLimit.Window.{TimeSet, evict, enforce_rate_limit, check_and_consume}
use uvipystock.Api.Errors.{AppError}
use uvipystock.Api.Auth.{
  ApiKey, Headers, Request, Payload, RequestState, Auth, granted, denied, get_by_api_key, is_stale,
  verify_signature, limit_row, check_row, check_timestamp, from_headers, authenticate_request,
}

module _ (int_of : ℕ → Option ℤ) (hmac : ℕ → Payload → ℕ) (S : TimeSet) (request : Request)
    (seconds now : ℕ) where
  -- The key is in use, the signature is that of the request under the key's secret, made within the
  -- replay window, and the key has been let through less often than its limit in the last minute.
  pub record Authentic (rows : List ApiKey) (h : Headers) (buckets : ℕ → S.Members) (user_id : ℕ)
      : Type 0 where
    pub row : ApiKey
    pub key : ℕ
    pub text : ℕ
    pub timestamp : ℤ
    pub signature : ℕ
    pub has_key : h.x_api_key ≡ some key
    pub has_timestamp : h.x_timestamp ≡ some text
    pub has_signature : h.x_signature ≡ some signature
    pub is_number : int_of text ≡ some timestamp
    pub found : get_by_api_key rows key ≡ some row
    pub in_use : row.is_revoked ≡ false
    pub fresh : is_stale seconds timestamp ≡ false
    pub signed :
        hmac row.secret_hash (record { request = request; timestamp = timestamp }) ≡ signature
    pub within_limit : S.zcard (evict S 60 (buckets row.api_key) now) < row.rate_limit_per_min
    pub same_user : user_id ≡ row.user_id

  abbrev user_of : Auth → ℕ
  user_of (granted state) = state.user_id
  user_of (denied e) = 0

  limit_open :
      (row : ApiKey) (buckets : ℕ → S.Members)
      → ltb (S.zcard (evict S 60 (buckets row.api_key) now)) row.rate_limit_per_min ≡ true
      → user_of (limit_row int_of hmac S request seconds now row buckets).0 ≡ row.user_id
  unfolding limit_row enforce_rate_limit check_and_consume
  limit_open row buckets room = rw room refl

  limit_full :
      (row : ApiKey) (buckets : ℕ → S.Members)
      → ltb (S.zcard (evict S 60 (buckets row.api_key) now)) row.rate_limit_per_min ≡ false
      → (limit_row int_of hmac S request seconds now row buckets).0
        ≡ denied AppError.rate_limit_exceeded
  unfolding limit_row enforce_rate_limit check_and_consume
  limit_full row buckets full = rw full refl

  not_granted :
      (e : AppError) (a : Auth) (state : RequestState) → a ≡ denied e → a ≡ granted state → ⊥
  not_granted e a state h k = cc

  limit_granted :
      (row : ApiKey) (buckets : ℕ → S.Members) (state : RequestState)
      → (limit_row int_of hmac S request seconds now row buckets).0 ≡ granted state
      → (S.zcard (evict S 60 (buckets row.api_key) now) < row.rate_limit_per_min)
        × (state.user_id ≡ row.user_id)
  limit_granted row buckets state e =
      elim (Bool-cases
        (ltb (S.zcard (evict S 60 (buckets row.api_key) now)) row.rate_limit_per_min)) [
          | inl room ↦ (ltb→lt _ _ room, sym (ap user_of e) ∙ limit_open row buckets room)
          | inr full ↦ absurd (not_granted _ _ state (limit_full row buckets full) e)
        ]

  verified :
      (secret : ℕ) (timestamp : ℤ) (signature : ℕ)
      → verify_signature int_of hmac secret request timestamp signature seconds ≡ true
      → (is_stale seconds timestamp ≡ false)
        × (hmac secret (record { request = request; timestamp = timestamp }) ≡ signature)
  unfolding verify_signature
  verified secret timestamp signature v = elim (Bool-cases (is_stale seconds timestamp)) [
    | inl stale ↦ absurd (ground (arith, v))
    | inr fresh ↦ (fresh, ==→eq _ _ (ground (arith, v, fresh)))
  ]

  guard :
      (b : Bool) (e : AppError) (buckets : ℕ → S.Members) (rest : Auth × (ℕ → S.Members))
      (state : RequestState)
      → (if b then (denied e, buckets) else rest).0 ≡ granted state
      → (b ≡ false) × (rest.0 ≡ granted state)
  guard true e buckets rest state h = absurd (not_granted e _ state refl h)
  guard false e buckets rest state h = (refl, h)

  negated : (b : Bool) → not b ≡ false → b ≡ true
  negated true h = refl
  negated false h = absurd (cc)

  Authentic-row :
      (rows : List ApiKey) (h : Headers) (buckets : ℕ → S.Members) (state : RequestState)
      (found : Option ApiKey) (key text signature : ℕ) (timestamp : ℤ)
      → h.x_api_key ≡ some key
      → h.x_timestamp ≡ some text
      → h.x_signature ≡ some signature
      → int_of text ≡ some timestamp
      → get_by_api_key rows key ≡ found
      → (check_row int_of hmac S request seconds now found timestamp signature buckets).0
        ≡ granted state
      → Authentic rows h buckets state.user_id
  unfolding check_row
  Authentic-row rows h buckets state none key text signature timestamp k t s n f e =
      absurd (not_granted _ _ state refl e)
  Authentic-row rows h buckets state (some row) key text signature timestamp k t s n f e =
      let used = guard row.is_revoked _ _ _ state e in
      let signed =
        guard
          (not (verify_signature int_of hmac row.secret_hash request timestamp signature seconds)) _
          _ (limit_row int_of hmac S request seconds now row buckets) state used.1 in
      let v = verified row.secret_hash timestamp signature (negated _ signed.0) in
      let l = limit_granted row buckets state signed.1 in
      record {
        row = row;
        key = key;
        text = text;
        timestamp = timestamp;
        signature = signature;
        has_key = k;
        has_timestamp = t;
        has_signature = s;
        is_number = n;
        found = f;
        in_use = used.0;
        fresh = v.0;
        signed = v.1;
        within_limit = l.0;
        same_user = l.1;
      }

  Authentic-time :
      (rows : List ApiKey) (h : Headers) (buckets : ℕ → S.Members) (state : RequestState)
      (key text signature : ℕ) (parsed : Option ℤ)
      → h.x_api_key ≡ some key
      → h.x_timestamp ≡ some text
      → h.x_signature ≡ some signature
      → int_of text ≡ parsed
      → (check_timestamp int_of hmac S request seconds now rows key parsed signature buckets).0
        ≡ granted state
      → Authentic rows h buckets state.user_id
  unfolding check_timestamp
  Authentic-time rows h buckets state key text signature none k t s n e =
      absurd (not_granted _ _ state refl e)
  Authentic-time rows h buckets state key text signature (some timestamp) k t s n e =
      Authentic-row rows h buckets state (get_by_api_key rows key) key text signature timestamp k t
        s n refl e

  Authentic-headers :
      (rows : List ApiKey) (h : Headers) (buckets : ℕ → S.Members) (state : RequestState)
      (key text signature : Option ℕ)
      → h.x_api_key ≡ key
      → h.x_timestamp ≡ text
      → h.x_signature ≡ signature
      → (from_headers int_of hmac S request seconds now rows key text signature buckets).0
        ≡ granted state
      → Authentic rows h buckets state.user_id
  Authentic-headers rows h buckets state (some key) (some text) (some signature) k t s e =
      Authentic-time rows h buckets state key text signature (int_of text) k t s refl e
  Authentic-headers rows h buckets state none text signature k t s e =
      absurd (not_granted _ _ state refl e)
  Authentic-headers rows h buckets state (some key) none signature k t s e =
      absurd (not_granted _ _ state refl e)
  Authentic-headers rows h buckets state (some key) (some text) none k t s e =
      absurd (not_granted _ _ state refl e)

-- A request that is let through names a key that is known and not revoked, and carries the HMAC of
-- its method, path, body and timestamp under that key's stored secret; the timestamp is at most
-- thirty seconds from the server's clock, the key has been let through less often than its limit in
-- the minute before, and the user is the key's.
pub granted-Authentic :
    (int_of : ℕ → Option ℤ) (hmac : ℕ → Payload → ℕ) (S : TimeSet) (request : Request)
    (seconds now : ℕ) (rows : List ApiKey) (h : Headers) (buckets : ℕ → S.Members)
    (state : RequestState)
    → (authenticate_request int_of hmac S request seconds now rows h buckets).0 ≡ granted state
    → Authentic int_of hmac S request seconds now rows h buckets state.user_id
unfolding authenticate_request
granted-Authentic int_of hmac S request seconds now rows h buckets state e =
    Authentic-headers int_of hmac S request seconds now rows h buckets state h.x_api_key
      h.x_timestamp h.x_signature refl refl refl e
