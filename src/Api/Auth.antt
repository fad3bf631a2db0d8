-- ===== src/Api/Auth.antt =====
-- backend/app/api/deps.py: the authentication of a request, with `verify_signature` of
-- core/security.py and the lookup of api_key_repo.py. Texts are numbers, and an empty header is an
-- absent one. `int_of` is Python's `int` on a text, and `hmac` the hex digest of HMAC-SHA256 under a
-- secret. The permissions are a list, as PostgreSQL stores them.
use uvipystock.Prelude.{
  ℕ, ◌+◌, ◌-◌, ◌==◌, ltb, Bool, true, false, not, ◌||◌, if◌then◌else◌, List, [], ◌∷◌, Option, none,
  some,
}
use uvipystock.Prelude.Int.{ℤ, pos, negsuc}
use uvipystock.RateLimit.Window.{TimeSet, Enforced, enforce_rate_limit}
use uvipystock.Api.Errors.{AppError}

pub data Permission : Type 0 where
  trade read ws : Permission

-- `ApiKey`, without its label and dates that nothing reads.
pub record ApiKey : Type 0 where
  pub id : ℕ
  pub user_id : ℕ
  pub api_key : ℕ
  pub secret_hash : ℕ
  pub permissions : List Permission
  pub rate_limit_per_min : ℕ
  pub is_revoked : Bool
  pub expires_at : Option ℕ

pub record Headers : Type 0 where
  pub x_api_key : Option ℕ
  pub x_timestamp : Option ℕ
  pub x_signature : Option ℕ

pub record Request : Type 0 where
  pub method : ℕ
  pub path : ℕ
  pub body : ℕ

-- What `compute_signature` signs.
pub record Payload : Type 0 where
  pub request : Request
  pub timestamp : ℤ

-- What `request.state` holds after the authentication.
pub record RequestState : Type 0 where
  pub api_key : ℕ
  pub user_id : ℕ
  pub api_key_id : ℕ
  pub permissions : List Permission
  pub rate_limit : Enforced

pub data Auth : Type 0 where
  granted : RequestState → Auth
  denied : AppError → Auth

-- `get_by_api_key`; the key is unique.
unfoldable pub get_by_api_key : List ApiKey → ℕ → Option ApiKey
get_by_api_key [] key = none
get_by_api_key (row ∷ rows) key = if row.api_key == key then some row else get_by_api_key rows key

-- `hmac_replay_window_seconds`, as configured by default.
abbrev pub replay_window : ℕ
replay_window = 30

-- `abs(now - timestamp) > replay_window_seconds`
abbrev pub is_stale : ℕ → ℤ → Bool
is_stale now (pos t) = ltb replay_window (now - t) || ltb replay_window (t - now)
is_stale now (negsuc n) = ltb replay_window (now + n + 1)

-- The same key's bucket; the others' stay.
abbrev pub set_bucket : {M : Type 0} → ℕ → M → (ℕ → M) → ℕ → M
set_bucket key z buckets k = if k == key then z else buckets k

module _ (int_of : ℕ → Option ℤ) (hmac : ℕ → Payload → ℕ) where
  -- `verify_signature`
  unfoldable pub verify_signature : ℕ → Request → ℤ → ℕ → ℕ → Bool
  verify_signature secret request timestamp provided now =
      if is_stale now timestamp
      then false
      else hmac secret (record { request = request; timestamp = timestamp }) == provided

  module _ (S : TimeSet) (request : Request) (seconds now : ℕ) where
    abbrev state_of : ApiKey → Enforced → RequestState
    state_of row e = record {
      api_key = row.api_key;
      user_id = row.user_id;
      api_key_id = row.id;
      permissions = row.permissions;
      rate_limit = e;
    }

    -- The last step, which alone writes.
    unfoldable pub limit_row : ApiKey → (ℕ → S.Members) → Auth × (ℕ → S.Members)
    unfolding enforce_rate_limit
    limit_row row buckets =
        let r = enforce_rate_limit S (buckets row.api_key) row.rate_limit_per_min now in
        (
          if r.1.is_exceeded
              then denied AppError.rate_limit_exceeded
              else granted (state_of row r.1),
          set_bucket row.api_key r.0 buckets,
        )

    unfoldable pub check_row : Option ApiKey → ℤ → ℕ → (ℕ → S.Members) → Auth × (ℕ → S.Members)
    unfolding verify_signature limit_row
    check_row none timestamp signature buckets = (denied AppError.missing_api_key, buckets)
    check_row (some row) timestamp signature buckets =
        if row.is_revoked
        then (denied AppError.revoked_api_key, buckets)
        else if not (verify_signature row.secret_hash request timestamp signature seconds)
        then (denied AppError.invalid_signature, buckets)
        else limit_row row buckets

    unfoldable pub check_timestamp :
        List ApiKey → ℕ → Option ℤ → ℕ → (ℕ → S.Members) → Auth × (ℕ → S.Members)
    unfolding check_row get_by_api_key
    check_timestamp rows key none signature buckets = (denied AppError.expired_timestamp, buckets)
    check_timestamp rows key (some timestamp) signature buckets =
        check_row (get_by_api_key rows key) timestamp signature buckets

    abbrev pub from_headers :
        List ApiKey → Option ℕ → Option ℕ → Option ℕ → (ℕ → S.Members) → Auth × (ℕ → S.Members)
    from_headers rows (some key) (some timestamp) (some signature) buckets =
        check_timestamp rows key (int_of timestamp) signature buckets
    from_headers rows _ _ _ buckets = (denied AppError.missing_api_key, buckets)

    -- `authenticate_request`; the stamp of the last use is left out.
    unfoldable pub authenticate_request :
        List ApiKey → Headers → (ℕ → S.Members) → Auth × (ℕ → S.Members)
    unfolding check_timestamp
    authenticate_request rows h buckets =
        from_headers rows h.x_api_key h.x_timestamp h.x_signature buckets

abbrev same_permission : Permission → Permission → Bool
same_permission trade trade = true
same_permission read read = true
same_permission ws ws = true
same_permission _ _ = false

abbrev pub has_permission : Permission → List Permission → Bool
has_permission perm [] = false
has_permission perm (p ∷ ps) = same_permission perm p || has_permission perm ps

-- `require_permission`: the error, or none.
unfoldable pub require_permission : Permission → RequestState → Option AppError
require_permission perm state =
    if has_permission perm state.permissions then none else some AppError.insufficient_permissions
