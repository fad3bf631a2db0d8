-- ===== src/RateLimit/Window.antt =====
-- backend/app/redis_client/rate_limit.py and core/rate_limit.py. The sorted set of a key is an
-- interface: its members are times in microseconds, each with itself as its score. The key's time to
-- live is longer than the window, so that it ends only where the set holds nothing that counts.
use uvipystock.Prelude.{
  ℕ, ◌+◌, ◌-◌, ◌*◌, ◌/◌, ◌≤◌, ◌<◌, ◌≡◌, ltb, leb, Bool, true, false, if◌then◌else◌, List, [], ◌∷◌,
  ◌++◌, Option, none, some, length, All,
}

abbrev pub second : ℕ
second = 1_000_000

-- The times after a bound.
abbrev pub later : ℕ → List ℕ → List ℕ
later bound [] = []
later bound (t ∷ ts) = if ltb bound t then t ∷ later bound ts else later bound ts

abbrev pub first : List ℕ → Option ℕ
first [] = none
first (t ∷ ts) = some t

-- ZREMRANGEBYSCORE from 0, ZCARD, ZADD, and ZRANGE of the first, with what Redis documents of them.
-- `scores` is what ZRANGE of the whole set lists, lowest first.
pub record TimeSet : Type 1 where
  pub Members : Type 0
  pub nothing : Members
  pub scores : Members → List ℕ
  pub zremrangebyscore : Members → ℕ → Members
  pub zcard : Members → ℕ
  pub zadd : Members → ℕ → Members
  pub zrange_first : Members → Option ℕ
  pub scores-nothing : scores nothing ≡ []
  pub scores-zremrangebyscore :
      (z : Members) (bound : ℕ) → scores (zremrangebyscore z bound) ≡ later bound (scores z)
  pub zcard_lem : (z : Members) → zcard z ≡ length (scores z)
  pub scores-zadd :
      (z : Members) (t : ℕ)
      → All (λ (s : ℕ). s < t) (scores z)
      → scores (zadd z t) ≡ scores z ++ t ∷ []
  pub zcard-zadd : (z : Members) (t : ℕ) → zcard (zadd z t) ≤ zcard z + 1
  pub zrange_first_lem : (z : Members) → zrange_first z ≡ first (scores z)

-- What `check_and_consume` returns; `RateLimitResult` is whether it is allowed.
pub record Checked : Type 0 where
  pub is_allowed : Bool
  pub current_count : ℕ
  pub retry_after : ℕ

abbrev max : ℕ → ℕ → ℕ
max a b = if leb a b then b else a

-- The seconds until the oldest entry leaves the window, and one more.
unfoldable pub retry_after_of : ℕ → ℕ → Option ℕ → ℕ
retry_after_of window now none = 1
retry_after_of window now (some oldest) = max 1 ((oldest + window * second - now) / second + 1)

module _ (S : TimeSet) (window : ℕ) where
  -- A window that begins before the epoch evicts nothing.
  abbrev pub evict : S.Members → ℕ → S.Members
  evict z now =
      if leb (window * second) now then S.zremrangebyscore z (now - window * second) else z

  -- The count of the pipeline is below the limit.
  abbrev pub has_room : S.Members → ℕ → ℕ → Bool
  has_room z limit now = ltb (S.zcard (evict z now)) limit

  -- The pipeline, and then, in a second call of Redis, the ZADD. Here no other request of the key comes
  -- between the two; RateLimit/Race has them apart.
  unfoldable pub check_and_consume : S.Members → ℕ → ℕ → S.Members × Checked
  unfolding retry_after_of
  check_and_consume z limit now =
      let kept = evict z now in
      let count = S.zcard kept in
      if has_room z limit now
      then (
        S.zadd kept now,
        record { is_allowed = true; current_count = count + 1; retry_after = 0 },
      )
      else (
        kept,
        record {
          is_allowed = false;
          current_count = count;
          retry_after = retry_after_of window now (S.zrange_first kept);
        },
      )

  unfoldable pub get_current_count : S.Members → ℕ → S.Members × ℕ
  get_current_count z now = (evict z now, S.zcard (evict z now))

-- `reset`
abbrev pub reset_bucket : (S : TimeSet) → S.Members → S.Members
reset_bucket S z = S.nothing

-- What `enforce_rate_limit` leaves on the request, and whether it raises RateLimitExceededError.
pub record Enforced : Type 0 where
  pub limit : ℕ
  pub remaining : ℕ
  pub retry_after : ℕ
  pub is_exceeded : Bool

abbrev enforced : ℕ → Checked → Enforced
enforced limit c = record {
  limit = limit;
  remaining = limit - c.current_count;
  retry_after = if c.is_allowed then 0 else c.retry_after;
  is_exceeded = if c.is_allowed then false else true;
}

-- The window is that of the default argument, a minute.
unfoldable pub enforce_rate_limit : (S : TimeSet) → S.Members → ℕ → ℕ → S.Members × Enforced
unfolding check_and_consume
enforce_rate_limit S z limit now =
    let r = check_and_consume S 60 z limit now in (r.0, enforced limit r.1)
