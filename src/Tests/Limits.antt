-- ===== src/Tests/Limits.antt =====
-- The rate limiter over a sorted set that is a list of times.
use uvipystock.Prelude.{
  ℕ, ◌+◌, ◌*◌, ◌≡◌, ◌≤◌, refl, arith, true, false, List, [], ◌∷◌, ◌++◌, length, length-append,
}
use uvipystock.RateLimit.Window.{TimeSet, later, first, second, check_and_consume}
use uvipystock.RateLimit.Log.{recent, admitted}
use uvipystock.RateLimit.Laws.{step, allowed, allowed_lem, allowed_bound}
use uvipystock.RateLimit.Retry.{retry_succeeds}
use uvipystock.RateLimit.Race.{Bucket}

pub one_more : (z : List ℕ) (t : ℕ) → length (z ++ t ∷ []) ≤ length z + 1
one_more z t = omega (arith, length-append z (t ∷ []))

abbrev pub times : TimeSet
times = record {
  Members = List ℕ;
  nothing = [];
  scores = λ z. z;
  zremrangebyscore = λ z bound. later bound z;
  zcard = λ z. length z;
  zadd = λ z t. z ++ t ∷ [];
  zrange_first = λ z. first z;
  scores-nothing = refl;
  scores-zremrangebyscore = λ z bound. refl;
  zcard_lem = λ z. refl;
  scores-zadd = λ z t h. refl;
  zcard-zadd = λ z t. one_more z t;
  zrange_first_lem = λ z. refl;
}

abbrev requests : List ℕ
requests = 70_000_000 ∷ 80_000_000 ∷ 90_000_000 ∷ 131_000_000 ∷ []

two_a_minute : allowed times 60 2 [] requests ≡ 70_000_000 ∷ 80_000_000 ∷ 131_000_000 ∷ []
unfolding allowed check_and_consume
two_a_minute = refl

allowed_lem_example : allowed times 60 2 [] requests ≡ admitted 60 2 [] requests
allowed_lem_example =
    allowed_lem times 60 2 requests (omega arith)
      (omega arith, (omega arith, (omega arith, (omega arith, tt))))

allowed_bound_example : length (recent 60 131_000_000 (allowed times 60 2 [] requests)) ≤ 2
allowed_bound_example =
    allowed_bound times 60 2 131_000_000 requests (omega arith)
      (omega arith, (omega arith, (omega arith, (omega arith, tt))))
      (omega arith, (omega arith, (omega arith, (omega arith, tt))))

abbrev full : List ℕ
full = 70_000_000 ∷ 80_000_000 ∷ []

rejected : (step times 60 2 full 90_000_000).1.is_allowed ≡ false
unfolding check_and_consume
rejected = refl

retry_succeeds_example :
    let (kept, answer) = step times 60 2 full 90_000_000 in
    (step times 60 2 kept (90_000_000 + answer.retry_after * second)).1.is_allowed ≡ true
retry_succeeds_example =
    retry_succeeds times 60 2 90_000_000 full (omega arith) (omega arith) rejected

-- With a limit of one, two requests count before either adds itself, and both are let through.
abbrev both : Bucket times
both = record { members = []; waiting = 71_000_000 ∷ 70_000_000 ∷ [] }

abbrev one_waits : Bucket times
one_waits = record { members = []; waiting = 70_000_000 ∷ [] }
