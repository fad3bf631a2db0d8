-- ===== src/RateLimit/Race.antt =====
-- backend/app/redis_client/rate_limit.py: requests of one key that overlap. A request counts, and if it
-- is let through it adds itself later; others can count in between.
use uvipystock.Prelude.{ℕ, ◌+◌, ◌-◌, ◌≤◌, ◌≡◌, true, false, List, [], ◌∷◌, ◌++◌, length}
use uvipystock.RateLimit.Window.{TimeSet, evict, has_room}

module _ (S : TimeSet) where
  -- The set of a key, and the times of the requests that were let through and have not added
  -- themselves yet.
  pub record Bucket : Type 0 where
    pub members : S.Members
    pub waiting : List ℕ

  abbrev pub empty_bucket : Bucket
  empty_bucket = record { members = S.nothing; waiting = [] }

module _ (S : TimeSet) (window limit : ℕ) where
  -- A request counts and is let through, or counts and is turned away; or one that was let through
  -- adds itself, in any order.
  pub data Step (b : Bucket S) : Bucket S → Type 0 where
    let_through :
        (now : ℕ)
        → has_room S window b.members limit now ≡ true
        → Step b (record { members = evict S window b.members now; waiting = now ∷ b.waiting })
    turned_away :
        (now : ℕ)
        → has_room S window b.members limit now ≡ false
        → Step b (record { members = evict S window b.members now; waiting = b.waiting })
    added :
        (t : ℕ) (us vs : List ℕ)
        → b.waiting ≡ us ++ t ∷ vs
        → Step b (record { members = S.zadd b.members t; waiting = us ++ vs })

  -- Steps one after the other, with at most `k` requests waiting at a time.
  pub data Run (k : ℕ) : Bucket S → Type 0 where
    start : Run k (empty_bucket S)
    next : (b c : Bucket S) → Run k b → Step b c → length c.waiting ≤ k → Run k c

  -- What has been let through is at most the limit and those that can overlap with one request.
  abbrev pub Bounded : ℕ → Bucket S → Type 0
  Bounded k b = S.zcard b.members + length b.waiting ≤ limit + (k - 1)
