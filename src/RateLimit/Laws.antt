-- ===== src/RateLimit/Laws.antt =====
-- backend/app/redis_client/rate_limit.py: what the limiter lets through.
use uvipystock.Prelude.{
  ℕ, ◌-◌, ◌*◌, ◌≤◌, ◌<◌, ◌≡◌, refl, ap, sym, subst, ◌∙◌, arith, ltb, leb, true, false,
  if◌then◌else◌, List, [], ◌∷◌, ◌++◌, length, All, All-append, Bool-cases, inl, inr,
}
use uvipystock.RateLimit.Window.{second, TimeSet, Checked, evict, check_and_consume}
use uvipystock.RateLimit.Log.{
  recent, admitted, Increasing, NotAfter, recent-recent, All-recent, later-recent, recent_all,
  recent_more, admitted_bound,
}

module _ (S : TimeSet) (window limit : ℕ) where
  -- The requests of a sequence, one after the other, and those that are allowed.
  abbrev pub step : S.Members → ℕ → S.Members × Checked
  step z now = check_and_consume S window z limit now

  unfoldable pub allowed : S.Members → List ℕ → List ℕ
  allowed z [] = []
  allowed z (t ∷ ts) =
      let rest = allowed (step z t).0 ts in if (step z t).1.is_allowed then t ∷ rest else rest

  -- The set holds what is recent of the log.
  record Holds (last : ℕ) (log : List ℕ) (z : S.Members) : Type 0 where
    kept : S.scores z ≡ recent window last log
    past : NotAfter last log

  pub scores-evict :
      (z : S.Members) (now : ℕ) → S.scores (evict S window z now) ≡ recent window now (S.scores z)
  scores-evict z now = elim (Bool-cases (leb (window * second) now)) [
    | inl e ↦ rw e (
        S.scores-zremrangebyscore z (now - window * second)
        ∙ later-recent window now (S.scores z) (ground arith))
    | inr e ↦ rw e (sym (recent_all window now (S.scores z) (ground arith)))
  ]

  kept_now :
      (last now : ℕ) (log : List ℕ) (z : S.Members)
      → Holds last log z
      → last ≤ now
      → S.scores (evict S window z now) ≡ recent window now log
  kept_now last now log z h le =
      scores-evict z now
      ∙ ap (λ (ts : List ℕ). recent window now ts) h.kept
      ∙ recent-recent window last now log le

  count_now :
      (last now : ℕ) (log : List ℕ) (z : S.Members)
      → Holds last log z
      → last ≤ now
      → S.zcard (evict S window z now) ≡ length (recent window now log)
  count_now last now log z h le =
      S.zcard_lem (evict S window z now) ∙ ap length (kept_now last now log z h le)

  pub step_allowed :
      (z : S.Members) (now : ℕ)
      → ltb (S.zcard (evict S window z now)) limit ≡ true
      → ((step z now).0 ≡ S.zadd (evict S window z now) now) × ((step z now).1.is_allowed ≡ true)
  unfolding check_and_consume
  step_allowed z now e = (rw e refl, rw e refl)

  pub step_rejected :
      (z : S.Members) (now : ℕ)
      → ltb (S.zcard (evict S window z now)) limit ≡ false
      → ((step z now).0 ≡ evict S window z now) × ((step z now).1.is_allowed ≡ false)
  unfolding check_and_consume
  step_rejected z now e = (rw e refl, rw e refl)

  not_after : (last now : ℕ) (ts : List ℕ) → last ≤ now → NotAfter last ts → NotAfter now ts
  not_after last now [] h n = tt
  not_after last now (t ∷ ts) h n = (omega arith, not_after last now ts h n.1)

  before_now :
      (last now : ℕ) (ts : List ℕ) → last < now → NotAfter last ts → All (λ (t : ℕ). t < now) ts
  before_now last now [] h n = tt
  before_now last now (t ∷ ts) h n = (omega arith, before_now last now ts h n.1)

  zadd-Holds :
      (last now : ℕ) (log : List ℕ) (z : S.Members)
      → 0 < window
      → Holds last log z
      → last < now
      → Holds now (log ++ now ∷ []) (S.zadd (evict S window z now) now)
  zadd-Holds last now log z w h lt =
      let k = kept_now last now log z h (omega arith) in
      let old : All (λ (t : ℕ). t < now) (S.scores (evict S window z now)) =
        subst (All (λ (t : ℕ). t < now)) (sym k)
          (All-recent (λ (t : ℕ). t < now) window now log (before_now last now log lt h.past)) in
      record {
        kept =
            S.scores-zadd (evict S window z now) now old
            ∙ ap (λ (ts : List ℕ). ts ++ now ∷ []) k
            ∙ sym (recent_more window now log w);
        past =
            All-append (λ (t : ℕ). t ≤ now) log (now ∷ [])
              (not_after last now log (omega arith) h.past) (omega arith, tt);
      }

  evict-Holds :
      (last now : ℕ) (log : List ℕ) (z : S.Members)
      → Holds last log z
      → last < now
      → Holds now log (evict S window z now)
  evict-Holds last now log z h lt = record {
    kept = kept_now last now log z h (omega arith);
    past = not_after last now log (omega arith) h.past;
  }

  allowed-admitted :
      (last : ℕ) (log : List ℕ) (z : S.Members) (ts : List ℕ)
      → 0 < window
      → Holds last log z
      → Increasing last ts
      → allowed z ts ≡ admitted window limit log ts
  unfolding allowed admitted
  allowed-admitted last log z [] w h i = refl
  allowed-admitted last log z (t ∷ ts) w h i =
      let c = count_now last t log z h (omega arith) in
      elim (Bool-cases (ltb (length (recent window t log)) limit)) [
        | inl e ↦
            let s = step_allowed z t (rw c e) in
            rw (s.0, s.1, e)
              (ap (λ (us : List ℕ). t ∷ us)
                (allowed-admitted t (log ++ t ∷ []) (S.zadd (evict S window z t) t) ts w
                  (zadd-Holds last t log z w h i.0) i.1))
        | inr e ↦
            let s = step_rejected z t (rw c e) in
            rw (s.0, s.1, e)
              (allowed-admitted t log (evict S window z t) ts w (evict-Holds last t log z h i.0)
                i.1)
      ]

  nothing-Holds : Holds 0 [] S.nothing
  nothing-Holds = record { kept = S.scores-nothing; past = tt }

-- For requests one after the other, none counted between the ZCARD and the ZADD of another, at
-- increasing times, after the epoch, on an empty bucket: those that are allowed are those of the
-- specification: the ones with fewer than the limit of allowed requests in the window
-- before them.
pub allowed_lem :
    (S : TimeSet) (window limit : ℕ) (ts : List ℕ)
    → 0 < window
    → Increasing 0 ts
    → allowed S window limit S.nothing ts ≡ admitted window limit [] ts
allowed_lem S window limit ts w i =
    allowed-admitted S window limit 0 [] S.nothing ts w (nothing-Holds S window limit) i

-- For requests one after the other, none counted between the ZCARD and the ZADD of another, at
-- increasing times, after the epoch, on an empty bucket: at no moment from the last of them on are
-- there more allowed requests in the window than the limit.
pub allowed_bound :
    (S : TimeSet) (window limit now : ℕ) (ts : List ℕ)
    → 0 < window
    → Increasing 0 ts
    → NotAfter now ts
    → length (recent window now (allowed S window limit S.nothing ts)) ≤ limit
allowed_bound S window limit now ts w i n =
    rw (allowed_lem S window limit ts w i)
      (admitted_bound window limit 0 now [] ts w (omega arith) i (omega arith, n))
