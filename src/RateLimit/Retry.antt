-- ===== src/RateLimit/Retry.antt =====
-- backend/app/redis_client/rate_limit.py: the time after which a rejected request is told to retry.
use uvipystock.Prelude.{
  ℕ, ◌+◌, ◌*◌, ◌≤◌, ◌<◌, ◌≡◌, refl, ap, ◌∙◌, arith, ltb, true, false, List, ◌∷◌, length, Bool-cases,
  List-cases, inl, inr, some,
}
use uvipystock.RateLimit.Window.{second, first, TimeSet, evict, check_and_consume, retry_after_of}
use uvipystock.RateLimit.Log.{recent, length-recent}
use uvipystock.RateLimit.Laws.{step, scores-evict, step_allowed, step_rejected}

retry_past :
    (window now oldest : ℕ)
    → oldest + window * second ≤ now + retry_after_of window now (some oldest) * second
unfolding retry_after_of
retry_past window now oldest = ground arith

module _ (S : TimeSet) (window limit : ℕ) where
  retry_of :
      (z : S.Members) (now : ℕ)
      → ltb (S.zcard (evict S window z now)) limit ≡ false
      → (step S window limit z now).1.retry_after
        ≡ retry_after_of window now (first (S.scores (evict S window z now)))
  unfolding check_and_consume
  retry_of z now e =
      rw e (ap (retry_after_of window now) (S.zrange_first_lem (evict S window z now)))

  rejected_full :
      (z : S.Members) (now : ℕ)
      → (step S window limit z now).1.is_allowed ≡ false
      → ltb (S.zcard (evict S window z now)) limit ≡ false
  rejected_full z now r = elim (Bool-cases (ltb (S.zcard (evict S window z now)) limit)) [
    | inl e ↦ absurd (ground (arith, (step_allowed S window limit z now e).1))
    | inr e ↦ e
  ]

  -- A full set whose first entry has left the window has room.
  room_at :
      (z : S.Members) (now s : ℕ) (rest : List ℕ)
      → S.scores z ≡ s ∷ rest
      → s + window * second ≤ now
      → length (S.scores z) ≤ limit
      → (step S window limit z now).1.is_allowed ≡ true
  room_at z now s rest e past small =
      let gone : ltb now (s + window * second) ≡ false = ground arith in
      let left : recent window now (s ∷ rest) ≡ recent window now rest = rw gone refl in
      let scores : S.scores (evict S window z now) ≡ recent window now rest =
        scores-evict S window limit z now ∙ ap (recent window now) e ∙ left in
      (step_allowed S window limit z now (
        ground (
          arith,
          S.zcard_lem (evict S window z now),
          ap length scores,
          length-recent window now rest,
          ap length e,
        ))).1

-- A bucket that holds at most `limit` requests, with a limit above zero, and rejects a request:
-- where nothing happens in the meantime, the request that comes after the seconds that it was told
-- to wait is allowed.
pub retry_succeeds :
    (S : TimeSet) (window limit now : ℕ) (z : S.Members)
    → 0 < limit
    → length (S.scores z) ≤ limit
    → (step S window limit z now).1.is_allowed ≡ false
    → let (kept, answer) = step S window limit z now in
      (step S window limit kept (now + answer.retry_after * second)).1.is_allowed ≡ true
retry_succeeds S window limit now z pos small r =
    let full = rejected_full S window limit z now r in
    let kept : S.Members = evict S window z now in
    let same = (step_rejected S window limit z now full).0 in
    let told = retry_of S window limit z now full in
    let fits : length (S.scores kept) ≤ limit = omega (
      arith,
      ap length (scores-evict S window limit z now),
      length-recent window now (S.scores z),
    ) in
    elim (List-cases (S.scores kept)) [
      | inl e ↦ absurd (ground (arith, S.zcard_lem kept, ap length e))
      | inr (s, rest, e) ↦
          let wait = told ∙ ap (λ (ts : List ℕ). retry_after_of window now (first ts)) e in
          rw (same, wait)
            (room_at S window limit kept (now + retry_after_of window now (some s) * second) s rest
              e (retry_past window now s) fits)
    ]
