-- ===== src/RateLimit/Log.antt =====
-- backend/app/redis_client/rate_limit.py: the sliding window as a log of the requests that were
-- allowed, which is never cut.
use uvipystock.Prelude.{
  ℕ, ◌+◌, ◌-◌, ◌*◌, ◌≤◌, ◌<◌, ◌≡◌, refl, ap, subst, ◌∙◌, arith, ltb, true, false, if◌then◌else◌,
  List, [], ◌∷◌, ◌++◌, length, length-append, append_assoc, append-nil, All, Bool-cases, inl, inr,
}
use uvipystock.RateLimit.Window.{second, later}

-- The times that are still in the window of a moment.
abbrev pub recent : ℕ → ℕ → List ℕ → List ℕ
recent window now [] = []
recent window now (t ∷ ts) =
    if ltb now (t + window * second) then t ∷ recent window now ts else recent window now ts

-- The requests that the specification allows, after those of a log.
unfoldable pub admitted : ℕ → ℕ → List ℕ → List ℕ → List ℕ
admitted window limit log [] = []
admitted window limit log (t ∷ ts) =
    let next = t ∷ admitted window limit (log ++ t ∷ []) ts in
    let rest = admitted window limit log ts in
    if ltb (length (recent window t log)) limit then next else rest

-- Each time is after the one before.
abbrev pub Increasing : ℕ → List ℕ → Type 0
Increasing last [] = Unit
Increasing last (t ∷ ts) = (last < t) × Increasing t ts

abbrev pub NotAfter : ℕ → List ℕ → Type 0
NotAfter now ts = All (λ (t : ℕ). t ≤ now) ts

pub recent-append :
    (window now : ℕ) (ts us : List ℕ)
    → recent window now (ts ++ us) ≡ recent window now ts ++ recent window now us
recent-append window now [] us = refl
recent-append window now (t ∷ ts) us = elim (Bool-cases (ltb now (t + window * second))) [
  | inl e ↦ rw e (ap (λ (rs : List ℕ). t ∷ rs) (recent-append window now ts us))
  | inr e ↦ rw e (recent-append window now ts us)
]

-- What has left the window stays out.
pub recent-recent :
    (window before now : ℕ) (ts : List ℕ)
    → before ≤ now
    → recent window now (recent window before ts) ≡ recent window now ts
recent-recent window before now [] h = refl
recent-recent window before now (t ∷ ts) h = elim (Bool-cases (ltb before (t + window * second))) [
  | inl e ↦ rw e (elim (Bool-cases (ltb now (t + window * second))) [
    | inl f ↦ rw f (ap (λ (rs : List ℕ). t ∷ rs) (recent-recent window before now ts h))
    | inr f ↦ rw f (recent-recent window before now ts h)
  ])
  | inr e ↦
      let f : ltb now (t + window * second) ≡ false = ground arith in
      rw e (rw f (recent-recent window before now ts h))
]

pub recent-le :
    (window before now : ℕ) (ts : List ℕ)
    → before ≤ now
    → length (recent window now ts) ≤ length (recent window before ts)
recent-le window before now [] h = omega arith
recent-le window before now (t ∷ ts) h = ground (arith, recent-le window before now ts h)

pub length-recent : (window now : ℕ) (ts : List ℕ) → length (recent window now ts) ≤ length ts
length-recent window now [] = omega arith
length-recent window now (t ∷ ts) = ground (arith, length-recent window now ts)

pub All-recent :
    (P : ℕ → Type 0) (window now : ℕ) (ts : List ℕ) → All P ts → All P (recent window now ts)
All-recent P window now [] h = tt
All-recent P window now (t ∷ ts) h = elim (Bool-cases (ltb now (t + window * second))) [
  | inl e ↦ rw e (h.0, All-recent P window now ts h.1)
  | inr e ↦ rw e (All-recent P window now ts h.1)
]

pub later-recent :
    (window now : ℕ) (ts : List ℕ)
    → window * second ≤ now
    → later (now - window * second) ts ≡ recent window now ts
later-recent window now [] h = refl
later-recent window now (t ∷ ts) h = elim (Bool-cases (ltb now (t + window * second))) [
  | inl e ↦
      let f : ltb (now - window * second) t ≡ true = ground arith in
      rw e (rw f (ap (λ (rs : List ℕ). t ∷ rs) (later-recent window now ts h)))
  | inr e ↦
      let f : ltb (now - window * second) t ≡ false = ground arith in
      rw e (rw f (later-recent window now ts h))
]

pub recent_all : (window now : ℕ) (ts : List ℕ) → now < window * second → recent window now ts ≡ ts
recent_all window now [] h = refl
recent_all window now (t ∷ ts) h =
    let e : ltb now (t + window * second) ≡ true = ground arith in
    rw e (ap (λ (rs : List ℕ). t ∷ rs) (recent_all window now ts h))

-- A time is in its own window.
pub recent_self : (window now : ℕ) → 0 < window → recent window now (now ∷ []) ≡ now ∷ []
recent_self window now h =
    let e : ltb now (now + window * second) ≡ true = ground arith in rw e refl

pub recent_more :
    (window now : ℕ) (ts : List ℕ)
    → 0 < window
    → recent window now (ts ++ now ∷ []) ≡ recent window now ts ++ now ∷ []
recent_more window now ts h =
    recent-append window now ts (now ∷ [])
    ∙ ap (λ (us : List ℕ). recent window now ts ++ us) (recent_self window now h)

pub length-recent_more :
    (window now : ℕ) (ts : List ℕ)
    → 0 < window
    → length (recent window now (ts ++ now ∷ [])) ≡ length (recent window now ts) + 1
length-recent_more window now ts h = omega (
  arith,
  ap length (recent_more window now ts h),
  length-append (recent window now ts) (now ∷ []),
)

-- In no window are there more admitted requests than the limit.
pub admitted_bound :
    (window limit last now : ℕ) (log ts : List ℕ)
    → 0 < window
    → length (recent window last log) ≤ limit
    → Increasing last ts
    → NotAfter now (last ∷ ts)
    → length (recent window now (log ++ admitted window limit log ts)) ≤ limit
unfolding admitted
admitted_bound window limit last now log [] w h i n =
    rw (append-nil log) (omega (arith, recent-le window last now log n.0))
admitted_bound window limit last now log (t ∷ ts) w h i n =
    elim (Bool-cases (ltb (length (recent window t log)) limit)) [
      | inl e ↦ rw e (
          subst (λ (us : List ℕ). length (recent window now us) ≤ limit)
            (append_assoc log (t ∷ []) (admitted window limit (log ++ t ∷ []) ts))
            (admitted_bound window limit t now (log ++ t ∷ []) ts w
              (ground (arith, length-recent_more window t log w)) i.1 n.1))
      | inr e ↦ rw e (
          admitted_bound window limit t now log ts w
            (omega (arith, recent-le window last t log (omega arith))) i.1 n.1)
    ]
