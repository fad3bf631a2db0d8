-- ===== src/Market/Aggregate.antt =====
-- backend/app/api/v1/trades.py: the candles that are returned.
use uvipystock.Prelude.{
  ℕ, zero, suc, ◌-◌, ◌≤◌, ◌<◌, ◌≡◌, refl, sym, ap, subst, arith, ltb, Bool-cases, ◌⊎◌, inl, inr,
  List, [], ◌∷◌, ◌++◌, All, none, length,
}
use uvipystock.Market.Candles.{
  PublicTrade, Candle, Timeframe, tf_seconds, bucket_of, start_candle, add_trade, aggregate,
  drop_first, most_recent, get_candles,
}
use uvipystock.Market.Buckets.{
  in_bucket, ohlcv, candle_at, Ascending, Increasing, to_come, From, Ordered, aggregate-some,
  to_come-Increasing, to_come-first,
}

aggregate-none :
    (seconds : ℕ) (t : PublicTrade) (ts : List PublicTrade)
    → aggregate seconds (t ∷ ts) (record { candles = []; current_candle = none })
      ≡ to_come seconds (start_candle (bucket_of seconds t) t) ts
unfolding aggregate add_trade
aggregate-none seconds t ts = aggregate-some seconds ts [] (start_candle (bucket_of seconds t) t)

bucket_mono :
    (f : Timeframe) (t u : PublicTrade)
    → t.executed_at ≤ u.executed_at
    → bucket_of (tf_seconds f) t ≤ bucket_of (tf_seconds f) u
unfolding bucket_of
bucket_mono Timeframe.one_minute t u h = omega arith
bucket_mono Timeframe.five_minutes t u h = omega arith
bucket_mono Timeframe.fifteen_minutes t u h = omega arith
bucket_mono Timeframe.one_hour t u h = omega arith
bucket_mono Timeframe.four_hours t u h = omega arith
bucket_mono Timeframe.one_day t u h = omega arith
bucket_mono Timeframe.other_timeframe t u h = omega arith

From-later :
    (f : Timeframe) (t : PublicTrade) (ts : List PublicTrade)
    → All (λ (u : PublicTrade). t.executed_at ≤ u.executed_at) ts
    → From (tf_seconds f) (bucket_of (tf_seconds f) t) ts
unfolding From
From-later f t [] a = tt
From-later f t (u ∷ us) a = (bucket_mono f t u a.0, From-later f t us a.1)

Ordered-Ascending :
    (f : Timeframe) (ts : List PublicTrade) → Ascending ts → Ordered (tf_seconds f) ts
unfolding Ordered
Ordered-Ascending f [] a = tt
Ordered-Ascending f (t ∷ ts) a = (From-later f t ts a.0, Ordered-Ascending f ts a.1)

-- What the bucket's candles are to be, for a list of candles.
abbrev pub IsComplete : ℕ → List PublicTrade → List Candle → Type 0
IsComplete seconds trades cs =
    Increasing cs × ((b : ℕ) → candle_at b cs ≡ ohlcv b (in_bucket seconds b trades))

aggregate-IsComplete :
    (f : Timeframe) (ts : List PublicTrade)
    → Ascending ts
    → IsComplete
        (tf_seconds f)
        ts
        (aggregate (tf_seconds f) ts (record { candles = []; current_candle = none }))
unfolding aggregate start_candle Ordered
aggregate-IsComplete f [] a = (tt, λ b. refl)
aggregate-IsComplete f (t ∷ ts) a =
    let c = start_candle (bucket_of (tf_seconds f) t) t in
    let o = Ordered-Ascending f (t ∷ ts) a in
    subst (IsComplete (tf_seconds f) (t ∷ ts)) (sym (aggregate-none (tf_seconds f) t ts)) (
      to_come-Increasing (tf_seconds f) c ts o.0 o.1,
      λ b. to_come-first (tf_seconds f) b t ts o.0 o.1,
    )

abbrev take_first : ℕ → List Candle → List Candle
take_first zero cs = []
take_first (suc n) [] = []
take_first (suc n) (c ∷ cs) = c ∷ take_first n cs

take-drop : (n : ℕ) (cs : List Candle) → take_first n cs ++ drop_first n cs ≡ cs
take-drop zero [] = refl
take-drop zero (c ∷ cs) = refl
take-drop (suc n) [] = refl
take-drop (suc n) (c ∷ cs) = ap (λ ds. c ∷ ds) (take-drop n cs)

drop-length : (n : ℕ) (cs : List Candle) → length (drop_first n cs) ≡ length cs - n
drop-length zero [] = omega arith
drop-length zero (c ∷ cs) = omega arith
drop-length (suc n) [] = omega arith
drop-length (suc n) (c ∷ cs) = omega (arith, drop-length n cs)

-- All candles, of which the last `limit` are shown.
abbrev pub Shown : ℕ → List Candle → List Candle → Type 0
Shown limit all cs =
    (older : List Candle) × (older ++ cs ≡ all)
    × (length cs ≤ limit)
    × ((older ≡ []) ⊎ (length cs ≡ limit))

most_recent-Shown :
    (limit : ℕ) (cs : List Candle) → 0 < limit → Shown limit cs (most_recent limit cs)
unfolding most_recent
most_recent-Shown limit cs h =
    let n = length cs - limit in
    elim (Bool-cases (ltb limit (length cs))) [
      | inl e ↦ subst (Shown limit cs) (ground (arith, e)) (
        take_first n cs,
        take-drop n cs,
        ground (arith, drop-length n cs, e),
        inr (ground (arith, drop-length n cs, e)),
      )
      | inr e ↦ subst (Shown limit cs) (ground (arith, e)) ([], refl, ground (arith, e), inl refl)
    ]

-- The trades in ascending order make candles in ascending order, with every bucket that has a trade
-- represented by its first, highest, lowest and last price and the sum of its quantities, and no
-- other bucket. What is returned is all of them, or the last `limit`.
pub get_candles-Shown :
    (f : Timeframe) (limit : ℕ) (trades : List PublicTrade)
    → Ascending trades
    → 0 < limit
    → (all : List Candle) × IsComplete (tf_seconds f) trades all
      × Shown limit all (get_candles f limit trades)
unfolding get_candles
get_candles-Shown f limit trades a h = (
  aggregate (tf_seconds f) trades (record { candles = []; current_candle = none }),
  aggregate-IsComplete f trades a,
  most_recent-Shown limit _ h,
)
