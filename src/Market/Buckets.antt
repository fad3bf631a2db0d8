-- ===== src/Market/Buckets.antt =====
-- backend/app/api/v1/trades.py: what the candles are to be, bucket by bucket, and what
-- the loop makes of ordered trades.
use uvipystock.Prelude.{
  ℕ, suc, ◌+◌, ◌≤◌, ◌<◌, max, min, ◌==◌, ◌≡◌, refl, ap, ◌∙◌, arith, if◌then◌else◌, Bool-cases, inl,
  inr, List, [], ◌∷◌, ◌++◌, All, Option, none, some, sum_by, append_assoc,
}
use uvipystock.Market.Candles.{
  PublicTrade, Candle, bucket_of, start_candle, update_candle, add_trade, aggregate,
}

-- The trades of one bucket, in their order.
abbrev pub in_bucket : ℕ → ℕ → List PublicTrade → List PublicTrade
in_bucket seconds b [] = []
in_bucket seconds b (t ∷ ts) =
    let rest = in_bucket seconds b ts in if bucket_of seconds t == b then t ∷ rest else rest

abbrev pub highest : ℕ → List PublicTrade → ℕ
highest h [] = h
highest h (t ∷ ts) = highest (max h t.price) ts

abbrev pub lowest : ℕ → List PublicTrade → ℕ
lowest l [] = l
lowest l (t ∷ ts) = lowest (min l t.price) ts

abbrev pub last_price : ℕ → List PublicTrade → ℕ
last_price p [] = p
last_price p (t ∷ ts) = last_price t.price ts

abbrev quantity_of : PublicTrade → ℕ
quantity_of t = t.quantity

-- A candle with more trades of its bucket.
abbrev pub with_trades : Candle → List PublicTrade → Candle
with_trades c ts = record c {
  high = highest c.high ts;
  low = lowest c.low ts;
  close = last_price c.close ts;
  volume = c.volume + sum_by quantity_of ts;
}

-- The first, highest, lowest and last price of the trades, and the sum of their quantities.
abbrev pub ohlcv : ℕ → List PublicTrade → Option Candle
ohlcv b [] = none
ohlcv b (t ∷ ts) = some (record {
  time = b;
  open_price = t.price;
  high = highest t.price ts;
  low = lowest t.price ts;
  close = last_price t.price ts;
  volume = t.quantity + sum_by quantity_of ts;
})

-- The candle of a time.
abbrev pub candle_at : ℕ → List Candle → Option Candle
candle_at b [] = none
candle_at b (c ∷ cs) = if c.time == b then some c else candle_at b cs

-- By time, the earliest first.
abbrev pub Ascending : List PublicTrade → Type 0
Ascending [] = Unit
Ascending (t ∷ ts) = All (λ (u : PublicTrade). t.executed_at ≤ u.executed_at) ts × Ascending ts

abbrev pub Increasing : List Candle → Type 0
Increasing [] = Unit
Increasing (c ∷ cs) = All (λ (d : Candle). c.time < d.time) cs × Increasing cs

-- The candles that are still to come, from the current one.
abbrev pub to_come : ℕ → Candle → List PublicTrade → List Candle
to_come seconds c [] = c ∷ []
to_come seconds c (t ∷ ts) =
    let same = to_come seconds (update_candle c t) ts in
    let next = to_come seconds (start_candle (bucket_of seconds t) t) ts in
    if bucket_of seconds t == c.time then same else c ∷ next

module _ (seconds : ℕ) where
  pub aggregate-some :
      (ts : List PublicTrade) (cs : List Candle) (c : Candle)
      → aggregate seconds ts (record { candles = cs; current_candle = some c })
        ≡ cs ++ to_come seconds c ts
  unfolding aggregate add_trade
  aggregate-some [] cs c = refl
  aggregate-some (t ∷ ts) cs c = elim (Bool-cases (bucket_of seconds t == c.time)) [
    | inl e ↦ rw (e) (aggregate-some ts cs (update_candle c t))
    | inr e ↦ rw (e) (
        aggregate-some ts (cs ++ c ∷ []) (start_candle (bucket_of seconds t) t)
        ∙ append_assoc cs (c ∷ []) (to_come seconds (start_candle (bucket_of seconds t) t) ts))
  ]

  -- Every trade to come is in the bucket of the time, or later.
  unfoldable pub From : ℕ → List PublicTrade → Type 0
  From b ts = All (λ (t : PublicTrade). b ≤ bucket_of seconds t) ts

  unfoldable pub Ordered : List PublicTrade → Type 0
  Ordered [] = Unit
  Ordered (t ∷ ts) = From (bucket_of seconds t) ts × Ordered ts

  From-le : (a b : ℕ) (ts : List PublicTrade) → a ≤ b → From b ts → From a ts
  unfolding From
  From-le a b [] h f = tt
  From-le a b (t ∷ ts) h f = (omega (arith, f.0), From-le a b ts h f.1)

  in_bucket-before : (b : ℕ) (ts : List PublicTrade) → From (suc b) ts → in_bucket seconds b ts ≡ []
  unfolding From
  in_bucket-before b [] f = refl
  in_bucket-before b (t ∷ ts) f = ground (arith, in_bucket-before b ts f.1, f.0)

  to_come-All :
      (b : ℕ) (c : Candle) (ts : List PublicTrade)
      → b ≤ c.time
      → From b ts
      → All (λ (d : Candle). b ≤ d.time) (to_come seconds c ts)
  unfolding From start_candle update_candle
  to_come-All b c [] h f = (h, tt)
  to_come-All b c (t ∷ ts) h f = elim (Bool-cases (bucket_of seconds t == c.time)) [
    | inl e ↦ rw (e) (to_come-All b (update_candle c t) ts h f.1)
    | inr e ↦ rw (e) (h, to_come-All b (start_candle (bucket_of seconds t) t) ts f.0 f.1)
  ]

  pub to_come-Increasing :
      (c : Candle) (ts : List PublicTrade)
      → From c.time ts
      → Ordered ts
      → Increasing (to_come seconds c ts)
  unfolding From Ordered start_candle update_candle
  to_come-Increasing c [] f o = (tt, tt)
  to_come-Increasing c (t ∷ ts) f o = elim (Bool-cases (bucket_of seconds t == c.time)) [
    | inl e ↦ rw (e) (to_come-Increasing (update_candle c t) ts f.1 o.1)
    | inr e ↦ rw (e) (
        (
          to_come-All (suc c.time) (start_candle (bucket_of seconds t) t) ts
              (ground (arith, f.0, e))
              (From-le (suc c.time) (bucket_of seconds t) ts (ground (arith, f.0, e)) o.0),
          to_come-Increasing (start_candle (bucket_of seconds t) t) ts o.0 o.1,
        ))
  ]

  with_trades-more :
      (c : Candle) (t : PublicTrade) (ts : List PublicTrade)
      → with_trades (update_candle c t) ts ≡ with_trades c (t ∷ ts)
  unfolding update_candle
  with_trades-more c t ts =
      ap
        (λ v. record c {
          high = highest (max c.high t.price) ts;
          low = lowest (min c.low t.price) ts;
          close = last_price t.price ts;
          volume = v;
        })
        (omega arith)

  with_trades-nil : (c : Candle) → with_trades c [] ≡ c
  with_trades-nil c = ap (λ v. record c { volume = v }) (omega arith)

  candle_at-to_come :
      (b : ℕ) (c : Candle) (ts : List PublicTrade)
      → From c.time ts
      → Ordered ts
      → candle_at b (to_come seconds c ts) ≡ (
          if c.time == b
          then some (with_trades c (in_bucket seconds b ts))
          else ohlcv b (in_bucket seconds b ts))
  unfolding From Ordered start_candle update_candle
  candle_at-to_come b c [] f o = ground (arith, with_trades-nil c)
  candle_at-to_come b c (t ∷ ts) f o = elim (Bool-cases (bucket_of seconds t == c.time)) [
    | inl e ↦ ground (
      arith,
      e,
      candle_at-to_come b (update_candle c t) ts f.1 o.1,
      with_trades-more c t (in_bucket seconds b ts),
    )
    | inr e ↦ ground (
      arith,
      e,
      f.0,
      candle_at-to_come b (start_candle (bucket_of seconds t) t) ts o.0 o.1,
      in_bucket-before b ts,
      From-le (suc b) (bucket_of seconds t) ts,
      o.0,
      with_trades-nil c,
    )
  ]

  -- From the first trade on.
  pub to_come-first :
      (b : ℕ) (t : PublicTrade) (ts : List PublicTrade)
      → From (bucket_of seconds t) ts
      → Ordered ts
      → candle_at b (to_come seconds (start_candle (bucket_of seconds t) t) ts)
        ≡ ohlcv b (in_bucket seconds b (t ∷ ts))
  unfolding start_candle
  to_come-first b t ts f o =
      ground (arith, candle_at-to_come b (start_candle (bucket_of seconds t) t) ts f o)
