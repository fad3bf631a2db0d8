-- ===== src/Market/Candles.antt =====
-- backend/app/api/v1/trades.py: the candles of a symbol. The trades are those that the query
-- returned, by ascending time; a time is in microseconds since the epoch.
use uvipystock.Prelude.{
  ℕ, zero, suc, ◌+◌, ◌-◌, ◌*◌, ◌/◌, max, min, ◌==◌, ltb, if◌then◌else◌, Bool, true, not, List, [],
  ◌∷◌, ◌++◌, Option, none, some, length,
}

pub record PublicTrade : Type 0 where
  pub executed_at : ℕ
  pub price : ℕ
  pub quantity : ℕ

pub record Candle : Type 0 where
  pub time : ℕ
  pub open_price : ℕ
  pub high : ℕ
  pub low : ℕ
  pub close : ℕ
  pub volume : ℕ

pub data Timeframe : Type 0 where
  one_minute five_minutes fifteen_minutes one_hour four_hours one_day other_timeframe : Timeframe

-- `tf_map.get(timeframe, 60)`
abbrev pub tf_seconds : Timeframe → ℕ
tf_seconds one_minute = 60
tf_seconds five_minutes = 300
tf_seconds fifteen_minutes = 900
tf_seconds one_hour = 3_600
tf_seconds four_hours = 14_400
tf_seconds one_day = 86_400
tf_seconds other_timeframe = 60

-- The first second of the trade's bucket.
unfoldable pub bucket_of : ℕ → PublicTrade → ℕ
bucket_of seconds t = t.executed_at / 1_000_000 / seconds * seconds

unfoldable pub start_candle : ℕ → PublicTrade → Candle
start_candle bucket t = record {
  time = bucket;
  open_price = t.price;
  high = t.price;
  low = t.price;
  close = t.price;
  volume = t.quantity;
}

unfoldable pub update_candle : Candle → PublicTrade → Candle
update_candle c t = record c {
  high = max c.high t.price;
  low = min c.low t.price;
  close = t.price;
  volume = c.volume + t.quantity;
}

-- The loop's variables; `current_bucket` is the time of `current_candle`.
pub record Building : Type 0 where
  pub candles : List Candle
  pub current_candle : Option Candle

-- `trade` is another bucket's than the current candle.
abbrev pub new_bucket : ℕ → Option Candle → Bool
new_bucket bucket none = true
new_bucket bucket (some c) = not (bucket == c.time)

abbrev pub append_current : Option Candle → List Candle → List Candle
append_current none cs = cs
append_current (some c) cs = cs ++ c ∷ []

abbrev pub update_current : PublicTrade → Option Candle → Option Candle
update_current t none = none
update_current t (some c) = some (update_candle c t)

-- The body of the loop.
unfoldable pub add_trade : ℕ → PublicTrade → Building → Building
add_trade seconds t b =
    let bucket = bucket_of seconds t in
    if new_bucket bucket b.current_candle
    then record {
      candles = append_current b.current_candle b.candles;
      current_candle = some (start_candle bucket t);
    }
    else record b { current_candle = update_current t b.current_candle }

unfoldable pub aggregate : ℕ → List PublicTrade → Building → List Candle
aggregate seconds [] b = append_current b.current_candle b.candles
aggregate seconds (t ∷ ts) b = aggregate seconds ts (add_trade seconds t b)

abbrev pub drop_first : ℕ → List Candle → List Candle
drop_first n [] = []
drop_first zero (c ∷ cs) = c ∷ cs
drop_first (suc n) (c ∷ cs) = drop_first n cs

-- `candles[-n:]`, which is all of them for `n` zero.
abbrev pub last_of : ℕ → List Candle → List Candle
last_of n cs = if n == 0 then cs else drop_first (length cs - n) cs

unfoldable pub most_recent : ℕ → List Candle → List Candle
most_recent limit cs = if ltb limit (length cs) then last_of limit cs else cs

unfoldable pub get_candles : Timeframe → ℕ → List PublicTrade → List Candle
get_candles timeframe limit trades =
    most_recent limit
      (aggregate (tf_seconds timeframe) trades (record { candles = []; current_candle = none }))
