-- ===== src/Redis/Score.antt =====
-- backend/app/redis_client/orderbook.py: the score of a resting order in the sorted set of its
-- side. Prices are in units of 10^-18. `to_double` is the conversion of a Python integer to a
-- double, which is the number itself up to 2^53.
use uvipystock.Prelude.{
  ℕ, ◌+◌, ◌-◌, ◌*◌, ◌/◌, ◌%◌, ltb, leb, ◌≤◌, ◌<◌, ◌≡◌, ◌⊎◌, arith, if◌then◌else◌, Option, none,
  some,
}
use uvipystock.Redis.Commands.{score_multiplier}

-- One step of the price in a score, 1 / `PRICE_SCALE`, in units.
abbrev pub price_step : ℕ
price_step = 100_000_000_000_000

-- The price above which `encode_score` raises, 9.2e9, in units.
abbrev pub max_price : ℕ
max_price = 9_200_000_000_000_000_000_000_000_000

-- Python's `round` of a quotient: to the nearest, and to the even one of two that are as near.
unfoldable pub round_div : ℕ → ℕ → ℕ
round_div a b =
    if ltb (2 * (a % b)) b
    then a / b
    else if ltb b (2 * (a % b))
    then a / b + 1
    else a / b + a / b % 2

-- `next_seq`, from the answer of INCR.
unfoldable pub next_seq : ℕ → ℕ
next_seq incr = incr % score_multiplier

module _ (to_double : ℕ → ℕ) where
  -- `encode_score`; ValueError is `none`.
  unfoldable pub encode_score : ℕ → ℕ → Option ℕ
  unfolding round_div
  encode_score price seq =
      if ltb max_price price
      then none
      else if leb score_multiplier seq
      then none
      else some (to_double (round_div price price_step * score_multiplier + seq))

-- `decode_score`: the price as a double, in units, and the sequence number.
unfoldable pub decode_score : ℕ → ℕ × ℕ
decode_score score =
    let price_int = score / score_multiplier in
    (price_int * price_step, score - price_int * score_multiplier)

-- The conversion is exact up to 2^53.
abbrev pub IsExact : (ℕ → ℕ) → Type 0
IsExact to_double = (n : ℕ) → n ≤ 9_007_199_254_740_992 → to_double n ≡ n

abbrev pub map_decode : Option ℕ → Option (ℕ × ℕ)
map_decode none = none
map_decode (some s) = some (decode_score s)

-- A price of at most four decimals, with a sequence number in range, is encoded where the result
-- is at most 2^53, and what is decoded is the price and the number.
pub decode-encode :
    (to_double : ℕ → ℕ) (k seq : ℕ)
    → IsExact to_double
    → seq < score_multiplier
    → k * score_multiplier + seq ≤ 9_007_199_254_740_992
    → map_decode (encode_score to_double (k * price_step) seq) ≡ some (k * price_step, seq)
unfolding encode_score round_div decode_score
decode-encode to_double k seq exact small fits =
    ground (arith, exact (k * score_multiplier + seq) fits)

score-encode :
    (to_double : ℕ → ℕ) (k seq s : ℕ)
    → IsExact to_double
    → k * score_multiplier + seq ≤ 9_007_199_254_740_992
    → encode_score to_double (k * price_step) seq ≡ some s
    → (s ≡ k * score_multiplier + seq) × (seq < score_multiplier)
unfolding encode_score round_div
score-encode to_double k seq s exact fits h =
    ground (arith, exact (k * score_multiplier + seq) fits)

-- Up to 2^53 the scores of prices of at most four decimals are ordered by the price, and at one
-- price by the sequence number, lowest first.
pub encode-order :
    (to_double : ℕ → ℕ) (k₁ k₂ seq₁ seq₂ s₁ s₂ : ℕ)
    → IsExact to_double
    → k₁ * score_multiplier + seq₁ ≤ 9_007_199_254_740_992
    → k₂ * score_multiplier + seq₂ ≤ 9_007_199_254_740_992
    → encode_score to_double (k₁ * price_step) seq₁ ≡ some s₁
    → encode_score to_double (k₂ * price_step) seq₂ ≡ some s₂
    → (k₁ < k₂) ⊎ ((k₁ ≡ k₂) × (seq₁ < seq₂))
    → s₁ < s₂
encode-order to_double k₁ k₂ seq₁ seq₂ s₁ s₂ exact f₁ f₂ e₁ e₂ h =
    let a = score-encode to_double k₁ seq₁ s₁ exact f₁ e₁ in
    let b = score-encode to_double k₂ seq₂ s₂ exact f₂ e₂ in ground arith
