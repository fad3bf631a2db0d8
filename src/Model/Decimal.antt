-- ===== src/Model/Decimal.antt =====
-- Python's `Decimal` as the columns `Numeric(36, 18)` hold it: a natural number of units of
-- 10^-18. A product is exact in Python, and PostgreSQL rounds it half up to that scale; where a
-- pair's two precisions add up to at most 18 there is nothing to round.
use uvipystock.Prelude.{ℕ, ◌+◌, ◌*◌, ◌/◌, ◌^◌, Option, none, some}

unfoldable pub unit : ℕ
unit = 10 ^ 18

-- The nearest whole number to a quotient.
abbrev pub half_up : ℕ → ℕ → ℕ
half_up n d = (2 * n + d) / (2 * d)

unfoldable pub mul : ℕ → ℕ → ℕ
unfolding unit
mul a b = half_up (a * b) unit

-- `x or Decimal("0")`
abbrev pub or_zero : Option ℕ → ℕ
or_zero none = 0
or_zero (some x) = x

-- The factor `Decimal("1.001")` of the market-buy estimate, on a cost that is an exact sum of
-- products, in units of 10^-36.
unfoldable pub with_buffer : ℕ → ℕ
unfolding unit
with_buffer cost = half_up (cost * 1_001) (1_000 * unit)
