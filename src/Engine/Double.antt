-- ===== src/Engine/Double.antt =====
-- C doubles, as the matcher adds and subtracts them. A finite double that is not negative is a
-- natural number of units, where the unit is a power of two of which all doubles at hand are
-- multiples, such as 2^-1074. The rounding is to 53 significant bits, half to even, and does not
-- depend on the unit; overflow to infinity is left out.
use uvipystock.Prelude.{
  ℕ, zero, suc, ◌+◌, ◌-◌, ◌*◌, ◌/◌, ◌%◌, ◌<◌, ◌≡◌, refl, ltb, lt→ltb, if◌then◌else◌, Bool, true,
}

-- 2^53: below it every whole number of units is a double.
abbrev pub mantissa_end : ℕ
mantissa_end = 9_007_199_254_740_992

-- The distance of the doubles near a number; 2^1024 is 2^2098 units of 2^-1074.
spacing : ℕ → ℕ → ℕ
spacing zero n = 1
spacing (suc fuel) n = let rest = 2 * spacing fuel (n / 2) in if ltb n mantissa_end then 1 else rest

abbrev half_even : ℕ → ℕ → ℕ → ℕ
half_even q r u = if ltb (2 * r) u then q else if ltb u (2 * r) then q + 1 else q + q % 2

unfoldable pub round_double : ℕ → ℕ
unfolding spacing
round_double n =
    let u = spacing 2_100 n in if ltb n mantissa_end then n else half_even (n / u) (n % u) u * u

-- The sum and the difference of two doubles; no difference in the matcher is below zero.
abbrev pub fadd : ℕ → ℕ → ℕ
fadd a b = round_double (a + b)

abbrev pub fsub : ℕ → ℕ → ℕ
fsub a b = round_double (a - b)

pub round_double_zero : round_double 0 ≡ 0
unfolding round_double
round_double_zero = refl

when_true : (b : Bool) (x y : ℕ) → b ≡ true → (if b then x else y) ≡ x
when_true b x y h = rw h refl

pub round_double_small : (n : ℕ) → n < mantissa_end → round_double n ≡ n
unfolding round_double
round_double_small n h = when_true _ n _ (lt→ltb n mantissa_end h)

-- A tie goes to the even neighbour.
tie_down : round_double 9_007_199_254_740_993 ≡ 9_007_199_254_740_992
unfolding round_double
tie_down = refl

tie_up : round_double 9_007_199_254_740_995 ≡ 9_007_199_254_740_996
unfolding round_double
tie_up = refl
