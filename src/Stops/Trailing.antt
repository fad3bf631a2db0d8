-- ===== src/Stops/Trailing.antt =====
-- backend/app/redis_client/stops.py: `update_trailing_extremes`. A percentage is a `Decimal` too,
-- in units of 10^-18; a trigger below zero can come out, so triggers are whole numbers. The source
-- computes in doubles; here nothing is rounded to 53 bits.
use uvipystock.Prelude.{ℕ, ◌*◌, ◌/◌, ltb, if◌then◌else◌, List, [], ◌∷◌, ◌++◌, Option, none, some}
use uvipystock.Prelude.Int.{ℤ, pos, pos_part, neg_part, ◌+ℤ◌, ◌-ℤ◌}
use uvipystock.Enums.{OrderSide, buy, sell}
use uvipystock.Model.Decimal.{mul}
use uvipystock.Redis.{
  Command, zadd, hset_trigger, trailing_key, trailing_state_key, score_multiplier,
}

pub data DeltaType : Type 0 where
  pct abs : DeltaType

-- The fields of the state HASH that the update reads.
pub record Trailing : Type 0 where
  pub side : OrderSide
  pub delta_type : DeltaType
  pub delta_value : ℕ
  pub current_extreme : ℕ

-- The distance of the trigger from the extreme.
unfoldable pub delta : DeltaType → ℕ → ℕ → ℕ
delta pct value extreme = mul extreme value / 100
delta abs value extreme = value

unfoldable pub trigger_at : Trailing → ℕ → ℤ
unfolding delta
trigger_at t extreme = elim t.side [
  | sell ↦ pos extreme -ℤ pos (delta t.delta_type t.delta_value extreme)
  | buy ↦ pos extreme +ℤ pos (delta t.delta_type t.delta_value extreme)
]

-- Whether the price is beyond the extreme, on the order's side.
abbrev pub beyond : OrderSide → ℕ → Option ℕ → Option ℕ → Option ℕ
beyond sell extreme none low = none
beyond sell extreme (some high) low = if ltb extreme high then some high else none
beyond buy extreme high none = none
beyond buy extreme high (some low) = if ltb low extreme then some low else none

-- One round of the loop: the new extreme and the new trigger, if they move.
unfoldable pub update_trailing : Trailing → Option ℕ → Option ℕ → Option (ℕ × ℤ)
unfolding trigger_at
update_trailing t high low = elim (beyond t.side t.current_extreme high low) [
  | none ↦ none
  | some extreme ↦ some (extreme, trigger_at t extreme)
]

-- A trigger times the multiplier.
abbrev pub scale : ℤ → ℤ
scale trigger =
    pos (pos_part trigger * score_multiplier) -ℤ pos (neg_part trigger * score_multiplier)

abbrev pub trigger_commands : ℕ → ℕ → Option (ℕ × ℤ) → List Command
trigger_commands symbol id none = []
trigger_commands symbol id (some (extreme, trigger)) =
    zadd (trailing_key symbol) id (scale trigger)
    ∷ hset_trigger (trailing_state_key id) extreme trigger
    ∷ []

-- `update_trailing_extremes`, on the members of the set and the states that Redis returned.
unfoldable pub update_trailing_extremes :
    ℕ → List (ℕ × Option Trailing) → Option ℕ → Option ℕ → List Command
unfolding update_trailing
update_trailing_extremes symbol [] high low = []
update_trailing_extremes symbol ((id, none) ∷ ms) high low =
    update_trailing_extremes symbol ms high low
update_trailing_extremes symbol ((id, some t) ∷ ms) high low =
    trigger_commands symbol id (update_trailing t high low)
    ++ update_trailing_extremes symbol ms high low
