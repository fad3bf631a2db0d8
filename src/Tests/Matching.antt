-- ===== src/Tests/Matching.antt =====
-- The matcher and the worker's book on a side of three makers.
use uvipystock.Prelude.{ℕ, ◌≡◌, ◌≤◌, refl, arith, true, false, List, [], ◌∷◌, some, All}
use uvipystock.Enums.{buy, sell}
use uvipystock.Exec.{Result}
use uvipystock.Orders.Validate.{MakerOrder}
use uvipystock.Engine.Double.{round_double}
use uvipystock.Engine.Book.{Level, Engine, empty_engine}
use uvipystock.Engine.Match.{Taker, CType, match_side, trades_cap}
use uvipystock.Engine.Match
use uvipystock.Engine.Round.{IsWellFormed, IsExact}
use uvipystock.Engine.Walk.{side_load, WithinLimit}
use uvipystock.Engine.Results.{
  Conserves, Settled, match_side-Conserves, match_side-WithinLimit, rest_uncrossed,
}
use uvipystock.Engine.FillOrKill.{AllOrNone, fok_filled_or_rejected}
use uvipystock.Worker.Place.{load_makers}
use uvipystock.Worker.Load.{load_makers_ready}

abbrev asks : List Level
asks =
    record {
      price = 100;
      nodes =
          record { order_id = 1; remaining_qty = 5; visible_qty = 5; is_iceberg = false }
          ∷ record { order_id = 2; remaining_qty = 4; visible_qty = 1; is_iceberg = true }
          ∷ [];
      total_volume = 9;
      order_count = 2;
    }
    ∷ record {
      price = 110;
      nodes =
          record { order_id = 3; remaining_qty = 10; visible_qty = 10; is_iceberg = false } ∷ [];
      total_volume = 10;
      order_count = 1;
    }
    ∷ []

asks_sound : All IsWellFormed asks
asks_sound = (
  record { count = refl; live = (omega arith, (omega arith, tt)) },
  (record { count = refl; live = (omega arith, tt) }, tt),
)

asks-exact : All IsExact asks
asks-exact = (
  record { volume = refl; small = omega arith },
  (record { volume = refl; small = omega arith }, tt),
)

asks-room : side_load asks ≤ trades_cap
asks-room = omega arith

abbrev taker : CType → ℕ → ℕ → Taker
taker type price quantity = record {
  order_id = 9;
  side = buy;
  type = type;
  price = some price;
  quantity = quantity;
}

runs : (match_side (taker CType.limit 105 12) asks).remaining ≡ 3
unfolding match_side round_double
runs = refl

match_side-Conserves_example :
    Conserves (taker CType.limit 105 12) asks (match_side (taker CType.limit 105 12) asks)
match_side-Conserves_example =
    match_side-Conserves (taker CType.limit 105 12) asks asks_sound asks-exact (omega arith)
      asks-room

match_side-WithinLimit_example :
    WithinLimit buy (some 105) (match_side (taker CType.limit 105 12) asks).fills
match_side-WithinLimit_example = match_side-WithinLimit (taker CType.limit 105 12) asks

outcome_ok : (match_side (taker CType.limit 105 12) asks).outcome ≡ Match.Outcome.ok
unfolding match_side round_double
outcome_ok = refl

rest_uncrossed_example :
    Settled (taker CType.limit 105 12) (match_side (taker CType.limit 105 12) asks)
rest_uncrossed_example =
    rest_uncrossed (taker CType.limit 105 12) asks 105 refl asks_sound asks-room outcome_ok

fok_filled_or_rejected_example :
    AllOrNone (taker CType.fok 110 15) asks (match_side (taker CType.fok 110 15) asks)
fok_filled_or_rejected_example =
    fok_filled_or_rejected (taker CType.fok 110 15) asks refl asks_sound asks-exact (omega arith)
      (omega arith) asks-room

abbrev makers : List MakerOrder
makers =
    record {
      order_id = 1;
      side = sell;
      price = 100;
      quantity = 5;
      visible_quantity = 5;
      hidden_quantity = 0;
      is_iceberg = false;
    }
    ∷ record {
      order_id = 2;
      side = sell;
      price = 100;
      quantity = 9;
      visible_quantity = 2;
      hidden_quantity = 7;
      is_iceberg = true;
    }
    ∷ []

load_makers_ready_example :
    (e : Engine) × (load_makers makers empty_engine ≡ Result.ok e)
    × All IsWellFormed e.bids
    × All IsWellFormed e.asks
    × (side_load e.bids ≤ trades_cap)
    × (side_load e.asks ≤ trades_cap)
load_makers_ready_example = load_makers_ready makers (omega arith, (omega arith, tt)) (omega arith)

-- Asks of 0.03 and 0.04 in units of 2^-60: a fill-or-kill order of 0.07 passes the pre-check, and
-- the differences leave it with 8 units.
abbrev cents : List Level
cents =
    record {
      price = 100;
      nodes =
          record {
            order_id = 1;
            remaining_qty = 34_587_645_138_205_408;
            visible_qty = 34_587_645_138_205_408;
            is_iceberg = false;
          }
          ∷ record {
            order_id = 2;
            remaining_qty = 46_116_860_184_273_880;
            visible_qty = 46_116_860_184_273_880;
            is_iceberg = false;
          }
          ∷ [];
      total_volume = 80_704_505_322_479_296;
      order_count = 2;
    }
    ∷ []

dust_left : (match_side (taker CType.fok 100 80_704_505_322_479_296) cents).remaining ≡ 8
unfolding match_side round_double
dust_left = refl
