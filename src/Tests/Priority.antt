-- ===== src/Tests/Priority.antt =====
-- The matcher and the worker's book against the specification of price-time priority.
use uvipystock.Prelude.{
  ℕ, ◌+◌, ◌*◌, ◌≡◌, ◌≤◌, ◌<◌, refl, arith, true, false, List, [], ◌∷◌, Option, none, some, All, map,
  if◌then◌else◌, ◌==◌,
}
use uvipystock.Enums.{buy, sell}
use uvipystock.Exec.{Result}
use uvipystock.Engine.Book.{Level, Engine, empty_engine}
use uvipystock.Engine.Match.{Taker, CType, Progress, match_active_order, walk_level, level_fuel}
use uvipystock.Engine.Fuel.{Ended, walk_level_ends}
use uvipystock.Engine.Priority.{greedy}
use uvipystock.Worker.Bridge.{Floats, as_doubles}
use uvipystock.Worker.Place.{load_makers}
use uvipystock.Worker.Order.{maker_offer}
use uvipystock.Worker.Book.{Member, Fields, Offers, maker_of, get_opposite_orders, read_in_order}

abbrev level : Level
level = record {
  price = 100;
  nodes =
      record { order_id = 1; remaining_qty = 5; visible_qty = 5; is_iceberg = false }
      ∷ record { order_id = 2; remaining_qty = 4; visible_qty = 4; is_iceberg = true }
      ∷ [];
  total_volume = 9;
  order_count = 2;
}

abbrev taker : CType → Option ℕ → ℕ → Taker
taker type price quantity = record {
  order_id = 9;
  side = buy;
  type = type;
  price = price;
  quantity = quantity;
}

abbrev start : Progress
start = record { remaining = 7; fills = []; overflow = false }

walk_level_ends_example :
    Ended (walk_level (level_fuel level) level start)
    × (walk_level (level_fuel level + 10) level start ≡ walk_level (level_fuel level) level start)
walk_level_ends_example = walk_level_ends 10 level start

abbrev coin : ℕ
coin = 1_000_000_000_000_000_000

-- The identity as conversion keeps zero, the sign and the order.
whole : (d : ℕ) → 0 < d → 0 < d
whole d h = h

ordered : (c d : ℕ) → c ≤ d → c ≤ d
ordered c d h = h

abbrev exact : Floats
exact = record {
  to_double = λ n. n;
  decimal_to_double = λ d. d;
  double_to_decimal = λ x. x;
  is_close = λ a b. a == b;
  double-zero = refl;
  double-pos = whole;
  double-le = ordered;
}

abbrev asks : List Member
asks =
    record { order_id = 1; score = 1_000_000_000_001 }
    ∷ record { order_id = 2; score = 1_000_000_000_002 }
    ∷ record { order_id = 3; score = 1_100_000_000_000 }
    ∷ []

abbrev an_ask : ℕ → Fields
an_ask quantity = record {
  side = sell;
  quantity = some quantity;
  visible_quantity = none;
  hidden_quantity = none;
  is_iceberg = false;
}

abbrev hashes : ℕ → Option Fields
hashes id = if id == 2 then none else some (an_ask (4 * coin))

asks-Offers : All (λ (r : Member). Offers buy r (hashes r.order_id)) asks
unfolding maker_of
asks-Offers = ((refl, omega arith), (tt, ((refl, omega arith), tt)))

read_in_order_example :
    let ms = map (as_doubles exact) (get_opposite_orders hashes asks) in
    (e : Engine) × (load_makers ms empty_engine ≡ Result.ok e)
    × ((match_active_order (taker CType.ioc (some (105 * coin)) (12 * coin)) e).1.fills
        ≡ greedy buy (some (105 * coin)) (12 * coin) (map maker_offer ms))
read_in_order_example =
    read_in_order exact (taker CType.ioc (some (105 * coin)) (12 * coin)) hashes asks tt
      ((omega arith, (omega arith, tt)), ((omega arith, tt), (tt, tt))) asks-Offers (omega arith)
