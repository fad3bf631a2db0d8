-- ===== src/Tests/Market.antt =====
-- Candles of four trades, the levels of three asks, and a maker filled in part.
use uvipystock.Prelude.{
  ℕ, ◌*◌, ◌==◌, ◌≡◌, ◌<◌, ◌≤◌, refl, arith, false, if◌then◌else◌, List, [], ◌∷◌, Option, none, some,
}
use uvipystock.Enums.{buy, sell, OrderType, OrderStatus}
use uvipystock.Model.Rows.{Order}
use uvipystock.Redis.Score.{price_step, decode_score}
use uvipystock.Exec.{ok}
use uvipystock.Orders.Validate.{MakerOrder, Lock, ask_quantity}
use uvipystock.Model.Decimal.{half_up, unit}
use uvipystock.Orders.Estimate.{fills_cost}
use uvipystock.Frontend.Lock.{best_ask_lock}
use uvipystock.Frontend.Slippage.{best_ask_lock-covers}
use uvipystock.Frontend.Makers.{update_maker_hash, update_maker_hash_lem}
use uvipystock.Trade.Service.{update_redis_maker}
use uvipystock.Worker.Book.{Member, Fields, maker_of}
use uvipystock.Worker.Hashes.{Hashes, set_hash, replay, OffersRest, update_redis_maker-OffersRest}
use uvipystock.Market.Depth.{aggregate_side, sort_levels, insert_level, add_members, add_level}
use uvipystock.Market.Levels.{Sorted, level_at, shown_at, aggregate_side_lem}
use uvipystock.Tests.Trading.{one, an_order, pair, world}
use uvipystock.Tests.Placing.{dto}
use uvipystock.Market.Candles.{
  PublicTrade, Candle, Timeframe, bucket_of, start_candle, update_candle, add_trade, aggregate,
  most_recent, get_candles,
}
use uvipystock.Market.Buckets.{Ascending}
use uvipystock.Market.Aggregate.{IsComplete, Shown, get_candles-Shown}

abbrev trade_at : ℕ → ℕ → ℕ → PublicTrade
trade_at second price quantity = record {
  executed_at = second * 1_000_000;
  price = price;
  quantity = quantity;
}

abbrev four_trades : List PublicTrade
four_trades = trade_at 61 10 1 ∷ trade_at 70 12 2 ∷ trade_at 119 9 3 ∷ trade_at 180 11 4 ∷ []

-- Three in the minute from 60, and one in that from 180.
two_candles : get_candles Timeframe.one_minute 500 four_trades ≡ (
    record { time = 60; open_price = 10; high = 12; low = 9; close = 9; volume = 6 }
    ∷ record { time = 180; open_price = 11; high = 11; low = 11; close = 11; volume = 4 }
    ∷ [])
unfolding get_candles most_recent aggregate add_trade bucket_of start_candle update_candle
two_candles = refl

get_candles-Shown_example :
    (all : List Candle) × IsComplete 60 four_trades all
    × Shown 1 all (get_candles Timeframe.one_minute 1 four_trades)
get_candles-Shown_example =
    get_candles-Shown Timeframe.one_minute 1 four_trades four_ascending (omega arith)
  where
    four_ascending : Ascending four_trades
    four_ascending = (
      (omega arith, (omega arith, (omega arith, tt))),
      ((omega arith, (omega arith, tt)), ((omega arith, tt), (tt, tt))),
    )

-- Two asks at one price, one of them an iceberg, and one whose HASH is gone.
abbrev hashes : ℕ → Option Fields
hashes id =
    if id == 4
    then none
    else some (record {
      side = sell;
      quantity = some 9;
      visible_quantity = if id == 2 then some 3 else none;
      hidden_quantity = none;
      is_iceberg = id == 2;
    })

abbrev three_members : List Member
three_members =
    record { order_id = 1; score = 5_000_001 }
    ∷ record { order_id = 2; score = 5_000_002 }
    ∷ record { order_id = 4; score = 6_000_003 }
    ∷ []

one_level :
    aggregate_side hashes false three_members
    ≡ (record { price = 5 * price_step; volume = 12 } ∷ [])
unfolding aggregate_side sort_levels insert_level add_members add_level decode_score
one_level = refl

aggregate_side_lem_example :
    Sorted false (aggregate_side hashes false three_members)
    × ((p : ℕ)
        → level_at p (aggregate_side hashes false three_members) ≡ shown_at hashes p three_members)
aggregate_side_lem_example = aggregate_side_lem hashes false three_members

-- The bid of the trading runs, a third of it filled.
abbrev filled_bid : Order
filled_bid = record (an_order 5 1 buy OrderType.limit OrderStatus.partially_filled) {
  filled_quantity = one;
}

abbrev bid_fields : Fields
bid_fields = record {
  side = buy;
  quantity = some (3 * one);
  visible_quantity = some (3 * one);
  hidden_quantity = none;
  is_iceberg = false;
}

abbrev bid_hashes : Hashes
bid_hashes = set_hash 5 (some bid_fields) (λ id. none)

bid_there : replay [] bid_hashes 5 ≡ some bid_fields
unfolding replay
bid_there = refl

update_redis_maker-OffersRest_example :
    OffersRest filled_bid (replay (update_redis_maker filled_bid world).1.commands bid_hashes)
update_redis_maker-OffersRest_example =
    update_redis_maker-OffersRest filled_bid world bid_hashes bid_fields bid_there

update_maker_hash_lem_example :
    (g : Fields) × (replay (update_maker_hash filled_bid world).1.commands bid_hashes 5 ≡ some g)
    × (2 * one < ask_quantity (maker_of (record { order_id = 5; score = 0 }) g))
update_maker_hash_lem_example =
    update_maker_hash_lem filled_bid world bid_hashes bid_fields
      (record { order_id = 5; score = 0 }) refl (omega arith) (omega arith) bid_there refl refl

abbrev an_ask : ℕ → ℕ → MakerOrder
an_ask price quantity = record {
  order_id = 1;
  side = sell;
  price = price;
  quantity = quantity;
  visible_quantity = quantity;
  hidden_quantity = 0;
  is_iceberg = false;
}

-- Two asks, the second half a percent dearer.
abbrev near_asks : List MakerOrder
near_asks = an_ask 1_000 2 ∷ an_ask 1_005 7 ∷ []

best_ask_lock-covers_example :
    (lock : Lock) × (best_ask_lock (some (1_000, 1)) dto pair world ≡ (ok lock, world))
    × (lock.asset ≡ some 8)
    × (half_up (fills_cost near_asks one) unit ≤ lock.amount)
best_ask_lock-covers_example =
    best_ask_lock-covers (1_000, 1) near_asks dto pair world (omega arith, (omega arith, tt))
