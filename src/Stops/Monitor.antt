-- ===== src/Stops/Monitor.antt =====
-- backend/app/services/stop_monitor_service.py: what one trade print does, and the rescan. What
-- Redis returns, the ask side of a symbol and the sets of stops, is an argument.
use uvipystock.Prelude.{
  ℕ, ◌+◌, ◌==◌, leb, ltb, Bool, true, false, not, ◌&&◌, if◌then◌else◌, List, [], ◌∷◌, ◌++◌, Option,
  none, some,
}
use uvipystock.Prelude.Int.{pos}
use uvipystock.Enums.{OrderSide, buy, sell, OrderType, OrderStatus, place, is_pending}
use uvipystock.Model.{World, pair_by_symbol}
use uvipystock.Model.Decimal.{mul}
use uvipystock.Model.Rows.{Order, TradingPair}
use uvipystock.Redis.{
  Command, publish, order_update, EventName, stop_triggered, enqueue_order_action,
  build_order_action_payload, payload_args, add_open_order, store_order_hash, OrderHash,
  remove_trailing_stop, remove_stop_order,
}
use uvipystock.Exec.{
  Exec, Result, ok, err, pure, gets, modify, send, catch, when, ◌>>=◌, ◌>>◌, transaction,
}
use uvipystock.Balance.Service.{quiet, lock_optimistic}
use uvipystock.Orders.Repo.{get_order, put_order, list_pending_stops}
use uvipystock.Orders.Validate.{MakerOrder, market_buy_cost}
use uvipystock.Orders.Place.{or_none, insert_order}
use uvipystock.Stops.Queue.{SortedSet, get_all_triggered_stops}
use uvipystock.Stops.Trailing.{Trailing, update_trailing_extremes}

-- The child's type and price.
unfoldable pub child_type : OrderType → Option ℕ → OrderType × Option ℕ
child_type OrderType.stop_market price = (OrderType.market, none)
child_type OrderType.trailing_stop price = (OrderType.market, none)
child_type _ price = (OrderType.limit, price)

-- The amount of a buy: the price times the quantity, or the walk over the asks.
abbrev pub buy_amount : List MakerOrder → Option ℕ → ℕ → Option ℕ
buy_amount asks (some price) quantity = some (mul price quantity)
buy_amount asks none quantity = market_buy_cost asks quantity

-- The asset and the amount that the child needs; nothing where the book has not enough asks.
abbrev pub child_lock : OrderSide → List MakerOrder → TradingPair → Option ℕ → ℕ → ℕ × Option ℕ
child_lock sell asks pair price quantity = (pair.base_asset, some quantity)
child_lock buy asks pair price quantity = (pair.quote_asset, buy_amount asks price quantity)

abbrev pub child_order : Order → Order
child_order o = record {
  id = 0;
  user_id = o.user_id;
  symbol = o.symbol;
  side = o.side;
  type = (child_type o.type o.price).0;
  status = OrderStatus.new;
  price = (child_type o.type o.price).1;
  stop_price = none;
  trailing_delta = none;
  quantity = o.quantity;
  filled_quantity = 0;
  filled_quote_qty = 0;
  visible_quantity = none;
  hidden_quantity = none;
  replace_count = 0;
  replaces_id = none;
  replaced_by_id = none;
  parent_order_id = some o.id;
  sl_order_id = none;
  tp_order_id = none;
  bulk_id = none;
  version = 1;
}

abbrev child_hash : Order → OrderHash
child_hash c = record {
  order_id = c.id;
  user_id = c.user_id;
  symbol = c.symbol;
  side = c.side;
  type = c.type;
  price = or_none c.price;
  stop_price = none;
  quantity = c.quantity;
  visible_quantity = none;
  hidden_quantity = none;
  is_iceberg = false;
  bulk_id = none;
}

abbrev pub triggered_order : Order → Order
triggered_order o = record o { status = OrderStatus.filled; version = o.version + 1 }

-- Queue, index and HASH of the child; the stop leaves its set; the user is told.
unfoldable pub trigger_commands : Order → Order → Bool → List Command
unfolding enqueue_order_action build_order_action_payload add_open_order store_order_hash
    remove_trailing_stop remove_stop_order
trigger_commands o c is_trailing =
    enqueue_order_action (
      build_order_action_payload place c.id c.symbol c.user_id c.side c.type (record payload_args {
        price = or_none c.price;
        quantity = some c.quantity;
        parent_order_id = some o.id;
      }))
    ++ (add_open_order c.user_id c.symbol c.id
        ++ (store_order_hash c.id (child_hash c)
            ++ ((if is_trailing
                  then remove_trailing_stop o.id o.symbol
                  else remove_stop_order o.id o.symbol)
                ++ publish (order_update o.user_id EventName.triggered o.id OrderStatus.filled)
                  ∷ [])))

-- What follows a lock that took.
unfoldable pub convert : Order → Bool → Exec (Unit {0})
unfolding insert_order
convert o is_trailing = do
  modify (λ w. record w { orders = put_order (triggered_order o) w.orders })
  c ← insert_order (child_order o)
  send (trigger_commands o c is_trailing)

-- A lock that fails is logged, and the order stays as it is.
abbrev pub after_lock : Order → Bool → Result (Unit {0}) × World → Result (Unit {0}) × World
after_lock o is_trailing (ok _, w) = convert o is_trailing w
after_lock o is_trailing (err _, w) = (ok tt, w)

abbrev pub lock_then : Order → Bool → ℕ → Option ℕ → Exec (Unit {0})
lock_then o is_trailing asset none w = (ok tt, w)
lock_then o is_trailing asset (some amount) w =
    after_lock o is_trailing
      (lock_optimistic quiet o.user_id asset (pos amount) stop_triggered (some o.id) w)

abbrev pub with_pair : List MakerOrder → Order → Bool → Option TradingPair → Exec (Unit {0})
with_pair asks o is_trailing none = pure tt
with_pair asks o is_trailing (some pair) =
    let need = child_lock o.side asks pair (child_type o.type o.price).1 o.quantity in
    lock_then o is_trailing need.0 need.1

abbrev pub trigger_found : (ℕ → List MakerOrder) → Bool → Option Order → Exec (Unit {0})
trigger_found asks is_trailing none w = (ok tt, w)
trigger_found asks is_trailing (some o) w =
    if is_pending o.status
    then with_pair (asks o.symbol) o is_trailing (pair_by_symbol w.pairs o.symbol) w
    else (ok tt, w)

module _ (asks : ℕ → List MakerOrder) where
  -- `_trigger_stop_order`; the price that triggers it is not used.
  unfoldable pub trigger_stop_order : ℕ → Bool → Exec (Unit {0})
  unfolding pair_by_symbol
  trigger_stop_order id is_trailing w = trigger_found asks is_trailing (get_order w.orders id) w

  -- Each id has a transaction of its own, and an exception is logged.
  unfoldable pub trigger_each : List ℕ → Bool → Exec (Unit {0})
  unfolding trigger_stop_order transaction
  trigger_each [] is_trailing = pure tt
  trigger_each (id ∷ ids) is_trailing = do
    catch (transaction (trigger_stop_order id is_trailing)) (λ e. pure tt)
    trigger_each ids is_trailing

  -- One stop of the rescan at the last price: a sell at or above it, a buy at or below it. A stop
  -- with no price, or with zero, is passed over.
  unfoldable pub should_trigger : OrderSide → Option ℕ → ℕ → Bool
  should_trigger side none last = false
  should_trigger sell (some stop) last = not (stop == 0) && leb last stop
  should_trigger buy (some stop) last = not (stop == 0) && leb stop last

  unfoldable pub rescan_each : List Order → ℕ → Exec (Unit {0})
  unfolding should_trigger trigger_each
  rescan_each [] last = pure tt
  rescan_each (o ∷ os) last = do
    when (should_trigger o.side o.stop_price last) (trigger_each (o.id ∷ []) false)
    rescan_each os last

  -- `_rescan_pending_stops` on one symbol, with the price of its last trade.
  unfoldable pub rescan_pending_stops : ℕ → Option ℕ → Exec (Unit {0})
  unfolding rescan_each list_pending_stops
  rescan_pending_stops symbol none = pure tt
  rescan_pending_stops symbol (some last) = do
    pending ← gets (λ w. list_pending_stops symbol w.orders)
    rescan_each pending last

-- `_local_high` and `_local_low` of a symbol.
pub record Extremes : Type 0 where
  pub local_high : Option ℕ
  pub local_low : Option ℕ

abbrev pub new_high : ℕ → Option ℕ → Option ℕ
new_high price none = some price
new_high price (some high) = if ltb high price then some price else none

abbrev pub new_low : ℕ → Option ℕ → Option ℕ
new_low price none = some price
new_low price (some low) = if ltb price low then some price else none

abbrev or_keep : Option ℕ → Option ℕ → Option ℕ
or_keep none old = old
or_keep (some x) old = some x

unfoldable pub update_extremes : ℕ → Extremes → Extremes
update_extremes price e = record {
  local_high = or_keep (new_high price e.local_high) e.local_high;
  local_low = or_keep (new_low price e.local_low) e.local_low;
}

-- The trailing stops are updated at a new extreme of the symbol only.
unfoldable pub trailing_updates : ℕ → ℕ → Extremes → List (ℕ × Option Trailing) → List Command
unfolding update_trailing_extremes
trailing_updates symbol price e states =
    update_trailing_extremes symbol states (or_none (new_high price e.local_high))
      (or_none (new_low price e.local_low))

-- `_process_trade_print`: the sets are what Redis holds when they are read, the one of the trailing
-- stops after its update.
module _ (S : SortedSet) (stops trailing : S.Members) (asks : ℕ → List MakerOrder) where
  unfoldable pub process_trade_print : ℕ → ℕ → Extremes → List (ℕ × Option Trailing) → Exec Extremes
  unfolding update_extremes trailing_updates get_all_triggered_stops trigger_each
  process_trade_print symbol price e states = do
    send (trailing_updates symbol price e states)
    trigger_each asks (get_all_triggered_stops S stops price) false
    trigger_each asks (get_all_triggered_stops S trailing price) true
    pure (update_extremes price e)
