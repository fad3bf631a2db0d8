-- ===== src/Tests/Placing.antt =====
-- Placements, cancellations and the worker's actions on the tables of the trading runs.
use uvipystock.Prelude.{ℕ, ◌*◌, ◌≡◌, refl, false, [], ◌∷◌, none, some}
use uvipystock.Enums.{buy, sell, OrderType, OrderStatus, OrderAction}
use uvipystock.Model.{pair_by_symbol}
use uvipystock.Model.Rows.{Order}
use uvipystock.Redis.{OrderActionPayload}
use uvipystock.Exec.{ok, err, order_validation}
use uvipystock.Balance.Repo.{put, unlock_row}
use uvipystock.Orders.Repo.{get_by_user, cancel_children, update_status}
use uvipystock.Orders.Cancel.{cancel_order}
use uvipystock.Orders.Cancels.{released, cancel_order_lem}
use uvipystock.Orders.Validate.{
  OrderCreate, MakerOrder, validate_and_get_pair, validate_params, market_buy_cost, is_empty,
}
use uvipystock.Orders.Place.{place_order}
use uvipystock.Orders.Refusals.{place_order-Silent}
use uvipystock.Orders.Estimate.{market_buy_cost_lem}
use uvipystock.Worker.Place.{refund_market_buy_leftover}
use uvipystock.Worker.Effects.{refund_unlocks_all}
use uvipystock.Tests.Trading.{one, row, an_order, pair, world, no_asks, pair_found, buyer_row}

abbrev pub dto : OrderCreate
dto = record {
  symbol = 1;
  side = buy;
  type = OrderType.limit;
  price = none;
  stop_price = none;
  trailing_delta = none;
  quantity = one;
  visible_quantity = none;
  hidden_quantity = none;
  sl = none;
  tp = none;
  client_order_id = none;
  bulk_id = none;
}

refused : (place_order no_asks 1 dto world).0 ≡ err order_validation
unfolding place_order validate_and_get_pair validate_params pair_by_symbol
refused = refl

place_order-Silent_example : (place_order no_asks 1 dto world).1.commands ≡ []
place_order-Silent_example = place_order-Silent no_asks 1 dto world order_validation refused

abbrev an_ask : MakerOrder
an_ask = record {
  order_id = 6;
  side = sell;
  price = 2 * one;
  quantity = 3 * one;
  visible_quantity = 3 * one;
  hidden_quantity = 0;
  is_iceberg = false;
}

market_buy_cost_lem_example : market_buy_cost (an_ask ∷ []) (4 * one) ≡ none
unfolding is_empty
market_buy_cost_lem_example = market_buy_cost_lem (an_ask ∷ []) (4 * one)

abbrev payload : OrderType → ℕ → OrderActionPayload
payload type quantity = record {
  action = OrderAction.place;
  order_id = 5;
  symbol = 1;
  user_id = 1;
  side = buy;
  type = type;
  price = some (2 * one);
  stop_price = none;
  quantity = quantity;
  is_iceberg = false;
  visible_qty = none;
  hidden_qty = none;
  parent_order_id = none;
  replaces_id = none;
  bulk_id = none;
}

refund_unlocks_all_example :
    ((refund_market_buy_leftover (payload OrderType.market one) world).0 ≡ ok tt)
    × ((refund_market_buy_leftover (payload OrderType.market one) world).1.balances
        ≡ put (unlock_row (6 * one) (row 1 8 (6 * one) (5 * one))) world.balances)
refund_unlocks_all_example =
    refund_unlocks_all (payload OrderType.market one) pair (row 1 8 (6 * one) (5 * one)) world
      pair_found buyer_row refl

order_found : get_by_user world.orders 5 1 ≡ some (an_order 5 1 buy OrderType.limit OrderStatus.new)
unfolding get_by_user
order_found = refl

cancel_order_lem_example :
    let r = cancel_order 1 5 world in
    ((done : Order) × (r.0 ≡ ok done))
    × (r.1.balances
        ≡ released
            (an_order 5 1 buy OrderType.limit OrderStatus.new)
            (row 1 8 (6 * one) (5 * one))
            world.balances)
    × (r.1.orders ≡ cancel_children 5 (update_status 5 OrderStatus.canceled world.orders))
cancel_order_lem_example =
    cancel_order_lem 1 5 pair (an_order 5 1 buy OrderType.limit OrderStatus.new)
      (row 1 8 (6 * one) (5 * one)) world order_found refl pair_found buyer_row refl
