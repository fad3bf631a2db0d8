-- ===== src/Tests/Histories.antt =====
-- A modification, and calls one after the other, on the tables of the trading runs.
use uvipystock.Prelude.{◌*◌, ◌≡◌, refl, arith, [], ◌∷◌, ◌++◌, some}
use uvipystock.Enums.{buy, OrderType, OrderStatus}
use uvipystock.Model.{World}
use uvipystock.Model.Decimal.{mul}
use uvipystock.Model.Rows.{Order}
use uvipystock.Exec.{ok, transaction}
use uvipystock.Balance.Repo.{put}
use uvipystock.Orders.Repo.{get_order, update_status, put_order}
use uvipystock.Orders.Cancel.{cancel_order}
use uvipystock.Orders.Modify.{modify_order, replacement}
use uvipystock.Orders.Modified.{Fits, relocked, modify_order_lem}
use uvipystock.Records.Table.{terms_at}
use uvipystock.Records.Rules.{Kept, Numbered}
use uvipystock.Records.History.{Step, History, history-Kept}
use uvipystock.Tests.Trading.{one, row, an_order, pair, world, pair_found, buyer_row}

abbrev bid : Order
bid = an_order 5 1 buy OrderType.limit OrderStatus.new

bid_found : get_order world.orders 5 ≡ some bid
unfolding get_order
bid_found = refl

bid-Fits : Fits 1 pair bid (2 * one) (4 * one) (row 1 8 (6 * one) (5 * one)) world
unfolding mul
bid-Fits = record {
  row = buyer_row;
  releases = omega arith;
  held = omega arith;
  locks = omega arith;
  covered = omega arith;
  price_positive = refl;
  quantity_positive = refl;
  lot = refl;
}

abbrev larger_bid : Order
larger_bid = record (replacement bid (2 * one) (4 * one)) { id = 8 }

modify_order_lem_example :
    let r = modify_order 1 5 (2 * one) (4 * one) world in
    (r.0 ≡ ok larger_bid)
    × (r.1.balances
        ≡ put (relocked (6 * one) (8 * one) (row 1 8 (6 * one) (5 * one))) world.balances)
    × (r.1.orders
        ≡ put_order
            (record bid { status = OrderStatus.canceled; version = 2; replaced_by_id = some 8 })
            (update_status 5 OrderStatus.canceled world.orders ++ larger_bid ∷ []))
unfolding mul
modify_order_lem_example =
    modify_order_lem 1 5 (2 * one) (4 * one) pair bid (row 1 8 (6 * one) (5 * one)) world bid_found
      refl refl refl pair_found bid-Fits

pub world-Numbered : Numbered world
unfolding terms_at
world-Numbered = (omega arith, refl, (omega arith, refl, (omega arith, refl, tt)))

-- User 1 cancels, and then user 2 modifies.
abbrev canceled_world : World
canceled_world = (transaction (cancel_order 1 5) world).1

abbrev modified_world : World
modified_world = (transaction (modify_order 2 6 one one) canceled_world).1

two_calls : History world modified_world
two_calls =
    History.later (History.later History.start (Step.canceled 1 5)) (Step.modified 2 6 one one)

history-Kept_example : Kept world modified_world
history-Kept_example = history-Kept world-Numbered two_calls
