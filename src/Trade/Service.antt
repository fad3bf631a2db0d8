-- ===== src/Trade/Service.antt =====
-- backend/app/services/trade_service.py: a batch of trades from one match.
use uvipystock.Prelude.{
  ℕ, ◌+◌, ◌==◌, leb, ltb, Bool, true, false, if◌then◌else◌, List, [], ◌∷◌, ◌++◌, Option, none, some,
}
use uvipystock.Prelude.Int.{pos}
use uvipystock.Enums.{OrderSide, buy, sell, OrderStatus, is_pending, is_filled, place}
use uvipystock.Model.Rows.{Order, Trade, Balance, remaining_quantity}
use uvipystock.Redis.{
  Command, publish, trade_print, order_update, sl_tp_activated, EventName, hset_fill,
  order_hash_key, remove_resting_order, delete_order_hash, remove_open_order, enqueue_order_action,
  build_order_action_payload, payload_args, trade_settled, trade_received,
}
use uvipystock.Exec.{Exec, ok, pure, gets, modify, send, when, ◌>>=◌, ◌>>◌}
use uvipystock.Balance.Repo.{get_by_user_asset}
use uvipystock.Balance.Pessimistic.{settle_row_pessimistic, credit_row_pessimistic}
use uvipystock.Orders.Repo.{get_order, put_order, list_children_by_parent}
use uvipystock.Trade.Fills.{MatchTrade, Batch, Fill, Totals, no_totals, collect}

-- The payer's row is settled and the receiver's credited; a row that is missing is passed over.
unfoldable pub settle_if : Option Balance → ℕ → ℕ → Exec (Unit {0})
settle_if none amount order_id = pure tt
settle_if (some b) amount order_id =
    settle_row_pessimistic b (pos amount) trade_settled (some order_id)

unfoldable pub credit_if : Option Balance → ℕ → ℕ → Exec (Unit {0})
credit_if none amount order_id = pure tt
credit_if (some b) amount order_id =
    credit_row_pessimistic b (pos amount) trade_received (some order_id)

unfoldable pub pay_and_receive : ℕ → ℕ → ℕ → ℕ → ℕ → ℕ → Exec (Unit {0})
unfolding settle_if credit_if
pay_and_receive user_id paid pay received receive order_id = do
  payer ← gets (λ w. get_by_user_asset w.balances user_id paid)
  settle_if payer pay order_id
  receiver ← gets (λ w. get_by_user_asset w.balances user_id received)
  credit_if receiver receive order_id

-- `_settle_trade_balances`: the side that buys pays quote and receives base.
unfoldable pub settle_side : Batch → OrderSide → Bool → Order → ℕ → ℕ → Exec (Unit {0})
unfolding pay_and_receive
settle_side b buy true o qty quote =
    pay_and_receive o.user_id b.quote_asset quote b.base_asset qty o.id
settle_side b sell true o qty quote =
    pay_and_receive o.user_id b.base_asset qty b.quote_asset quote o.id
settle_side b buy false o qty quote =
    pay_and_receive o.user_id b.base_asset qty b.quote_asset quote o.id
settle_side b sell false o qty quote =
    pay_and_receive o.user_id b.quote_asset quote b.base_asset qty o.id

unfoldable pub settle_trade_balances : Batch → Bool → Order → ℕ → ℕ → Exec (Unit {0})
unfolding settle_side
settle_trade_balances b is_taker o qty quote = settle_side b b.taker_side is_taker o qty quote

-- `_update_redis_maker`
unfoldable pub update_redis_maker : Order → Exec (Unit {0})
update_redis_maker o =
    if is_filled o.status
    then send (
        remove_resting_order o.id o.symbol o.side
        ++ (delete_order_hash o.id ++ remove_open_order o.user_id o.symbol o.id))
    else send
        (hset_fill (order_hash_key o.id) o.filled_quantity (remaining_quantity o) o.status ∷ [])

abbrev pub add_to_filled : ℕ → ℕ → Order → Order
add_to_filled qty quote o = record o {
  filled_quantity = o.filled_quantity + qty;
  filled_quote_qty = o.filled_quote_qty + quote;
  version = o.version + 1;
}

unfoldable pub maker_after : ℕ → ℕ → Order → Order
maker_after qty quote o =
    let o' = add_to_filled qty quote o in
    record o' {
      status =
          if leb o'.quantity o'.filled_quantity
          then OrderStatus.filled
          else OrderStatus.partially_filled;
    }

unfoldable pub taker_after : ℕ → ℕ → Order → Order
taker_after qty quote o =
    let o' = add_to_filled qty quote o in
    record o' {
      status =
          if leb o'.quantity o'.filled_quantity
          then OrderStatus.filled
          else if ltb 0 o'.filled_quantity
          then OrderStatus.partially_filled
          else o'.status;
    }

abbrev pub save_order : Order → Exec (Unit {0})
save_order o = modify (λ w. record w { orders = put_order o w.orders })

-- One round of the loop over the makers. A maker whose row is missing is passed over.
unfoldable pub update_maker : Batch → Fill → Exec (Unit {0})
unfolding maker_after settle_trade_balances update_redis_maker
update_maker b f w = elim (get_order w.orders f.order_id) [
  | none ↦ (ok tt, w)
  | some o ↦
      (do
        save_order (maker_after f.qty f.quote_qty o)
        settle_trade_balances b false (maker_after f.qty f.quote_qty o) f.qty f.quote_qty
        update_redis_maker (maker_after f.qty f.quote_qty o))
        w
]

unfoldable pub update_makers : Batch → List Fill → Exec (Unit {0})
unfolding update_maker
update_makers b [] = pure tt
update_makers b (f ∷ fs) = do update_maker b f; update_makers b fs

-- The makers' users on the new rows, from their orders where these are found.
unfoldable pub assign_makers : List Order → List Trade → List Trade
assign_makers os [] = []
assign_makers os (t ∷ ts) =
    elim (get_order os t.maker_order_id) [
      | none ↦ t
      | some o ↦ record t { maker_user_id = o.user_id }
    ]
    ∷ assign_makers os ts

abbrev or_none : Option ℕ → Option ℕ
or_none none = none
or_none (some x) = if x == 0 then none else some x

abbrev pub child_payload : ℕ → Order → List Command
child_payload parent c = enqueue_order_action (
    build_order_action_payload place c.id c.symbol c.user_id c.side c.type (record payload_args {
      price = or_none c.price;
      quantity = some c.quantity;
      parent_order_id = some parent;
    }))

-- One child of `_activate_sltp_children`: a pending one becomes NEW and is queued, of any type.
unfoldable pub activate_child : Order → Order → Exec (Unit {0})
activate_child parent c = when (is_pending c.status) do
  save_order (record c { status = OrderStatus.new; version = c.version + 1 })
  send (child_payload parent.id c)
  send (publish (sl_tp_activated c.user_id parent.id parent.sl_order_id parent.tp_order_id) ∷ [])

unfoldable pub activate_children : Order → List Order → Exec (Unit {0})
unfolding activate_child
activate_children parent [] = pure tt
activate_children parent (c ∷ cs) = do activate_child parent c; activate_children parent cs

unfoldable pub activate_sltp_children : Order → Exec (Unit {0})
unfolding activate_children
activate_sltp_children parent = do
  children ← gets (λ w. list_children_by_parent parent.id w.orders)
  activate_children parent children

-- The taker's part: its order, its balances, and its children once it is filled.
unfoldable pub update_taker : Batch → Totals → Exec (Unit {0})
unfolding taker_after settle_trade_balances activate_sltp_children
update_taker b acc w = elim (get_order w.orders b.taker_order_id) [
  | none ↦ (ok tt, w)
  | some o ↦
      (do
        save_order (taker_after acc.taker_total_qty acc.taker_total_quote o)
        settle_trade_balances b true (taker_after acc.taker_total_qty acc.taker_total_quote o)
            acc.taker_total_qty acc.taker_total_quote
        when (is_filled (taker_after acc.taker_total_qty acc.taker_total_quote o).status)
            (activate_sltp_children (taker_after acc.taker_total_qty acc.taker_total_quote o)))
        w
]

unfoldable pub publish_trades : List Trade → List Command
publish_trades [] = []
publish_trades (t ∷ ts) =
    publish (trade_print t.symbol t.price t.quantity t.side t.maker_order_id) ∷ publish_trades ts

abbrev fill_event : Order → Command
fill_event o = publish (
    order_update o.user_id
      (if is_filled o.status then EventName.filled else EventName.partially_filled) o.id o.status)

unfoldable pub publish_orders : List Order → List Fill → List Command
publish_orders os [] = []
publish_orders os (f ∷ fs) =
    let rest = publish_orders os fs in
    elim (get_order os f.order_id) [ none ↦ rest | some o ↦ fill_event o ∷ rest ]

unfoldable pub publish_taker : Option Order → List Command
publish_taker none = []
publish_taker (some o) = fill_event o ∷ []

-- `persist_trade_batch`
unfoldable pub persist_trade_batch : Batch → List MatchTrade → Exec (List Trade)
unfolding collect update_makers update_taker assign_makers publish_trades publish_orders
    publish_taker
persist_trade_batch b [] = pure []
persist_trade_batch b (t ∷ ts) =
    let acc = collect b (t ∷ ts) no_totals in
    do
      update_makers b acc.fills
      update_taker b acc
      os ← gets (λ w. w.orders)
      let persisted = assign_makers os acc.persisted
      modify (λ w. record w { trades = w.trades ++ persisted })
      send (
          publish_trades persisted
          ++ (publish_taker (get_order os b.taker_order_id) ++ publish_orders os acc.fills))
      pure persisted
