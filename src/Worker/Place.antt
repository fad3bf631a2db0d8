-- ===== src/Worker/Place.antt =====
-- backend/app/matching/worker.py: the three actions. What Redis returns is an argument: the makers
-- of the opposite side, the user in the HASH of an order, and the answer of INCR.
use uvipystock.Prelude.{
  ℕ, ◌==◌, ltb, Bool, true, false, ◌&&◌, ◌||◌, if◌then◌else◌, List, [], ◌∷◌, ◌++◌, Option, none,
  some, map,
}
use uvipystock.Prelude.Int.{pos}
use uvipystock.Enums.{OrderType, OrderStatus, OrderAction, is_buy, is_market, can_rest}
use uvipystock.Model.{pair_by_symbol}
use uvipystock.Model.Decimal.{or_zero}
use uvipystock.Model.Rows.{Balance, TradingPair}
use uvipystock.Redis.{
  Command, OrderActionPayload, OrderHash, publish, order_update, orderbook_snapshot, EventName,
  market_buy_refund, store_order_hash, add_open_order, incr, zadd, seq_key, side_key,
}
use uvipystock.Redis.Score.{encode_score, next_seq}
use uvipystock.Exec.{
  Exec, Result, ok, err, pure, raise, send, when, ◌>>=◌, ◌>>◌, transaction, runtime_error,
  value_error,
}
use uvipystock.Balance.Repo.{get_by_user_asset}
use uvipystock.Balance.Pessimistic.{unlock_row_pessimistic}
use uvipystock.Orders.Place.{or_none}
use uvipystock.Orders.Validate.{MakerOrder, ask_quantity}
use uvipystock.Engine.Book.{
  Engine, AddResult, added, bad_quantity, pool_exhausted, empty_engine, add_passive_order,
}
use uvipystock.Engine.Match
use uvipystock.Engine.Match.{Outcome, Matched, match_active_order, post_only_cross}
use uvipystock.Trade.Service.{persist_trade_batch}
use uvipystock.Trade.Fills.{Batch}
use uvipystock.Worker.Bridge.{
  Floats, as_doubles, build_corder, is_outcome_reject, trade_dict_to_domain,
}

-- The makers, with prices and quantities as doubles, are added in order. A quantity of zero raises ValueError, and a full pool MemoryError,
-- for which `runtime_error` stands.
abbrev pub next_maker : AddResult → (Engine → Result Engine) → Result Engine
next_maker (added e) rest = rest e
next_maker bad_quantity rest = err value_error
next_maker pool_exhausted rest = err runtime_error

unfoldable pub load_makers : List MakerOrder → Engine → Result Engine
unfolding add_passive_order
load_makers [] e = ok e
load_makers (m ∷ ms) e =
    next_maker
      (add_passive_order m.order_id m.side m.price (ask_quantity m) m.is_iceberg m.visible_quantity
        e)
      (load_makers ms)

pub record PlaceResult : Type 0 where
  pub outcome : Outcome
  pub trades : List Match.Fill
  pub remaining_qty : ℕ

abbrev pub lift : {A : Type 0} → Result A → Exec A
lift r w = (r, w)

abbrev pub rejected_event : OrderActionPayload → Outcome → Command
rejected_event p post_only_cross =
    publish (order_update p.user_id EventName.rejected p.order_id OrderStatus.rejected)
rejected_event p _ =
    publish (order_update p.user_id EventName.expired p.order_id OrderStatus.expired)

-- `_refund_market_buy_leftover`: all that the user has locked in the quote asset is unlocked.
abbrev pub refund_row : OrderActionPayload → Option Balance → Exec (Unit {0})
refund_row p none = pure tt
refund_row p (some b) =
    when (ltb 0 b.locked_balance)
      (unlock_row_pessimistic b (pos b.locked_balance) market_buy_refund (some p.order_id))

abbrev pub refund_pair : OrderActionPayload → Option TradingPair → Exec (Unit {0})
refund_pair p none w = (ok tt, w)
refund_pair p (some pair) w =
    refund_row p (get_by_user_asset w.balances p.user_id pair.quote_asset) w

unfoldable pub refund_market_buy_leftover : OrderActionPayload → Exec (Unit {0})
unfolding transaction pair_by_symbol get_by_user_asset unlock_row_pessimistic
refund_market_buy_leftover p = transaction (λ w. refund_pair p (pair_by_symbol w.pairs p.symbol) w)

-- The HASH of the rest; the price and the quantity are the payload's.
abbrev pub rest_hash : OrderActionPayload → ℕ → OrderHash
rest_hash p remaining = record {
  order_id = p.order_id;
  user_id = p.user_id;
  symbol = p.symbol;
  side = p.side;
  type = p.type;
  price = or_none p.price;
  stop_price = none;
  quantity = p.quantity;
  visible_quantity = if p.is_iceberg then p.visible_qty else some remaining;
  hidden_quantity = if p.is_iceberg then p.hidden_qty else none;
  is_iceberg = p.is_iceberg;
  bulk_id = none;
}

-- `type in ("limit", "stop_limit")`
abbrev fills_at_limit : OrderType → Bool
fills_at_limit OrderType.limit = true
fills_at_limit OrderType.stop_limit = true
fills_at_limit _ = false

abbrev pub refunds : OrderActionPayload → ℕ → Bool
refunds p remaining = is_buy p.side && (is_market p.type || remaining == 0 && fills_at_limit p.type)

module _ (F : Floats) (makers : List MakerOrder) (maker_user : ℕ → ℕ) (seq : ℕ) where
  -- `_insert_resting_taker`, with `add_resting_order`: INCR comes before the score is computed.
  abbrev pub add_resting : OrderActionPayload → Option ℕ → Exec (Unit {0})
  add_resting p none = raise value_error
  add_resting p (some score) = send (
      zadd (side_key p.symbol p.side) p.order_id (pos score)
      ∷ add_open_order p.user_id p.symbol p.order_id)

  unfoldable pub insert_resting_taker : OrderActionPayload → ℕ → Exec (Unit {0})
  unfolding encode_score next_seq store_order_hash add_open_order
  insert_resting_taker p remaining = do
    send (
        store_order_hash p.order_id (rest_hash p (F.double_to_decimal remaining))
        ++ incr (seq_key p.symbol) ∷ [])
    add_resting p (encode_score F.to_double (or_zero (or_none p.price)) (next_seq seq))

  -- What happens to the rest, and the refresh of the book.
  abbrev pub finish : OrderActionPayload → PlaceResult → Exec PlaceResult
  finish p r = do
    if ltb 0 r.remaining_qty && can_rest p.type
        then insert_resting_taker p r.remaining_qty
        else when (refunds p r.remaining_qty) (refund_market_buy_leftover p)
    send (publish (orderbook_snapshot p.symbol) ∷ [])
    pure r

  abbrev pub batch : OrderActionPayload → TradingPair → Batch
  batch p pair = record {
    taker_user_id = p.user_id;
    taker_order_id = p.order_id;
    taker_side = p.side;
    symbol = p.symbol;
    base_asset = pair.base_asset;
    quote_asset = pair.quote_asset;
  }

  abbrev pub result_of : Matched → PlaceResult
  result_of m = record { outcome = m.outcome; trades = m.fills; remaining_qty = m.remaining }

  -- Trades whose pair is missing end the action without a write.
  abbrev pub with_pair : OrderActionPayload → Matched → Option TradingPair → Exec PlaceResult
  with_pair p m none = pure (result_of m)
  with_pair p m (some pair) = do
    trades ←
        transaction
          (persist_trade_batch (batch p pair) (map (trade_dict_to_domain F maker_user) m.fills))
    finish p (result_of m)

  abbrev pub settle_match : OrderActionPayload → Matched → Exec PlaceResult
  settle_match p m w =
      if is_outcome_reject m.outcome
      then (ok (result_of m), record w { commands = w.commands ++ rejected_event p m.outcome ∷ [] })
      else elim m.fills [
        | [] ↦ finish p (result_of m) w
        | _ ∷ _ ↦ with_pair p m (pair_by_symbol w.pairs p.symbol) w
      ]

  -- `_handle_place`
  unfoldable pub handle_place : OrderActionPayload → Exec PlaceResult
  unfolding load_makers build_corder match_active_order persist_trade_batch
      refund_market_buy_leftover insert_resting_taker trade_dict_to_domain
  handle_place p = do
    e ← lift (load_makers (map (as_doubles F) makers) empty_engine)
    t ← lift (build_corder F p)
    settle_match p (match_active_order t e).1

  -- `process_action`: a cancellation and a modification are acknowledged.
  abbrev pub action : OrderAction → OrderActionPayload → Exec (Option PlaceResult)
  action OrderAction.cancel p = pure none
  action OrderAction.modify p = pure none
  action OrderAction.place p = do r ← handle_place p; pure (some r)

  unfoldable pub process_action : OrderActionPayload → Exec (Option PlaceResult)
  process_action p = action p.action p
