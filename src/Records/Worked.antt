-- ===== src/Records/Worked.antt =====
-- backend/app/matching/worker.py: an action of the queue; services/admin_service.py: adjustments.
use uvipystock.Prelude.{
  ℕ, zero, suc, ltb, refl, ◌&&◌, List, [], ◌∷◌, ◌++◌, map, Option, none, some, Bool-cases, inl, inr,
}
use uvipystock.Prelude.Int.{ℤ, pos, negsuc}
use uvipystock.Enums.{OrderAction, can_rest}
use uvipystock.Model.{World, pair_by_symbol}
use uvipystock.Model.Decimal.{or_zero}
use uvipystock.Model.Rows.{TradingPair, Balance}
use uvipystock.Redis.{
  OrderActionPayload, market_buy_refund, deposit, publish, orderbook_snapshot, store_order_hash,
  incr, seq_key,
}
use uvipystock.Redis.Score.{encode_score, next_seq}
use uvipystock.Exec.{Result, ok, err, value_error}
use uvipystock.Balance.Repo.{get_by_user_asset}
use uvipystock.Balance.Pessimistic.{admin_adjust, credit_user, debit_user}
use uvipystock.Engine.Book.{empty_engine}
use uvipystock.Engine.Match.{Matched, Fill, match_active_order}
use uvipystock.Orders.Validate.{MakerOrder}
use uvipystock.Trade.Service.{persist_trade_batch}
use uvipystock.Worker.Bridge.{
  Floats, as_doubles, build_corder, is_outcome_reject, trade_dict_to_domain,
}
use uvipystock.Orders.Place.{or_none}
use uvipystock.Worker.Place.{
  rest_hash, rejected_event, PlaceResult, load_makers, lift, refund_row, refund_pair,
  refund_market_buy_leftover, refunds, add_resting, insert_resting_taker, finish, batch, result_of,
  with_pair, settle_match, handle_place, action, process_action,
}
use uvipystock.Records.Table.{Terms}
use uvipystock.Records.Rules.{
  Does, Post, Numbered, AllStand, nothing, Does-bind, pure-Does, raise-Does, send-Does, when-Does,
  if-Does, Leaves-Does, transaction-Does, Kept-refl,
}
use uvipystock.Records.Balances.{unlock_row_pessimistic-Leaves, admin_adjust-Leaves}
use uvipystock.Records.Traded.{persist_trade_batch-Does}

module _ (ts : List Terms) where
  lift-Does : {A : Type 0} (r : Result A) → Does ts (lift r) nothing
  lift-Does {A} (ok a) = pure-Does ts a nothing (λ w s. tt)
  lift-Does {A} (err e) = raise-Does {A = A} ts e nothing

  refund_row-Does : (p : OrderActionPayload) (b : Option Balance) → Does ts (refund_row p b) nothing
  refund_row-Does p none = pure-Does ts tt nothing (λ w s. tt)
  refund_row-Does p (some b) = when-Does ts (ltb 0 b.locked_balance) _ (
      Leaves-Does ts _ (
        unlock_row_pessimistic-Leaves b (pos b.locked_balance) market_buy_refund (some p.order_id)))

  refund_pair-Post :
      (p : OrderActionPayload) (pair? : Option TradingPair) (w : World)
      → Numbered w
      → AllStand ts w
      → Post {A = Unit {0}} nothing w (refund_pair p pair? w)
  refund_pair-Post p none w n s = (Kept-refl n, tt)
  refund_pair-Post p (some pair) w n s =
      (refund_row-Does p (get_by_user_asset w.balances p.user_id pair.quote_asset)).run w n s

  refund-Does : (p : OrderActionPayload) → Does ts (refund_market_buy_leftover p) nothing
  unfolding refund_market_buy_leftover
  refund-Does p =
      transaction-Does ts nothing (λ w. refund_pair p (pair_by_symbol w.pairs p.symbol) w)
        (record { run = λ w n s. refund_pair-Post p (pair_by_symbol w.pairs p.symbol) w n s })

  module _ (F : Floats) (makers : List MakerOrder) (maker_user : ℕ → ℕ) (seq : ℕ) where
    add_resting-Does :
        (p : OrderActionPayload) (score : Option ℕ)
        → Does ts (add_resting F makers maker_user seq p score) nothing
    add_resting-Does p none = raise-Does {A = Unit {0}} ts value_error nothing
    add_resting-Does p (some score) = send-Does ts _

    resting-Does :
        (p : OrderActionPayload) (remaining : ℕ)
        → Does ts (insert_resting_taker F makers maker_user seq p remaining) nothing
    unfolding insert_resting_taker
    resting-Does p remaining =
        Does-bind
          (send-Does ts (
            store_order_hash p.order_id (rest_hash p (F.double_to_decimal remaining))
            ++ incr (seq_key p.symbol) ∷ []))
          (λ x.
            add_resting-Does p
              (encode_score F.to_double (or_zero (or_none p.price)) (next_seq seq)))

    finish-Does :
        (p : OrderActionPayload) (r : PlaceResult)
        → Does ts (finish F makers maker_user seq p r) nothing
    finish-Does p r =
        Does-bind
          (if-Does (ltb 0 r.remaining_qty && can_rest p.type) (resting-Does p r.remaining_qty)
            (when-Does ts (refunds p r.remaining_qty) _ (refund-Does p)))
          (λ x.
            Does-bind (send-Does ts (publish (orderbook_snapshot p.symbol) ∷ []))
              (λ y. pure-Does ts r nothing (λ w s. tt)))

    abbrev result : Matched → PlaceResult
    result m = result_of F makers maker_user seq m

    with_pair-Does :
        (p : OrderActionPayload) (m : Matched) (pair? : Option TradingPair)
        → Does ts (with_pair F makers maker_user seq p m pair?) nothing
    with_pair-Does p m none = pure-Does ts (result m) nothing (λ w s. tt)
    with_pair-Does p m (some pair) =
        let b = batch F makers maker_user seq p pair in
        let trades = map (trade_dict_to_domain F maker_user) m.fills in
        Does-bind
          (transaction-Does ts nothing (persist_trade_batch b trades)
            (persist_trade_batch-Does b trades ts))
          (λ x. finish-Does p (result m))

    fills-Post :
        (p : OrderActionPayload) (m : Matched) (fills : List Fill) (w : World)
        → Numbered w
        → AllStand ts w
        → Post {A = PlaceResult} nothing w (elim fills [
          | [] ↦ finish F makers maker_user seq p (result m) w
          | _ ∷ _ ↦ with_pair F makers maker_user seq p m (pair_by_symbol w.pairs p.symbol) w
        ])
    fills-Post p m [] w n s = (finish-Does p (result m)).run w n s
    fills-Post p m (f ∷ fs) w n s = (with_pair-Does p m (pair_by_symbol w.pairs p.symbol)).run w n s

    settle_match-Does :
        (p : OrderActionPayload) (m : Matched)
        → Does ts (settle_match F makers maker_user seq p m) nothing
    settle_match-Does p m = record {
      run = λ w n s. elim (Bool-cases (is_outcome_reject m.outcome)) [
        | inl e ↦ rw e (
            (Leaves-Does {A = PlaceResult} ts
                (λ v. (
                  ok (result m),
                  record v { commands = v.commands ++ rejected_event p m.outcome ∷ [] },
                ))
                (λ v. (refl, refl, λ h. h))).run
              w n s)
        | inr e ↦ rw e (fills-Post p m m.fills w n s)
      ];
    }

    handle_place-Does :
        (p : OrderActionPayload) → Does ts (handle_place F makers maker_user seq p) nothing
    unfolding handle_place
    handle_place-Does p =
        Does-bind (lift-Does (load_makers (map (as_doubles F) makers) empty_engine)) (λ e.
          Does-bind (lift-Does (build_corder F p))
            (λ t. settle_match-Does p (match_active_order t e).1))

    action-Does :
        (a : OrderAction) (p : OrderActionPayload)
        → Does ts (action F makers maker_user seq a p) nothing
    action-Does OrderAction.cancel p = pure-Does ts none nothing (λ w s. tt)
    action-Does OrderAction.modify p = pure-Does ts none nothing (λ w s. tt)
    action-Does OrderAction.place p =
        Does-bind (handle_place-Does p) (λ r. pure-Does ts (some r) nothing (λ w s. tt))

    pub process_action-Does :
        (p : OrderActionPayload) → Does ts (process_action F makers maker_user seq p) nothing
    unfolding process_action
    process_action-Does p = action-Does p.action p

pub credit_user-Does : (u a : ℕ) (n : ℤ) (ts : List Terms) → Does ts (credit_user u a n) nothing
unfolding credit_user
credit_user-Does u a (negsuc n) ts = raise-Does {A = Unit {0}} ts value_error nothing
credit_user-Does u a (pos zero) ts = raise-Does {A = Unit {0}} ts value_error nothing
credit_user-Does u a (pos (suc n)) ts =
    Leaves-Does ts (admin_adjust u a (pos (suc n)) deposit)
      (admin_adjust-Leaves u a (pos (suc n)) deposit)

pub debit_user-Does : (u a : ℕ) (n : ℤ) (ts : List Terms) → Does ts (debit_user u a n) nothing
unfolding debit_user
debit_user-Does u a (negsuc n) ts = raise-Does {A = Unit {0}} ts value_error nothing
debit_user-Does u a (pos zero) ts = raise-Does {A = Unit {0}} ts value_error nothing
debit_user-Does u a (pos (suc n)) ts =
    Leaves-Does ts (admin_adjust u a (negsuc n) deposit)
      (admin_adjust-Leaves u a (negsuc n) deposit)
