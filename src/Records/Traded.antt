-- ===== src/Records/Traded.antt =====
-- backend/app/services/trade_service.py: a batch of trades.
use uvipystock.Prelude.{
  ℕ, ◌+◌, ◌≡◌, refl, arith, Bool, true, false, List, [], ◌∷◌, ◌++◌, map, Option, none, some, All,
  Bool-cases, inl, inr,
}
use uvipystock.Prelude.Int.{pos}
use uvipystock.Enums.{OrderSide, buy, sell, OrderStatus, is_pending, is_filled}
use uvipystock.Redis.{trade_settled, trade_received, publish, sl_tp_activated}
use uvipystock.Model.{World}
use uvipystock.Model.Rows.{Order, Balance}
use uvipystock.Exec.{Exec, ok, gets, modify, when, ◌>>◌}
use uvipystock.Balance.Repo.{get_by_user_asset}
use uvipystock.Orders.Repo.{get_order, list_children_by_parent, is_child}
use uvipystock.Trade.Service.{
  settle_if, credit_if, pay_and_receive, settle_side, settle_trade_balances, update_redis_maker,
  maker_after, taker_after, save_order, update_maker, update_makers, activate_child, child_payload,
  activate_children, activate_sltp_children, update_taker, assign_makers, publish_trades,
  publish_taker, publish_orders, persist_trade_batch,
}
use uvipystock.Trade.Fills.{Batch, Fill, Totals, MatchTrade, collect, no_totals}
use uvipystock.Records.Table.{Terms, terms, terms_at, Stands, IsNumbered}
use uvipystock.Records.Rules.{
  Does, Post, Numbered, AllStand, nothing, found, found-get_order, Does-bind, pure-Does,
  modify-Does, send-Does, when-Does, gets-Does, if-Does, Leaves-Does, Kept-refl,
}
use uvipystock.Records.Balances.{settle_row_pessimistic-Leaves, credit_row_pessimistic-Leaves}

module _ (ts : List Terms) where
  settle_if-Does : (b : Option Balance) (n id : ℕ) → Does ts (settle_if b n id) nothing
  unfolding settle_if
  settle_if-Does none n id = pure-Does ts tt nothing (λ w s. tt)
  settle_if-Does (some b) n id =
      Leaves-Does ts _ (settle_row_pessimistic-Leaves b (pos n) trade_settled (some id))

  credit_if-Does : (b : Option Balance) (n id : ℕ) → Does ts (credit_if b n id) nothing
  unfolding credit_if
  credit_if-Does none n id = pure-Does ts tt nothing (λ w s. tt)
  credit_if-Does (some b) n id =
      Leaves-Does ts _ (credit_row_pessimistic-Leaves b (pos n) trade_received (some id))

  pay_and_receive-Does :
      (u paid pay received receive id : ℕ)
      → Does ts (pay_and_receive u paid pay received receive id) nothing
  unfolding pay_and_receive
  pay_and_receive-Does u paid pay received receive id =
      Does-bind (gets-Does ts (λ w. get_by_user_asset w.balances u paid)) (λ payer.
        Does-bind (settle_if-Does payer pay id) (λ x.
          Does-bind (gets-Does ts (λ w. get_by_user_asset w.balances u received))
            (λ receiver. credit_if-Does receiver receive id)))

  settle_side-Does :
      (b : Batch) (side : OrderSide) (is_taker : Bool) (o : Order) (qty quote : ℕ)
      → Does ts (settle_side b side is_taker o qty quote) nothing
  unfolding settle_side
  settle_side-Does b buy true o qty quote = pay_and_receive-Does _ _ _ _ _ _
  settle_side-Does b sell true o qty quote = pay_and_receive-Does _ _ _ _ _ _
  settle_side-Does b buy false o qty quote = pay_and_receive-Does _ _ _ _ _ _
  settle_side-Does b sell false o qty quote = pay_and_receive-Does _ _ _ _ _ _

  settle-Does :
      (b : Batch) (is_taker : Bool) (o : Order) (qty quote : ℕ)
      → Does ts (settle_trade_balances b is_taker o qty quote) nothing
  unfolding settle_trade_balances
  settle-Does b is_taker o qty quote = settle_side-Does b b.taker_side is_taker o qty quote

  redis_maker-Does : (o : Order) → Does ts (update_redis_maker o) nothing
  unfolding update_redis_maker
  redis_maker-Does o = if-Does (is_filled o.status) (send-Does ts _) (send-Does ts _)

module _ (b : Batch) (f : Fill) where
  update_found-Post :
      (ts : List Terms) (w : World) (r : Option Order)
      → Numbered w
      → AllStand (found r) w
      → Post {A = Unit {0}} nothing w (elim r [
        | none ↦ (ok tt, w)
        | some o ↦
            (save_order (maker_after f.qty f.quote_qty o)
                >> (settle_trade_balances b false
                      (maker_after f.qty f.quote_qty o)
                      f.qty
                      f.quote_qty
                    >> update_redis_maker (maker_after f.qty f.quote_qty o)))
              w
      ])
  unfolding maker_after
  update_found-Post ts w none n s = (Kept-refl n, tt)
  update_found-Post ts w (some o) n s =
      let us = terms o ∷ [] in
      (Does-bind (modify-Does us (maker_after f.qty f.quote_qty o) (λ v t. t.0)) (λ x.
          Does-bind (settle-Does us b false (maker_after f.qty f.quote_qty o) f.qty f.quote_qty)
            (λ y. redis_maker-Does us (maker_after f.qty f.quote_qty o)))).run
        w n s

  update_maker-Does : (ts : List Terms) → Does ts (update_maker b f) nothing
  unfolding update_maker
  update_maker-Does ts = record {
    run = λ w n s.
        update_found-Post ts w (get_order w.orders f.order_id) n
          (found-get_order w.orders f.order_id w (get_order w.orders f.order_id) refl);
  }

update_makers-Does :
    (b : Batch) (fs : List Fill) (ts : List Terms) → Does ts (update_makers b fs) nothing
unfolding update_makers
update_makers-Does b [] ts = pure-Does ts tt nothing (λ w s. tt)
update_makers-Does b (f ∷ fs) ts =
    Does-bind (update_maker-Does b f ts) (λ x. update_makers-Does b fs ts)

-- The children that are listed stand.
Stands-more :
    (o : Order) (os : List Order) (t : Terms)
    → terms_at os o.id ≡ none
    → Stands t os
    → Stands t (o ∷ os)
unfolding terms_at
Stands-more o os t h s = ground (arith, h, s)

All-more :
    (o : Order) (os : List Order) (ts : List Terms)
    → terms_at os o.id ≡ none
    → All (λ t. Stands t os) ts
    → All (λ t. Stands t (o ∷ os)) ts
All-more o os [] h a = tt
All-more o os (t ∷ ts) h a = (Stands-more o os t h a.0, All-more o os ts h a.1)

first-Stands : (o : Order) (os : List Order) → Stands (terms o) (o ∷ os)
unfolding terms_at
first-Stands o os = ground arith

children-AllStand :
    (id n : ℕ) (os : List Order)
    → IsNumbered n os
    → All (λ t. Stands t os) (map terms (list_children_by_parent id os))
unfolding list_children_by_parent
children-AllStand id n [] h = tt
children-AllStand id n (o ∷ os) h =
    let rest =
      All-more o os (map terms (list_children_by_parent id os)) h.1
        (children-AllStand id n os h.2) in
    elim (Bool-cases (is_child id o.parent_order_id)) [
      | inl e ↦ rw e (first-Stands o os, rest)
      | inr e ↦ rw e rest
    ]

children-Does :
    (id : ℕ) (ts : List Terms)
    → Does ts (gets (λ w. list_children_by_parent id w.orders)) (map terms)
children-Does id ts = record {
  run = λ w n s. (Kept-refl n, children-AllStand id w.next_order_id w.orders n);
}

-- A method that needs less.
rest-Does :
    {A : Type 0} {us : A → List Terms} {m : Exec A} (t : Terms) (ts : List Terms)
    → Does ts m us
    → Does (t ∷ ts) m us
rest-Does t ts d = record { run = λ w n s. d.run w n s.1 }

module _ (parent : Order) where
  activate_child-Does :
      (c : Order) (ts : List Terms) → Does (terms c ∷ ts) (activate_child parent c) nothing
  unfolding activate_child
  activate_child-Does c ts = when-Does (terms c ∷ ts) (is_pending c.status) _ (
      Does-bind
        (modify-Does (terms c ∷ ts) (record c { status = OrderStatus.new; version = c.version + 1 })
          (λ w s. s.0))
        (λ x. Does-bind (send-Does (terms c ∷ ts) (child_payload parent.id c)) (λ y.
          send-Does (terms c ∷ ts) (
            publish (sl_tp_activated c.user_id parent.id parent.sl_order_id parent.tp_order_id)
            ∷ []))))

  activate_children-Does :
      (cs : List Order) (ts : List Terms)
      → Does (map terms cs ++ ts) (activate_children parent cs) nothing
  unfolding activate_children
  activate_children-Does [] ts = pure-Does ts tt nothing (λ w s. tt)
  activate_children-Does (c ∷ cs) ts =
      Does-bind (activate_child-Does c (map terms cs ++ ts))
        (λ x. rest-Does (terms c) (map terms cs ++ ts) (activate_children-Does cs ts))

  activate-Does : (ts : List Terms) → Does ts (activate_sltp_children parent) nothing
  unfolding activate_sltp_children
  activate-Does ts = Does-bind (children-Does parent.id ts) (λ cs. activate_children-Does cs ts)

module _ (b : Batch) (acc : Totals) where
  taker_found-Post :
      (w : World) (r : Option Order)
      → Numbered w
      → AllStand (found r) w
      → Post {A = Unit {0}} nothing w (elim r [
        | none ↦ (ok tt, w)
        | some o ↦
            (save_order (taker_after acc.taker_total_qty acc.taker_total_quote o)
                >> (settle_trade_balances b true
                      (taker_after acc.taker_total_qty acc.taker_total_quote o)
                      acc.taker_total_qty
                      acc.taker_total_quote
                    >> when
                        (is_filled (taker_after acc.taker_total_qty acc.taker_total_quote o).status)
                        (activate_sltp_children
                          (taker_after acc.taker_total_qty acc.taker_total_quote o))))
              w
      ])
  unfolding taker_after
  taker_found-Post w none n s = (Kept-refl n, tt)
  taker_found-Post w (some o) n s =
      let us = terms o ∷ [] in
      let o' = taker_after acc.taker_total_qty acc.taker_total_quote o in
      (Does-bind (modify-Does us o' (λ v t. t.0)) (λ x.
          Does-bind (settle-Does us b true o' acc.taker_total_qty acc.taker_total_quote)
            (λ y. when-Does us (is_filled o'.status) _ (activate-Does o' us)))).run
        w n s

  update_taker-Does : (ts : List Terms) → Does ts (update_taker b acc) nothing
  unfolding update_taker
  update_taker-Does ts = record {
    run = λ w n s.
        taker_found-Post w (get_order w.orders b.taker_order_id) n
          (found-get_order w.orders b.taker_order_id w (get_order w.orders b.taker_order_id) refl);
  }

pub persist_trade_batch-Does :
    (b : Batch) (trades : List MatchTrade) (ts : List Terms)
    → Does ts (persist_trade_batch b trades) nothing
unfolding persist_trade_batch publish_trades publish_taker publish_orders
persist_trade_batch-Does b [] ts = pure-Does ts [] nothing (λ w s. tt)
persist_trade_batch-Does b (t ∷ trades) ts =
    let acc = collect b (t ∷ trades) no_totals in
    Does-bind (update_makers-Does b acc.fills ts) (λ x. Does-bind (update_taker-Does b acc ts) (λ y.
      Does-bind (gets-Does ts (λ w. w.orders)) (λ os.
        let persisted = assign_makers os acc.persisted in
        Does-bind
          (Leaves-Does ts (modify (λ w. record w { trades = w.trades ++ persisted }))
            (λ w. (refl, refl, λ h. h)))
          (λ z.
            Does-bind
              (send-Does ts (
                publish_trades persisted
                ++ (publish_taker (get_order os b.taker_order_id) ++ publish_orders os acc.fills)))
              (λ z'. pure-Does ts persisted nothing (λ w s. tt))))))
