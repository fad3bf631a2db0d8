-- ===== src/Records/Placed.antt =====
-- backend/app/services/order_service.py: placements, one order or several.
use uvipystock.Prelude.{ℕ, ltb, Bool, not, ◌&&◌, List, [], ◌∷◌, ◌++◌, Option, none, some, map}
use uvipystock.Prelude.Int.{pos}
use uvipystock.Model.{World, pair_by_symbol}
use uvipystock.Model.Rows.{Order, TradingPair}
use uvipystock.Enums.{is_stop_type, is_market, is_buy}
use uvipystock.Redis.{Reason, order_rejected, order_placed}
use uvipystock.Exec.{Error, order_validation, insufficient_balance}
use uvipystock.Balance.Service.{quiet, lock_optimistic}
use uvipystock.Orders.Bulk.{
  Requirement, require, requirements, unlock_done, on_shortage, lock_all, insert_each, with_bulk_id,
  place_bulk_orders,
}
use uvipystock.Orders.Validate.{
  OrderCreate, MakerOrder, SltpConfig, validate_and_get_pair, validate_params, checks, raise_any,
  lock_for, market_buy_lock, market_buy_cost, compute_lock, no_lock,
}
use uvipystock.Orders.Place.{
  insert_with_children, create_sltp_child, link_sl, link_tp, new_order, sltp_child, take_some,
  lock_reason, placed_event, place_order,
}
use uvipystock.Records.Table.{Terms, terms}
use uvipystock.Records.Rules.{
  AllStand, Does, nothing, Does-bind, pure-Does, insert-Does, save-Does, send-Does, when-Does,
  raise_if-Does, gets-Does, or_raise-nothing, Leaves-Does, if-Does, raise-Does, catch-Does,
}
use uvipystock.Records.Balances.{lock_optimistic-Leaves, unlock_optimistic-Leaves}

abbrev pub the_row : Order → List Terms
the_row o = terms o ∷ []

abbrev pub the_rows : List Order → List Terms
the_rows os = map terms os

first_rows : (us ts : List Terms) (w : World) → AllStand (us ++ ts) w → AllStand us w
first_rows [] ts w h = tt
first_rows (u ∷ us) ts w h = (h.0, first_rows us ts w h.1)

rest_rows : (us ts : List Terms) (w : World) → AllStand (us ++ ts) w → AllStand ts w
rest_rows [] ts w h = h
rest_rows (u ∷ us) ts w h = rest_rows us ts w h.1

module _ (u : ℕ) where
  link_sl-Does :
      (ts : List Terms) (c : Option SltpConfig) (o : Order)
      → Does (terms o ∷ ts) (link_sl u c o) the_row
  unfolding link_sl create_sltp_child
  link_sl-Does ts none o = pure-Does (terms o ∷ ts) o the_row (λ w s. (s.0, tt))
  link_sl-Does ts (some c) o = Does-bind (insert-Does (terms o ∷ ts) (sltp_child u c o)) (λ child.
      save-Does (terms child ∷ terms o ∷ ts) (record o { sl_order_id = some child.id })
        (λ w s. s.1.0))

  link_tp-Does :
      (ts : List Terms) (c : Option SltpConfig) (o : Order)
      → Does (terms o ∷ ts) (link_tp u c o) the_row
  unfolding link_tp create_sltp_child
  link_tp-Does ts none o = pure-Does (terms o ∷ ts) o the_row (λ w s. (s.0, tt))
  link_tp-Does ts (some c) o = Does-bind (insert-Does (terms o ∷ ts) (sltp_child u c o)) (λ child.
      save-Does (terms child ∷ terms o ∷ ts) (record o { tp_order_id = some child.id })
        (λ w s. s.1.0))

  pub insert_with_children-Does :
      (ts : List Terms) (dto : OrderCreate) → Does ts (insert_with_children u dto) the_row
  unfolding insert_with_children
  insert_with_children-Does ts dto =
      Does-bind (insert-Does ts (new_order u dto))
        (λ o. Does-bind (link_sl-Does ts dto.sl o) (λ o'. link_tp-Does (terms o ∷ ts) dto.tp o'))

module _ (ts : List Terms) where
  raise_any-Does : (bs : List Bool) → Does ts (raise_any bs) nothing
  unfolding raise_any
  raise_any-Does [] = pure-Does ts tt nothing (λ w s. tt)
  raise_any-Does (b ∷ bs) = Does-bind (raise_if-Does ts b order_validation) (λ x. raise_any-Does bs)

  pub validated-Does : (symbol : ℕ) → Does ts (validate_and_get_pair symbol) nothing
  unfolding validate_and_get_pair
  validated-Does symbol = Does-bind (gets-Does ts (λ w. pair_by_symbol w.pairs symbol)) (λ found.
      Does-bind (or_raise-nothing ts found order_validation) (λ pair.
        Does-bind (raise_if-Does ts (not pair.is_active) order_validation)
          (λ x. pure-Does ts pair nothing (λ w s. tt))))

  pub params-Does :
      (dto : OrderCreate) (pair : TradingPair) → Does ts (validate_params dto pair) nothing
  unfolding validate_params
  params-Does dto pair = raise_any-Does (checks dto pair)

  market_buy_lock-Does :
      (asks : List MakerOrder) (dto : OrderCreate) (pair : TradingPair)
      → Does ts (market_buy_lock asks dto pair) nothing
  unfolding market_buy_lock
  market_buy_lock-Does asks dto pair =
      Does-bind (or_raise-nothing ts (market_buy_cost asks dto.quantity) order_validation)
        (λ amount. pure-Does ts _ nothing (λ w s. tt))

  pub lock_for-Does :
      (asks : ℕ → List MakerOrder) (dto : OrderCreate) (pair : TradingPair)
      → Does ts (lock_for asks dto pair) nothing
  unfolding lock_for
  lock_for-Does asks dto pair =
      if-Does (is_stop_type dto.type) (pure-Does ts no_lock nothing (λ w s. tt)) (
        if-Does (is_market dto.type && is_buy dto.side)
          (market_buy_lock-Does (asks dto.symbol) dto pair)
          (pure-Does ts (compute_lock dto pair) nothing (λ w s. tt)))

  take_some-Does :
      (u : ℕ) (asset : Option ℕ) (amount : ℕ) (reason : Reason)
      → Does ts (take_some u asset amount reason) nothing
  take_some-Does u none amount reason = pure-Does ts tt nothing (λ w s. tt)
  take_some-Does u (some asset) amount reason = when-Does ts (ltb 0 amount) _ (
      Leaves-Does ts (lock_optimistic quiet u asset (pos amount) reason none)
        (lock_optimistic-Leaves u asset (pos amount) reason none))

pub place_order-Does :
    (asks : ℕ → List MakerOrder) (u : ℕ) (dto : OrderCreate) (ts : List Terms)
    → Does ts (place_order asks u dto) the_row
unfolding place_order
place_order-Does asks u dto ts = Does-bind (validated-Does ts dto.symbol) (λ pair.
    Does-bind (params-Does ts dto pair) (λ x. Does-bind (lock_for-Does ts asks dto pair) (λ lock.
      Does-bind (take_some-Does ts u lock.asset lock.amount (lock_reason dto)) (λ y.
        Does-bind (insert_with_children-Does u ts dto) (λ o.
          Does-bind (send-Does (terms o ∷ ts) _) (λ z.
            Does-bind (send-Does (terms o ∷ ts) (placed_event o ∷ []))
              (λ z'. pure-Does (terms o ∷ ts) o the_row (λ w s. (s.0, tt)))))))))

-- Several orders: all are validated, then all is locked, then all are inserted.
pub requirements-Does :
    (asks : ℕ → List MakerOrder) (dtos : List OrderCreate) (rs : List Requirement) (ts : List Terms)
    → Does ts (requirements asks dtos rs) nothing
unfolding requirements
requirements-Does asks [] rs ts = pure-Does ts rs nothing (λ w s. tt)
requirements-Does asks (dto ∷ dtos) rs ts = Does-bind (validated-Does ts dto.symbol) (λ pair.
    Does-bind (params-Does ts dto pair) (λ x.
      Does-bind (lock_for-Does ts asks dto pair)
        (λ lock. requirements-Does asks dtos (require lock rs) ts)))

module _ (u : ℕ) (ts : List Terms) where
  unlock_done-Does : (rs : List Requirement) → Does ts (unlock_done u rs) nothing
  unfolding unlock_done
  unlock_done-Does [] = pure-Does ts tt nothing (λ w s. tt)
  unlock_done-Does (r ∷ rs) =
      Does-bind
        (catch-Does ts nothing _ (λ e. pure-Does ts tt nothing (λ w s. tt)) _
          (Leaves-Does ts _
            (unlock_optimistic-Leaves u r.asset (pos r.amount) order_rejected none)))
        (λ x. unlock_done-Does rs)

  on_shortage-Does :
      (bulk_id : Option ℕ) (total : ℕ) (done : List Requirement) (e : Error)
      → Does ts (on_shortage u bulk_id total done e) nothing
  unfolding on_shortage
  on_shortage-Does bulk_id total done insufficient_balance =
      Does-bind (unlock_done-Does done)
        (λ x. Does-bind (send-Does ts _) (λ y. raise-Does ts insufficient_balance nothing))
  on_shortage-Does bulk_id total done e = raise-Does ts e nothing

  pub lock_all-Does :
      (bulk_id : Option ℕ) (total : ℕ) (done rs : List Requirement)
      → Does ts (lock_all u bulk_id total done rs) nothing
  unfolding lock_all
  lock_all-Does bulk_id total done [] = pure-Does ts tt nothing (λ w s. tt)
  lock_all-Does bulk_id total done (r ∷ rs) =
      Does-bind
        (catch-Does ts nothing _ (on_shortage-Does bulk_id total done) _
          (Leaves-Does ts _ (lock_optimistic-Leaves u r.asset (pos r.amount) order_placed none)))
        (λ x. lock_all-Does bulk_id total (done ++ r ∷ []) rs)

insert_each-Does :
    (u : ℕ) (dtos : List OrderCreate) (ts : List Terms) → Does ts (insert_each u dtos) the_rows
unfolding insert_each
insert_each-Does u [] ts = pure-Does ts [] the_rows (λ w s. tt)
insert_each-Does u (dto ∷ dtos) ts = Does-bind (insert_with_children-Does u ts dto) (λ o.
    Does-bind (send-Does (terms o ∷ ts) _) (λ x.
      Does-bind (insert_each-Does u dtos (terms o ∷ ts)) (λ os.
        pure-Does (the_rows os ++ terms o ∷ ts) (o ∷ os) the_rows (λ w s. (
          (rest_rows (the_rows os) (terms o ∷ ts) w s).0,
          first_rows (the_rows os) (terms o ∷ ts) w s,
        )))))

pub place_bulk_orders-Does :
    (asks : ℕ → List MakerOrder) (u : ℕ) (bulk_id : Option ℕ) (dtos : List OrderCreate)
    (ts : List Terms)
    → Does ts (place_bulk_orders asks u bulk_id dtos) the_rows
unfolding place_bulk_orders
place_bulk_orders-Does asks u bulk_id [] ts = pure-Does ts [] the_rows (λ w s. tt)
place_bulk_orders-Does asks u bulk_id (dto ∷ dtos) ts =
    Does-bind (requirements-Does asks (with_bulk_id bulk_id (dto ∷ dtos)) [] ts) (λ rs.
      Does-bind (lock_all-Does u ts bulk_id _ [] rs) (λ x.
        Does-bind (insert_each-Does u (with_bulk_id bulk_id (dto ∷ dtos)) ts) (λ os.
          Does-bind (send-Does (the_rows os ++ ts) _) (λ y.
            pure-Does (the_rows os ++ ts) os the_rows (λ w s. first_rows (the_rows os) ts w s)))))
