-- ===== src/Records/Stopped.antt =====
-- backend/app/services/stop_monitor_service.py: triggers, and the monitor's round on a trade print.
use uvipystock.Prelude.{
  ℕ, refl, Bool, true, false, if◌then◌else◌, List, [], ◌∷◌, Option, none, some,
}
use uvipystock.Prelude.Int.{pos}
use uvipystock.Enums.{is_pending}
use uvipystock.Redis.{stop_triggered}
use uvipystock.Model.{World, pair_by_symbol}
use uvipystock.Model.Rows.{Order, TradingPair}
use uvipystock.Exec.{Result, ok, err}
use uvipystock.Balance.Service.{quiet, lock_optimistic}
use uvipystock.Orders.Repo.{get_order, list_pending_stops}
use uvipystock.Orders.Validate.{MakerOrder}
use uvipystock.Stops.Queue.{SortedSet, get_all_triggered_stops}
use uvipystock.Stops.Trailing.{Trailing}
use uvipystock.Stops.Monitor.{
  triggered_order, child_order, trigger_commands, convert, after_lock, lock_then, with_pair,
  trigger_found, trigger_stop_order, trigger_each, should_trigger, rescan_each,
  rescan_pending_stops, Extremes, update_extremes, trailing_updates, process_trade_print,
}
use uvipystock.Records.Table.{Terms, terms}
use uvipystock.Records.Rules.{
  Does, Post, Numbered, AllStand, nothing, found, found-get_order, Does-bind, pure-Does,
  insert-Does, modify-Does, send-Does, when-Does, gets-Does, catch-Does, transaction-Does,
  Leaves-Does, Kept-refl, Kept-trans, Kept-AllStand,
}
use uvipystock.Records.Balances.{lock_optimistic-Leaves}

module _ (o : Order) (t : Bool) where
  convert-Does : (ts : List Terms) → Does (terms o ∷ ts) (convert o t) nothing
  unfolding convert
  convert-Does ts = Does-bind (modify-Does (terms o ∷ ts) (triggered_order o) (λ w s. s.0)) (λ x.
      Does-bind (insert-Does (terms o ∷ ts) (child_order o))
        (λ c. send-Does _ (trigger_commands o c t)))

  after_lock-Post :
      (w : World) (r : Result (Unit {0})) (w' : World)
      → AllStand (terms o ∷ []) w
      → Post {A = Unit {0}} nothing w (r, w')
      → Post {A = Unit {0}} nothing w (after_lock o t (r, w'))
  after_lock-Post w (ok x) w' s p =
      let q = (convert-Does []).run w' p.0.numbered (Kept-AllStand (terms o ∷ []) p.0 s) in
      (Kept-trans p.0 q.0, q.1)
  after_lock-Post w (err e) w' s p = (p.0, tt)

  lock_then-Does : (asset : ℕ) (n : Option ℕ) → Does (terms o ∷ []) (lock_then o t asset n) nothing
  lock_then-Does asset none = pure-Does (terms o ∷ []) tt nothing (λ w s. tt)
  lock_then-Does asset (some n) = record {
    run = λ w k s. after_lock-Post w _ _ s (
        (Leaves-Does (terms o ∷ [])
            (lock_optimistic quiet o.user_id asset (pos n) stop_triggered (some o.id))
            (lock_optimistic-Leaves o.user_id asset (pos n) stop_triggered (some o.id))).run
          w k s);
  }

  with_pair-Does :
      (asks : List MakerOrder) (pair? : Option TradingPair)
      → Does (terms o ∷ []) (with_pair asks o t pair?) nothing
  with_pair-Does asks none = pure-Does (terms o ∷ []) tt nothing (λ w s. tt)
  with_pair-Does asks (some pair) = lock_then-Does _ _

module _ (asks : ℕ → List MakerOrder) where
  pending-Post :
      (o : Order) (t b : Bool) (w : World)
      → Numbered w
      → AllStand (terms o ∷ []) w
      → Post {A = Unit {0}} nothing w (
          if b
          then with_pair (asks o.symbol) o t (pair_by_symbol w.pairs o.symbol) w
          else (ok tt, w))
  pending-Post o t true w n s =
      (with_pair-Does o t (asks o.symbol) (pair_by_symbol w.pairs o.symbol)).run w n s
  pending-Post o t false w n s = (Kept-refl n, tt)

  trigger_found-Post :
      (t : Bool) (r : Option Order) (w : World)
      → Numbered w
      → AllStand (found r) w
      → Post {A = Unit {0}} nothing w (trigger_found asks t r w)
  trigger_found-Post t none w n s = (Kept-refl n, tt)
  trigger_found-Post t (some o) w n s = pending-Post o t (is_pending o.status) w n s

  trigger-Does :
      (id : ℕ) (t : Bool) (ts : List Terms) → Does ts (trigger_stop_order asks id t) nothing
  unfolding trigger_stop_order
  trigger-Does id t ts = record {
    run = λ w n s.
        trigger_found-Post t (get_order w.orders id) w n
          (found-get_order w.orders id w (get_order w.orders id) refl);
  }

  pub trigger_each-Does :
      (ids : List ℕ) (t : Bool) (ts : List Terms) → Does ts (trigger_each asks ids t) nothing
  unfolding trigger_each
  trigger_each-Does [] t ts = pure-Does ts tt nothing (λ w s. tt)
  trigger_each-Does (id ∷ ids) t ts =
      Does-bind
        (catch-Does ts nothing _ (λ e. pure-Does ts tt nothing (λ w s. tt)) _
          (transaction-Does ts nothing (trigger_stop_order asks id t) (trigger-Does id t ts)))
        (λ x. trigger_each-Does ids t ts)

  rescan_each-Does :
      (os : List Order) (last : ℕ) (ts : List Terms) → Does ts (rescan_each asks os last) nothing
  unfolding rescan_each
  rescan_each-Does [] last ts = pure-Does ts tt nothing (λ w s. tt)
  rescan_each-Does (o ∷ os) last ts =
      Does-bind
        (when-Does ts (should_trigger asks o.side o.stop_price last) _
          (trigger_each-Does (o.id ∷ []) false ts))
        (λ x. rescan_each-Does os last ts)

  pub rescan-Does :
      (symbol : ℕ) (last : Option ℕ) (ts : List Terms)
      → Does ts (rescan_pending_stops asks symbol last) nothing
  unfolding rescan_pending_stops
  rescan-Does symbol none ts = pure-Does ts tt nothing (λ w s. tt)
  rescan-Does symbol (some last) ts =
      Does-bind (gets-Does ts (λ w. list_pending_stops symbol w.orders))
        (λ pending. rescan_each-Does pending last ts)

pub print-Does :
    (S : SortedSet) (stops trailing : S.Members) (asks : ℕ → List MakerOrder) (symbol price : ℕ)
    (e : Extremes) (states : List (ℕ × Option Trailing)) (ts : List Terms)
    → Does ts (process_trade_print S stops trailing asks symbol price e states) nothing
unfolding process_trade_print
print-Does S stops trailing asks symbol price e states ts =
    Does-bind (send-Does ts (trailing_updates symbol price e states)) (λ x.
      Does-bind (trigger_each-Does asks (get_all_triggered_stops S stops price) false ts) (λ y.
        Does-bind (trigger_each-Does asks (get_all_triggered_stops S trailing price) true ts)
          (λ z. pure-Does ts (update_extremes price e) nothing (λ w s. tt))))
