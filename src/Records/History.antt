-- ===== src/Records/History.antt =====
-- backend/app/services and matching: the methods that write to the tables of orders and balances, one
-- call after the other, in any order.
use uvipystock.Prelude.{ℕ, List, [], Option}
use uvipystock.Prelude.Int.{ℤ}
use uvipystock.Model.{World}
use uvipystock.Exec.{transaction}
use uvipystock.Orders.Validate.{OrderCreate, MakerOrder}
use uvipystock.Orders.Place.{place_order}
use uvipystock.Orders.Bulk.{place_bulk_orders}
use uvipystock.Orders.Cancel.{cancel_order, cancel_bulk_orders}
use uvipystock.Orders.Modify.{modify_order}
use uvipystock.Balance.Pessimistic.{credit_user, debit_user}
use uvipystock.Redis.{OrderActionPayload}
use uvipystock.Worker.Bridge.{Floats}
use uvipystock.Worker.Place.{process_action}
use uvipystock.Stops.Queue.{SortedSet}
use uvipystock.Stops.Trailing.{Trailing}
use uvipystock.Stops.Monitor.{Extremes, rescan_pending_stops, process_trade_print}
use uvipystock.Records.Rules.{Kept, Numbered, nothing, transaction-Does, Kept-refl, Kept-trans}
use uvipystock.Records.Placed.{the_row, the_rows, place_order-Does, place_bulk_orders-Does}
use uvipystock.Records.Canceled.{cancel_order-Does, cancel_bulk_orders-Does, modify_order-Does}
use uvipystock.Records.Worked.{process_action-Does, credit_user-Does, debit_user-Does}
use uvipystock.Records.Stopped.{rescan-Does, print-Does}

-- One call. What it reads from Redis is any. The worker and the monitor have their transactions within
-- the call; the other calls are one each.
pub data Step (w : World) : World → Type 1 where
  placed :
      (asks : ℕ → List MakerOrder) (user_id : ℕ) (dto : OrderCreate)
      → Step w (transaction (place_order asks user_id dto) w).1
  bulk_placed :
      (asks : ℕ → List MakerOrder) (user_id : ℕ) (bulk_id : Option ℕ) (dtos : List OrderCreate)
      → Step w (transaction (place_bulk_orders asks user_id bulk_id dtos) w).1
  canceled : (user_id id : ℕ) → Step w (transaction (cancel_order user_id id) w).1
  bulk_canceled :
      (user_id : ℕ) (ids : List ℕ) → Step w (transaction (cancel_bulk_orders user_id ids) w).1
  modified :
      (user_id id price quantity : ℕ)
      → Step w (transaction (modify_order user_id id price quantity) w).1
  worked :
      (F : Floats) (makers : List MakerOrder) (maker_user : ℕ → ℕ) (seq : ℕ)
      (p : OrderActionPayload)
      → Step w (process_action F makers maker_user seq p w).1
  credited :
      (user_id asset : ℕ) (amount : ℤ) → Step w (transaction (credit_user user_id asset amount) w).1
  debited :
      (user_id asset : ℕ) (amount : ℤ) → Step w (transaction (debit_user user_id asset amount) w).1
  rescanned :
      (asks : ℕ → List MakerOrder) (symbol : ℕ) (last : Option ℕ)
      → Step w (rescan_pending_stops asks symbol last w).1
  printed :
      (S : SortedSet) (stops trailing : S.Members) (asks : ℕ → List MakerOrder) (symbol price : ℕ)
      (e : Extremes) (states : List (ℕ × Option Trailing))
      → Step w (process_trade_print S stops trailing asks symbol price e states w).1

pub data History (w : World) : World → Type 1 where
  start : History w w
  later : {v u : World} → History w v → Step v u → History w u

Step-Kept : {w v : World} → Numbered w → Step w v → Kept w v
Step-Kept {w} n (placed asks u dto) =
    ((transaction-Does [] the_row (place_order asks u dto) (place_order-Does asks u dto [])).run w n
      tt).0
Step-Kept {w} n (bulk_placed asks u bulk_id dtos) =
    ((transaction-Does [] the_rows (place_bulk_orders asks u bulk_id dtos)
        (place_bulk_orders-Does asks u bulk_id dtos [])).run
      w n tt).0
Step-Kept {w} n (canceled u id) =
    ((transaction-Does [] nothing (cancel_order u id) (cancel_order-Does [] u id)).run w n tt).0
Step-Kept {w} n (bulk_canceled u ids) =
    ((transaction-Does [] nothing (cancel_bulk_orders u ids) (cancel_bulk_orders-Does [] u ids)).run
      w n tt).0
Step-Kept {w} n (modified u id price quantity) =
    ((transaction-Does [] nothing (modify_order u id price quantity)
        (modify_order-Does [] u id price quantity)).run
      w n tt).0
Step-Kept {w} n (worked F makers maker_user seq p) =
    ((process_action-Does [] F makers maker_user seq p).run w n tt).0
Step-Kept {w} n (credited u a k) =
    ((transaction-Does [] nothing (credit_user u a k) (credit_user-Does u a k [])).run w n tt).0
Step-Kept {w} n (debited u a k) =
    ((transaction-Does [] nothing (debit_user u a k) (debit_user-Does u a k [])).run w n tt).0
Step-Kept {w} n (rescanned asks symbol last) = ((rescan-Does asks symbol last []).run w n tt).0
Step-Kept {w} n (printed S stops trailing asks symbol price e states) =
    ((print-Does S stops trailing asks symbol price e states []).run w n tt).0

-- From a table whose ids are used once and are below the sequence, and through any calls in any
-- order, those that are refused and rolled back included: the ids stay so, no order is lost, none
-- gets another owner, symbol, side, type, price, quantity or parent, and where in every row of
-- balances the total is what is locked and what is available, it is so in every row again.
pub history-Kept : {w v : World} → Numbered w → History w v → Kept w v
history-Kept n start = Kept-refl n
history-Kept n (later h s) = let k = history-Kept n h in Kept-trans k (Step-Kept k.numbered s)
