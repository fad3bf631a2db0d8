-- ===== src/Orders/Bulk.antt =====
-- backend/app/services/order_service.py: `place_bulk_orders`. Assets are numbered in the order of
-- their names, so that the requirements are kept sorted as they are added.
use uvipystock.Prelude.{
  ℕ, ◌+◌, ◌==◌, ltb, if◌then◌else◌, List, [], ◌∷◌, ◌++◌, Option, none, some, length,
}
use uvipystock.Prelude.Int.{pos}
use uvipystock.Enums.{is_stop_type}
use uvipystock.Model.Rows.{Order}
use uvipystock.Redis.{publish, bulk_place_result, order_placed, order_rejected}
use uvipystock.Exec.{Exec, Error, pure, raise, send, catch, ◌>>=◌, ◌>>◌, insufficient_balance}
use uvipystock.Balance.Service.{quiet, lock_optimistic, unlock_optimistic}
use uvipystock.Orders.Validate.{
  OrderCreate, MakerOrder, Lock, validate_and_get_pair, validate_params, lock_for,
}
use uvipystock.Orders.Place.{insert_with_children, register_stop_order, enqueue_placed}

-- An entry of `lock_requirements`.
pub record Requirement : Type 0 where
  pub asset : ℕ
  pub amount : ℕ

unfoldable pub add_requirement : ℕ → ℕ → List Requirement → List Requirement
add_requirement asset amount [] = record { asset = asset; amount = amount } ∷ []
add_requirement asset amount (r ∷ rs) =
    if r.asset == asset
    then record r { amount = r.amount + amount } ∷ rs
    else if ltb asset r.asset
    then record { asset = asset; amount = amount } ∷ r ∷ rs
    else r ∷ add_requirement asset amount rs

-- `if lock_asset and lock_amount > 0`
abbrev pub require : Lock → List Requirement → List Requirement
require lock rs = elim lock.asset [
  | none ↦ rs
  | some asset ↦ if ltb 0 lock.amount then add_requirement asset lock.amount rs else rs
]

-- The first loop: every order is validated before anything is locked.
unfoldable pub requirements :
    (ℕ → List MakerOrder) → List OrderCreate → List Requirement → Exec (List Requirement)
unfolding add_requirement
requirements asks [] rs = pure rs
requirements asks (dto ∷ dtos) rs = do
  pair ← validate_and_get_pair dto.symbol
  validate_params dto pair
  lock ← lock_for asks dto pair
  requirements asks dtos (require lock rs)

-- The rollback releases what is locked so far; a failure to do so is only logged.
unfoldable pub unlock_done : ℕ → List Requirement → Exec (Unit {0})
unlock_done user_id [] = pure tt
unlock_done user_id (r ∷ rs) = do
  catch (unlock_optimistic quiet user_id r.asset (pos r.amount) order_rejected none) (λ e. pure tt)
  unlock_done user_id rs

unfoldable pub on_shortage : ℕ → Option ℕ → ℕ → List Requirement → Error → Exec (Unit {0})
unfolding unlock_done
on_shortage user_id bulk_id total done insufficient_balance = do
  unlock_done user_id done
  send (publish (bulk_place_result user_id bulk_id total 0) ∷ [])
  raise insufficient_balance
on_shortage user_id bulk_id total done e = raise e

unfoldable pub lock_all : ℕ → Option ℕ → ℕ → List Requirement → List Requirement → Exec (Unit {0})
unfolding on_shortage
lock_all user_id bulk_id total done [] = pure tt
lock_all user_id bulk_id total done (r ∷ rs) = do
  catch (lock_optimistic quiet user_id r.asset (pos r.amount) order_placed none)
      (on_shortage user_id bulk_id total done)
  lock_all user_id bulk_id total (done ++ r ∷ []) rs

unfoldable pub insert_each : ℕ → List OrderCreate → Exec (List Order)
unfolding insert_with_children
insert_each user_id [] = pure []
insert_each user_id (dto ∷ dtos) = do
  o ← insert_with_children user_id dto
  send (if is_stop_type o.type then register_stop_order o else enqueue_placed o.bulk_id o)
  os ← insert_each user_id dtos
  pure (o ∷ os)

-- `dto.bulk_id = bulk_id` for all.
unfoldable pub with_bulk_id : Option ℕ → List OrderCreate → List OrderCreate
with_bulk_id bulk_id [] = []
with_bulk_id bulk_id (dto ∷ dtos) = record dto { bulk_id = bulk_id } ∷ with_bulk_id bulk_id dtos

-- `place_bulk_orders`; the id that the source draws when none is given is an argument.
unfoldable pub place_bulk_orders :
    (ℕ → List MakerOrder) → ℕ → Option ℕ → List OrderCreate → Exec (List Order)
unfolding requirements lock_all insert_each with_bulk_id
place_bulk_orders asks user_id bulk_id [] = pure []
place_bulk_orders asks user_id bulk_id (dto ∷ dtos) =
    let batch = with_bulk_id bulk_id (dto ∷ dtos) in
    do
      rs ← requirements asks batch []
      lock_all user_id bulk_id (length batch) [] rs
      os ← insert_each user_id batch
      send (publish (bulk_place_result user_id bulk_id (length batch) (length os)) ∷ [])
      pure os
