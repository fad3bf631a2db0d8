-- ===== src/Orders/Repo.antt =====
-- backend/app/repositories/order_repo.py over the rows of `orders`. Ids are unique.
use uvipystock.Prelude.{
  ℕ, ◌+◌, ◌==◌, Bool, false, ◌&&◌, if◌then◌else◌, List, [], ◌∷◌, Option, none, some,
}
use uvipystock.Enums.{OrderStatus, is_active, is_stop_type, is_pending}
use uvipystock.Model.Rows.{Order}

-- `get_for_update`
unfoldable pub get_order : List Order → ℕ → Option Order
get_order [] id = none
get_order (o ∷ os) id = if o.id == id then some o else get_order os id

-- `get_by_user`
unfoldable pub get_by_user : List Order → ℕ → ℕ → Option Order
get_by_user [] id user_id = none
get_by_user (o ∷ os) id user_id =
    if o.id == id && o.user_id == user_id then some o else get_by_user os id user_id

-- Writes a row back; a new row goes to the end.
unfoldable pub put_order : Order → List Order → List Order
put_order o [] = o ∷ []
put_order o (p ∷ ps) = if p.id == o.id then o ∷ ps else p ∷ put_order o ps

abbrev pub with_status : OrderStatus → Order → Order
with_status status o = record o { status = status; version = o.version + 1 }

-- `update_status`: an `UPDATE … WHERE id`.
unfoldable pub update_status : ℕ → OrderStatus → List Order → List Order
update_status id status [] = []
update_status id status (o ∷ os) =
    (if o.id == id then with_status status o else o) ∷ update_status id status os

abbrev pub is_child : ℕ → Option ℕ → Bool
is_child id none = false
is_child id (some p) = p == id

-- `cancel_children`: the active orders that name this parent.
unfoldable pub cancel_children : ℕ → List Order → List Order
cancel_children id [] = []
cancel_children id (o ∷ os) =
    (if is_child id o.parent_order_id && is_active o.status
      then with_status OrderStatus.canceled o
      else o)
    ∷ cancel_children id os

-- `list_children_by_parent`
unfoldable pub list_children_by_parent : ℕ → List Order → List Order
list_children_by_parent id [] = []
list_children_by_parent id (o ∷ os) =
    let rest = list_children_by_parent id os in
    if is_child id o.parent_order_id then o ∷ rest else rest

-- `list_pending_stops_by_symbol`, in the order of the table.
unfoldable pub list_pending_stops : ℕ → List Order → List Order
list_pending_stops symbol [] = []
list_pending_stops symbol (o ∷ os) =
    let rest = list_pending_stops symbol os in
    if o.symbol == symbol && is_stop_type o.type && is_pending o.status then o ∷ rest else rest
