-- ===== src/Frontend/Makers.antt =====
-- frontend/backend/app/services/trade_service.py: `_update_redis_maker` of the copy, which writes neither
-- the quantity nor the visible quantity to the HASH of a maker that is filled in part.
use uvipystock.Prelude.{◌≤◌, ◌<◌, ◌≡◌, ap, ◌∙◌, arith, false, if◌then◌else◌, [], ◌∷◌, ◌++◌, some}
use uvipystock.Enums.{is_filled}
use uvipystock.Model.{World}
use uvipystock.Model.Rows.{Order, remaining_quantity}
use uvipystock.Redis.{
  hset_status, order_hash_key, remove_resting_order, delete_order_hash, remove_open_order,
}
use uvipystock.Exec.{Exec, send}
use uvipystock.Orders.Validate.{ask_quantity}
use uvipystock.Worker.Book.{Member, Fields, maker_of}
use uvipystock.Worker.Hashes.{Hashes, apply_command, replay, replay-append}

unfoldable pub update_maker_hash : Order → Exec (Unit {0})
update_maker_hash o =
    if is_filled o.status
    then send (
        remove_resting_order o.id o.symbol o.side
        ++ (delete_order_hash o.id ++ remove_open_order o.user_id o.symbol o.id))
    else send (hset_status (order_hash_key o.id) o.filled_quantity o.status ∷ [])

left_alone :
    (o : Order) (w : World) (hs : Hashes)
    → is_filled o.status ≡ false
    → replay (update_maker_hash o w).1.commands hs ≡ replay w.commands hs
unfolding update_maker_hash replay apply_command
left_alone o w hs rests = rw rests (
    replay-append w.commands (hset_status (order_hash_key o.id) o.filled_quantity o.status ∷ []) hs)

-- A maker that is no iceberg, whose HASH holds its quantity, and which is filled in part, is offered
-- by the worker's next read with more than its row has remaining.
pub update_maker_hash_lem :
    (o : Order) (w : World) (hs : Hashes) (f : Fields) (r : Member)
    → is_filled o.status ≡ false
    → 0 < o.filled_quantity
    → o.filled_quantity ≤ o.quantity
    → replay w.commands hs o.id ≡ some f
    → f.quantity ≡ some o.quantity
    → f.is_iceberg ≡ false
    → (g : Fields) × (replay (update_maker_hash o w).1.commands hs o.id ≡ some g)
      × (remaining_quantity o < ask_quantity (maker_of r g))
unfolding maker_of
update_maker_hash_lem o w hs f r rests some_filled small there whole plain = (
  f,
  ap (λ (k : Hashes). k o.id) (left_alone o w hs rests) ∙ there,
  rw (plain, whole) (omega arith),
)
