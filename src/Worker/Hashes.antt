-- ===== src/Worker/Hashes.antt =====
-- backend/app/redis_client/orderbook.py: the HASHes of the orders, as the commands that the services
-- send leave them, and what the worker then reads of a maker that was filled in part. A HASH is the
-- fields that the worker reads; HSET on an order that has none is not followed.
use uvipystock.Prelude.{
  ℕ, ◌==◌, ◌≡◌, refl, sym, subst, Bool, true, false, if◌then◌else◌, List, [], ◌∷◌, ◌++◌, Option,
  none, some, ==_self,
}
use uvipystock.Enums.{is_filled}
use uvipystock.Model.{World}
use uvipystock.Model.Rows.{Order, remaining_quantity}
use uvipystock.Redis.{
  Command, hset_order, hset_fill, del, order_hash_key, OrderHash, remove_resting_order,
  delete_order_hash, remove_open_order,
}
use uvipystock.Exec.{send}
use uvipystock.Orders.Validate.{ask_quantity}
use uvipystock.Trade.Service.{update_redis_maker}
use uvipystock.Worker.Book.{Member, Fields, maker_of}

abbrev pub Hashes : Type 0
Hashes = ℕ → Option Fields

abbrev pub set_hash : ℕ → Option Fields → Hashes → Hashes
set_hash id h hs j = if id == j then h else hs j

-- The fields that `store_order_hash` writes.
abbrev pub stored_fields : OrderHash → Fields
stored_fields h = record {
  side = h.side;
  quantity = some h.quantity;
  visible_quantity = h.visible_quantity;
  hidden_quantity = h.hidden_quantity;
  is_iceberg = h.is_iceberg;
}

-- The fields that `_update_redis_maker` writes.
abbrev pub filled_fields : ℕ → Option Fields → Option Fields
filled_fields remaining none = none
filled_fields remaining (some h) =
    some (record h { quantity = some remaining; visible_quantity = some remaining })

-- `store_order_hash`, `update_order_hash_fields` and `delete_order_hash`; no other command writes to
-- a HASH of an order.
unfoldable pub apply_command : Command → Hashes → Hashes
apply_command (hset_order (order_hash_key id) h) hs = set_hash id (some (stored_fields h)) hs
apply_command (hset_fill (order_hash_key id) filled remaining status) hs =
    set_hash id (filled_fields remaining (hs id)) hs
apply_command (del (order_hash_key id)) hs = set_hash id none hs
apply_command _ hs = hs

unfoldable pub replay : List Command → Hashes → Hashes
unfolding apply_command
replay [] hs = hs
replay (c ∷ cs) hs = replay cs (apply_command c hs)

pub replay-append :
    (cs ds : List Command) (hs : Hashes) → replay (cs ++ ds) hs ≡ replay ds (replay cs hs)
unfolding replay
replay-append [] ds hs = refl
replay-append (c ∷ cs) ds hs = replay-append cs ds (apply_command c hs)

-- What the worker reads at its next match of a maker whose row was just written.
abbrev pub OffersRest : Order → Hashes → Type 0
OffersRest o hs =
    if is_filled o.status
    then hs o.id ≡ none
    else (h : Fields) × (hs o.id ≡ some h)
      × ((r : Member) → ask_quantity (maker_of r h) ≡ remaining_quantity o)

if_same : (b : Bool) (n : ℕ) → (if b then n else n) ≡ n
if_same true n = refl
if_same false n = refl

module _ (o : Order) (hs : Hashes) (f : Fields) (there : hs o.id ≡ some f) where
  removed-OffersRest :
      (filled : is_filled o.status ≡ true)
      → OffersRest o (
          replay
            (remove_resting_order o.id o.symbol o.side
              ++ (delete_order_hash o.id ++ remove_open_order o.user_id o.symbol o.id))
            hs)
  unfolding replay apply_command remove_resting_order delete_order_hash remove_open_order
  removed-OffersRest filled = rw (filled) (rw (==_self o.id) refl)

  filled-OffersRest :
      (rests : is_filled o.status ≡ false)
      → OffersRest o (
          replay
            (hset_fill (order_hash_key o.id) o.filled_quantity (remaining_quantity o) o.status ∷ [])
            hs)
  unfolding replay apply_command maker_of
  filled-OffersRest rests =
      rw rests
        (rw (==_self o.id) (rw there (_, refl, λ r. if_same f.is_iceberg (remaining_quantity o))))

after_append :
    (o : Order) (cs ds : List Command) (hs : Hashes)
    → OffersRest o (replay ds (replay cs hs))
    → OffersRest o (replay (cs ++ ds) hs)
after_append o cs ds hs h = subst (OffersRest o) (sym (replay-append cs ds hs)) h

maker_told :
    (o : Order) (w : World) (hs : Hashes) (f : Fields) (b : Bool)
    → is_filled o.status ≡ b
    → replay w.commands hs o.id ≡ some f
    → OffersRest o (
        replay
          ((if b
              then send (
                  remove_resting_order o.id o.symbol o.side
                  ++ (delete_order_hash o.id ++ remove_open_order o.user_id o.symbol o.id))
              else send (
                  hset_fill (order_hash_key o.id) o.filled_quantity (remaining_quantity o) o.status
                  ∷ []))
            w).1.commands
          hs)
maker_told o w hs f true filled there =
    after_append o w.commands _ hs (removed-OffersRest o (replay w.commands hs) f there filled)
maker_told o w hs f false rests there =
    after_append o w.commands _ hs (filled-OffersRest o (replay w.commands hs) f there rests)

-- After a maker's row is written and Redis is told, for an order whose HASH is there: a filled order
-- has no HASH, and of any other the worker's next read offers exactly what its row has remaining.
pub update_redis_maker-OffersRest :
    (o : Order) (w : World) (hs : Hashes) (f : Fields)
    → replay w.commands hs o.id ≡ some f
    → OffersRest o (replay (update_redis_maker o w).1.commands hs)
unfolding update_redis_maker
update_redis_maker-OffersRest o w hs f there = maker_told o w hs f (is_filled o.status) refl there
