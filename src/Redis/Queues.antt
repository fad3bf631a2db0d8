-- ===== src/Redis/Queues.antt =====
-- backend/app/redis_client/queues.py. A list of Redis is an interface: its items from the left, with
-- what Redis documents of LPUSH, BRPOP, LLEN, LRANGE and DEL. `dumps` and `loads` are JSON's.
use uvipystock.Prelude.{ℕ, zero, suc, ◌≡◌, List, [], ◌∷◌, ◌++◌, Option, none, some, length, map}

pub record RedisList : Type 1 where
  pub Items : Type 0
  pub nothing : Items
  pub items : Items → List ℕ
  pub lpush : ℕ → Items → Items
  pub brpop : Items → Option (ℕ × Items)
  pub llen : Items → ℕ
  pub items-nothing : items nothing ≡ []
  pub items-lpush : (t : ℕ) (q : Items) → items (lpush t q) ≡ t ∷ items q
  pub brpop_some :
      (q : Items) (t : ℕ) (q' : Items) → brpop q ≡ some (t, q') → items q ≡ items q' ++ t ∷ []
  pub brpop_none : (q : Items) → brpop q ≡ none → items q ≡ []
  pub llen-items : (q : Items) → llen q ≡ length (items q)

-- LRANGE from the left.
abbrev take_left : ℕ → List ℕ → List ℕ
take_left zero ts = []
take_left (suc n) [] = []
take_left (suc n) (t ∷ ts) = t ∷ take_left n ts

module _ (L : RedisList) {P : Type 0} (dumps : P → ℕ) (loads : ℕ → P) where
  unfoldable pub enqueue_action : P → L.Items → L.Items
  enqueue_action payload q = L.lpush (dumps payload) q

  abbrev pub decoded : Option (ℕ × L.Items) → Option (P × L.Items)
  decoded none = none
  decoded (some (raw, q)) = some (loads raw, q)

  -- `brpop_order_action`; nothing, after the timeout, from an empty queue.
  unfoldable pub brpop_order_action : L.Items → Option (P × L.Items)
  brpop_order_action q = decoded (L.brpop q)

  -- `enqueue_trade_batch`: no trades, no item.
  unfoldable pub enqueue_trade_batch : (List P → ℕ) → List P → L.Items → L.Items
  enqueue_trade_batch dumps_batch [] q = q
  enqueue_trade_batch dumps_batch (t ∷ ts) q = L.lpush (dumps_batch (t ∷ ts)) q

  -- `peek_queue`
  unfoldable pub peek_queue : ℕ → L.Items → List P
  peek_queue n q = map loads (take_left n (L.items q))

-- `queue_length`
unfoldable pub queue_length : (L : RedisList) → L.Items → ℕ
queue_length L q = L.llen q

-- `clear_queue`: what is left, and the number that it returns, counted after the deletion.
unfoldable pub clear_queue : (L : RedisList) → L.Items → L.Items × ℕ
clear_queue L q = (L.nothing, L.llen L.nothing)
