-- ===== src/Tests/Queues.antt =====
-- The queue of orders over lists, and the registry of the gateway.
use uvipystock.Prelude.{
  ℕ, ◌+◌, ◌≡◌, ◌==◌, refl, sym, ap, ◌∙◌, ◌-◌, arith, Bool, not, List, [], ◌∷◌, ◌++◌, Option, none,
  some, length,
}
use uvipystock.Redis.Queues.{RedisList, enqueue_action, brpop_order_action}
use uvipystock.Redis.Fifo.{Reachable, start, produce, consume, waiting, queue_order}
use uvipystock.Gateway.Manager.{Entry, select, sockets_of, broadcast}
use uvipystock.Gateway.Registry.{IsProper}
use uvipystock.Gateway.Broadcast.{broadcast_lem}

-- The last of a list, and what stands before it.
abbrev put_before : ℕ → Option (ℕ × List ℕ) → Option (ℕ × List ℕ)
put_before x none = some (x, [])
put_before x (some (t, ts)) = some (t, x ∷ ts)

abbrev split_last : List ℕ → Option (ℕ × List ℕ)
split_last [] = none
split_last (x ∷ xs) = put_before x (split_last xs)

abbrev joined : Option (ℕ × List ℕ) → List ℕ
joined none = []
joined (some (t, ts)) = ts ++ t ∷ []

joined-put_before : (x : ℕ) (o : Option (ℕ × List ℕ)) → joined (put_before x o) ≡ x ∷ joined o
joined-put_before x none = refl
joined-put_before x (some (t, ts)) = refl

joined-split_last : (q : List ℕ) → q ≡ joined (split_last q)
joined-split_last [] = refl
joined-split_last (x ∷ xs) =
    ap (λ (q : List ℕ). x ∷ q) (joined-split_last xs) ∙ sym (joined-put_before x (split_last xs))

abbrev list_queue : RedisList
list_queue = record {
  Items = List ℕ;
  nothing = [];
  items = λ q. q;
  lpush = λ t q. t ∷ q;
  brpop = split_last;
  llen = λ q. length q;
  items-nothing = refl;
  items-lpush = λ t q. refl;
  brpop_some = λ q t q' e. joined-split_last q ∙ ap joined e;
  brpop_none = λ q e. joined-split_last q ∙ ap joined e;
  llen-items = λ q. refl;
}

abbrev dumps : ℕ → ℕ
dumps p = p + 5

abbrev loads : ℕ → ℕ
loads t = t - 5

-- Two are enqueued, and one is consumed.
one_consumed : Reachable list_queue dumps loads (1 ∷ 2 ∷ []) (1 ∷ []) (7 ∷ [])
unfolding enqueue_action brpop_order_action
one_consumed =
    consume 1
      (produce 2 (produce 1 (start {ps = []} {cs = []} {q = []} refl refl refl) refl refl) refl
        refl)
      refl refl

queue_order_example : 1 ∷ 2 ∷ [] ≡ (1 ∷ []) ++ waiting list_queue dumps loads (7 ∷ [])
queue_order_example =
    queue_order list_queue dumps loads (1 ∷ 2 ∷ []) (1 ∷ []) (7 ∷ []) (λ p. omega arith)
      one_consumed

abbrev registry : List Entry
registry =
    record { key = 1; sockets = 10 ∷ 11 ∷ 12 ∷ [] } ∷ record { key = 2; sockets = 13 ∷ [] } ∷ []

abbrev is_alive : ℕ → Bool
is_alive socket = not (socket == 11)

broadcast_lem_example :
    let (sent, es') = broadcast is_alive 1 registry in
    (sent ≡ select is_alive (sockets_of 1 registry))
    × (sockets_of 1 es' ≡ sent)
    × (sockets_of 2 es' ≡ sockets_of 2 registry)
    × IsProper es'
broadcast_lem_example =
    broadcast_lem is_alive 1 2 registry ((refl, tt), omega arith, (tt, omega arith, tt)) refl
