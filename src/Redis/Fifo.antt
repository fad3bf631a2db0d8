-- ===== src/Redis/Fifo.antt =====
-- backend/app/redis_client/queues.py: producers and the consumer of the queue of orders.
use uvipystock.Prelude.{
  ℕ, ◌≡◌, refl, ap, sym, ◌∙◌, List, [], ◌∷◌, ◌++◌, Option, none, some, append_assoc,
}
use uvipystock.Redis.Queues.{RedisList, decoded, enqueue_action, brpop_order_action}

module _ (L : RedisList) {P : Type 0} (dumps : P → ℕ) (loads : ℕ → P) where
  -- What has been enqueued and consumed so far, in any interleaving of producers and the consumer,
  -- which also may find nothing.
  pub data Reachable : List P → List P → L.Items → Type 0 where
    start : {ps cs : List P} → {q : L.Items} → ps ≡ [] → cs ≡ [] → q ≡ L.nothing → Reachable ps cs q
    produce :
        {ps cs ps' : List P}
        → {q q' : L.Items} → (p : P) → Reachable ps cs q
        → ps' ≡ ps ++ p ∷ []
        → q' ≡ enqueue_action L dumps loads p q
        → Reachable ps' cs q'
    consume :
        {ps cs cs' : List P}
        → {q q' : L.Items} → (p : P) → Reachable ps cs q
        → brpop_order_action L dumps loads q ≡ some (p, q')
        → cs' ≡ cs ++ p ∷ []
        → Reachable ps cs' q'

  -- What waits, oldest first.
  abbrev pub waiting : List ℕ → List P
  waiting [] = []
  waiting (t ∷ ts) = waiting ts ++ loads t ∷ []

  waiting-last : (ts : List ℕ) (t : ℕ) → waiting (ts ++ t ∷ []) ≡ loads t ∷ waiting ts
  waiting-last [] t = refl
  waiting-last (u ∷ us) t = ap (λ (ps : List P). ps ++ loads u ∷ []) (waiting-last us t)

  abbrev first_or : P → Option (P × L.Items) → P
  first_or d none = d
  first_or d (some (p, q)) = p

  abbrev rest_or : L.Items → Option (P × L.Items) → L.Items
  rest_or d none = d
  rest_or d (some (p, q)) = q

  popped :
      (q q' : L.Items) (p : P) (r : Option (ℕ × L.Items))
      → L.brpop q ≡ r
      → decoded L dumps loads r ≡ some (p, q')
      → waiting (L.items q) ≡ p ∷ waiting (L.items q')
  popped q q' p none b e = absurd (cc)
  popped q q' p (some (t, q₁)) b e =
      let head : loads t ≡ p = ap (first_or p) e in
      let rest : q₁ ≡ q' = ap (rest_or q') e in
      ap waiting (L.brpop_some q t q₁ b)
      ∙ waiting-last (L.items q₁) t
      ∙ ap (λ (x : P). x ∷ waiting (L.items q₁)) head
      ∙ ap (λ (z : L.Items). p ∷ waiting (L.items z)) rest

  after_produce :
      (ps cs ps' : List P) (q q' : L.Items) (p : P)
      → loads (dumps p) ≡ p
      → ps' ≡ ps ++ p ∷ []
      → q' ≡ L.lpush (dumps p) q
      → ps ≡ cs ++ waiting (L.items q)
      → ps' ≡ cs ++ waiting (L.items q')
  after_produce ps cs ps' q q' p j e f h =
      let w : waiting (L.items q') ≡ waiting (L.items q) ++ p ∷ [] =
        ap (λ (z : L.Items). waiting (L.items z)) f
        ∙ ap waiting (L.items-lpush (dumps p) q)
        ∙ ap (λ (x : P). waiting (L.items q) ++ x ∷ []) j in
      e
      ∙ ap (λ (xs : List P). xs ++ p ∷ []) h
      ∙ append_assoc cs (waiting (L.items q)) (p ∷ [])
      ∙ ap (λ (xs : List P). cs ++ xs) (sym w)

  after_consume :
      (ps cs cs' : List P) (q q' : L.Items) (p : P)
      → waiting (L.items q) ≡ p ∷ waiting (L.items q')
      → cs' ≡ cs ++ p ∷ []
      → ps ≡ cs ++ waiting (L.items q)
      → ps ≡ cs' ++ waiting (L.items q')
  after_consume ps cs cs' q q' p w f h =
      h
      ∙ ap (λ (xs : List P). cs ++ xs) w
      ∙ sym (append_assoc cs (p ∷ []) (waiting (L.items q')))
      ∙ ap (λ (xs : List P). xs ++ waiting (L.items q')) (sym f)

  queue_in_order :
      {ps cs : List P}
      → {q : L.Items} → ((p : P) → loads (dumps p) ≡ p)
      → Reachable ps cs q
      → ps ≡ cs ++ waiting (L.items q)
  unfolding enqueue_action brpop_order_action
  queue_in_order j (start a b c) = rw (a, b, c, L.items-nothing) refl
  queue_in_order j (produce p r e f) = after_produce _ _ _ _ _ p (j p) e f (queue_in_order j r)
  queue_in_order j (consume p r e f) =
      after_consume _ _ _ _ _ p (popped _ _ p _ refl e) f (queue_in_order j r)

-- In any interleaving of enqueued and consumed payloads, where JSON reads back what it wrote, what was
-- enqueued so far is what was consumed so far, in the same order, and then what waits in the queue:
-- nothing is lost, doubled or overtaken.
pub queue_order :
    (L : RedisList) {P : Type 0} (dumps : P → ℕ) (loads : ℕ → P) (ps cs : List P) (q : L.Items)
    → ((p : P) → loads (dumps p) ≡ p)
    → Reachable L dumps loads ps cs q
    → ps ≡ cs ++ waiting L dumps loads (L.items q)
queue_order L dumps loads ps cs q j r = queue_in_order L dumps loads j r
