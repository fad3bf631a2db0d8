-- ===== src/Gateway/Manager.antt =====
-- backend/app/ws/manager.py: `WebSocketManager`. The registry of public connections, by symbol, and
-- that of private ones, by user, are handled alike, so that there is one model: a dictionary from a
-- key to a set of sockets, both as lists. `is_alive` is whether a message to a socket is sent.
use uvipystock.Prelude.{
  ℕ, ◌==◌, Bool, true, false, not, if◌then◌else◌, List, [], ◌∷◌, ◌++◌, contains, length, sum_by,
}

pub record Entry : Type 0 where
  pub key : ℕ
  pub sockets : List ℕ

-- `set.add`
unfoldable pub add : ℕ → List ℕ → List ℕ
add socket sockets = if contains socket sockets then sockets else sockets ++ socket ∷ []

-- `set.discard`
unfoldable pub discard : ℕ → List ℕ → List ℕ
discard socket [] = []
discard socket (s ∷ ss) = if s == socket then discard socket ss else s ∷ discard socket ss

-- `connect_public` and `connect_private`
unfoldable pub connect : ℕ → ℕ → List Entry → List Entry
unfolding add
connect socket key [] = record { key = key; sockets = add socket [] } ∷ []
connect socket key (e ∷ es) =
    if e.key == key
    then record e { sockets = add socket e.sockets } ∷ es
    else e ∷ connect socket key es

abbrev pub is_empty_set : List ℕ → Bool
is_empty_set [] = true
is_empty_set (s ∷ ss) = false

-- `disconnect_public` and `disconnect_private`: a key with no sockets left is deleted.
unfoldable pub disconnect : ℕ → ℕ → List Entry → List Entry
unfolding discard
disconnect socket key [] = []
disconnect socket key (e ∷ es) =
    if e.key == key
    then (if is_empty_set (discard socket e.sockets)
        then es
        else record e { sockets = discard socket e.sockets } ∷ es)
    else e ∷ disconnect socket key es

-- `get(key, set())`
unfoldable pub sockets_of : ℕ → List Entry → List ℕ
sockets_of key [] = []
sockets_of key (e ∷ es) = if e.key == key then e.sockets else sockets_of key es

unfoldable pub select : (ℕ → Bool) → List ℕ → List ℕ
select p [] = []
select p (s ∷ ss) = if p s then s ∷ select p ss else select p ss

-- The loop over `dead`.
unfoldable pub disconnect_each : List ℕ → ℕ → List Entry → List Entry
unfolding disconnect
disconnect_each [] key es = es
disconnect_each (s ∷ ss) key es = disconnect_each ss key (disconnect s key es)

-- `broadcast_public` and `broadcast_private`: the sockets that got the message, and the registry after
-- those that did not are removed.
unfoldable pub broadcast : (ℕ → Bool) → ℕ → List Entry → List ℕ × List Entry
unfolding sockets_of select disconnect_each
broadcast is_alive key es =
    let conns = sockets_of key es in
    (select is_alive conns, disconnect_each (select (λ s. not (is_alive s)) conns) key es)

-- The totals of `get_stats`.
unfoldable pub total : List Entry → ℕ
total es = sum_by (λ (e : Entry). length e.sockets) es
