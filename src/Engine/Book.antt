-- ===== src/Engine/Book.antt =====
-- backend/app/matching/engine.pyx: one side of the book. A level's linked list of nodes, with its
-- head and tail, is the list of the nodes, oldest first. Prices and quantities are C doubles
-- (Engine/Double).
use uvipystock.Prelude.{
  ℕ, zero, suc, ◌+◌, ◌-◌, ◌==◌, ltb, Bool, true, false, if◌then◌else◌, List, [], ◌∷◌, ◌++◌, Option,
  none, some,
}
use uvipystock.Enums.{OrderSide, buy, sell}
use uvipystock.Engine.Double.{fadd, fsub}

-- `OrderNode`
pub record Node : Type 0 where
  pub order_id : ℕ
  pub remaining_qty : ℕ
  pub visible_qty : ℕ
  pub is_iceberg : Bool

-- `PriceLevel`
pub record Level : Type 0 where
  pub price : ℕ
  pub nodes : List Node
  pub total_volume : ℕ
  pub order_count : ℕ

-- `CMatchingEngine`: bids best first (descending), asks best first (ascending).
pub record Engine : Type 0 where
  pub bids : List Level
  pub asks : List Level
  pub node_pool_size : ℕ

-- `INITIAL_NODE_POOL_CAP`
abbrev pub node_pool_cap : ℕ
node_pool_cap = 100_000

abbrev pub empty_engine : Engine
empty_engine = record { bids = []; asks = []; node_pool_size = 0 }

-- `reset`: the state is that of a new engine, whatever it was.
unfoldable pub reset : Engine → Engine
reset e = record e { bids = []; asks = []; node_pool_size = 0 }

-- Whether a level at `p` stands before a new level at `q` on a side.
abbrev pub before : Bool → ℕ → ℕ → Bool
before true p q = ltb q p
before false p q = ltb p q

abbrev pub empty_level : ℕ → Level
empty_level price = record { price = price; nodes = []; total_volume = 0; order_count = 0 }

-- `_append_order_to_level`
abbrev pub append_order : Node → Level → Level
append_order n l = record l {
  nodes = l.nodes ++ n ∷ [];
  total_volume = fadd l.total_volume n.remaining_qty;
  order_count = l.order_count + 1;
}

-- The level of the price gets the node: `_find_level_idx`, or `_insert_level` before the first level
-- that is worse than the price, and then `_append_order_to_level`.
unfoldable pub add_to_side : Bool → ℕ → Node → List Level → List Level
add_to_side descending price n [] = append_order n (empty_level price) ∷ []
add_to_side descending price n (l ∷ ls) =
    let rest = add_to_side descending price n ls in
    if l.price == price
    then append_order n l ∷ ls
    else if before descending price l.price
    then append_order n (empty_level price) ∷ l ∷ ls
    else l ∷ rest

pub data AddResult : Type 0 where
  added : Engine → AddResult
  bad_quantity : AddResult
  pool_exhausted : AddResult

abbrev pub node_of : ℕ → ℕ → Bool → ℕ → Node
node_of order_id qty is_iceberg visible = record {
  order_id = order_id;
  remaining_qty = qty;
  visible_qty = if is_iceberg then visible else qty;
  is_iceberg = is_iceberg;
}

-- The two sides of the book, and the pool's count with one node more.
abbrev pub insert_node : OrderSide → ℕ → Node → Engine → Engine
insert_node buy price n e = record e {
  bids = add_to_side true price n e.bids;
  node_pool_size = e.node_pool_size + 1;
}
insert_node sell price n e = record e {
  asks = add_to_side false price n e.asks;
  node_pool_size = e.node_pool_size + 1;
}

-- `add_passive_order`; the side is one of the two. A full pool raises MemoryError.
unfoldable pub add_passive_order : ℕ → OrderSide → ℕ → ℕ → Bool → ℕ → Engine → AddResult
unfolding add_to_side
add_passive_order order_id side price qty is_iceberg visible e =
    if qty == 0
    then bad_quantity
    else if ltb node_pool_cap (e.node_pool_size + 1)
    then pool_exhausted
    else added (insert_node side price (node_of order_id qty is_iceberg visible) e)

-- `cancel_order` on the nodes of a level: the first node of that id is unlinked.
unfoldable pub unlink : ℕ → List Node → Option (Node × List Node)
unlink id [] = none
unlink id (n ∷ ns) =
    if n.order_id == id
    then some (n, ns)
    else elim (unlink id ns) [ none ↦ none | some (m, ms) ↦ some (m, n ∷ ms) ]

-- `_maybe_compact_level`: an empty level is dropped.
abbrev pub compact : Level → List Level → List Level
compact l ls = if l.order_count == 0 then ls else l ∷ ls

abbrev pub without_node : Level → Node × List Node → Level
without_node l (n, ns) = record l {
  nodes = ns;
  total_volume = fsub l.total_volume n.remaining_qty;
  order_count = l.order_count - 1;
}

-- `cancel_order` on a side: whether the order was found, and the side after it.
unfoldable pub cancel_on_side : ℕ → ℕ → List Level → Bool × List Level
unfolding unlink
cancel_on_side id price [] = (false, [])
cancel_on_side id price (l ∷ ls) =
    let rest = cancel_on_side id price ls in
    if l.price == price
    then elim (unlink id l.nodes) [
      | none ↦ (false, l ∷ ls)
      | some found ↦ (true, compact (without_node l found) ls)
    ]
    else (rest.0, l ∷ rest.1)

-- `snapshot`: prices and volumes of the first levels.
unfoldable pub snapshot : ℕ → List Level → List (ℕ × ℕ)
snapshot zero ls = []
snapshot (suc depth) [] = []
snapshot (suc depth) (l ∷ ls) = (l.price, l.total_volume) ∷ snapshot depth ls
