-- ===== src/Worker/Load.antt =====
-- The book that the worker loads is one that the matcher's theorems are about.
use uvipystock.Prelude.{
  ℕ, suc, ◌+◌, ◌==◌, ltb, ◌≤◌, ◌<◌, ◌≡◌, refl, subst, arith, true, false, List, [], ◌∷◌, length,
  All,
}
use uvipystock.Enums.{OrderSide, buy, sell}
use uvipystock.Exec.{Result, ok}
use uvipystock.Orders.Validate.{MakerOrder, ask_quantity}
use uvipystock.Engine.Book.{
  Node, Engine, add_passive_order, insert_node, node_of, node_pool_cap, empty_engine, added,
}
use uvipystock.Engine.Match.{trades_cap}
use uvipystock.Engine.Round.{rounds, IsWellFormed}
use uvipystock.Engine.Walk.{side_load}
use uvipystock.Engine.Load.{add_to_side-IsWellFormed}
use uvipystock.Worker.Place.{load_makers}

-- Both sides are sound, and the trade buffer has room for `n` makers.
pub record Fits (n : ℕ) (e : Engine) : Type 0 where
  pub bids_sound : All IsWellFormed e.bids
  pub asks_sound : All IsWellFormed e.asks
  pub bids_load : side_load e.bids ≤ n
  pub asks_load : side_load e.asks ≤ n
  pub pool : e.node_pool_size ≤ n

abbrev pub maker_node : MakerOrder → Node
maker_node m = node_of m.order_id (ask_quantity m) m.is_iceberg m.visible_quantity

-- The worker passes an iceberg's visible part as its whole quantity, so it takes one round.
one_round : (m : MakerOrder) → rounds (maker_node m) ≡ 1
one_round m = ground arith

pub insert-Fits :
    (side : OrderSide) (n price : ℕ) (m : MakerOrder) (e : Engine)
    → 0 < ask_quantity m
    → Fits n e
    → Fits (suc n) (insert_node side price (maker_node m) e)
insert-Fits buy n price m e q f =
    let a = add_to_side-IsWellFormed true price (maker_node m) e.bids q f.bids_sound in
    record {
      bids_sound = a.0;
      asks_sound = f.asks_sound;
      bids_load = omega (arith, a.1, one_round m, f.bids_load);
      asks_load = omega (arith, f.asks_load);
      pool = omega (arith, f.pool);
    }
insert-Fits sell n price m e q f =
    let a = add_to_side-IsWellFormed false price (maker_node m) e.asks q f.asks_sound in
    record {
      bids_sound = f.bids_sound;
      asks_sound = a.0;
      bids_load = omega (arith, f.bids_load);
      asks_load = omega (arith, a.1, one_round m, f.asks_load);
      pool = omega (arith, f.pool);
    }

pub widen : (n k : ℕ) (e : Engine) → Fits n e → Fits (n + k) e
widen n k e f = record {
  bids_sound = f.bids_sound;
  asks_sound = f.asks_sound;
  bids_load = omega (arith, f.bids_load);
  asks_load = omega (arith, f.asks_load);
  pool = omega (arith, f.pool);
}

-- The result of the loading: a book that fits, never an error.
abbrev pub Loaded : ℕ → Result Engine → Type 0
Loaded n r = (e : Engine) × (r ≡ ok e) × Fits n e

pub accepted :
    (n : ℕ) (m : MakerOrder) (e : Engine)
    → Fits n e
    → n < node_pool_cap
    → (ask_quantity m == 0) ≡ false
    → add_passive_order m.order_id m.side m.price (ask_quantity m) m.is_iceberg m.visible_quantity e
      ≡ added (insert_node m.side m.price (maker_node m) e)
unfolding add_passive_order
accepted n m e f room q =
    let ok : ltb node_pool_cap (e.node_pool_size + 1) ≡ false = ground (arith, f.pool) in
    rw (q, ok) refl

load_makers-Fits :
    (n : ℕ) (ms : List MakerOrder) (e : Engine)
    → Fits n e
    → All (λ (m : MakerOrder). 0 < ask_quantity m) ms
    → n + length ms ≤ node_pool_cap
    → Loaded (n + length ms) (load_makers ms e)
unfolding load_makers
load_makers-Fits n [] e f some_left room = (e, refl, widen n 0 e f)
load_makers-Fits n (m ∷ ms) e f some_left room =
    let z : (ask_quantity m == 0) ≡ false = ground (arith, some_left.0) in
    let f' = insert-Fits m.side n m.price m e (some_left.0) f in
    let next =
      load_makers-Fits (suc n) ms (insert_node m.side m.price (maker_node m) e) f' some_left.1
        (omega arith) in
    rw (accepted n m e f (omega arith) z)
      (next.0, next.1, subst (λ k. Fits k next.0) (omega arith) next.2)

-- With the worker's limit of a thousand makers, each with something on offer, loading them never
-- raises, both sides are sound, and neither holds more rounds than the trade buffer has room for.
pub load_makers_ready :
    (ms : List MakerOrder)
    → All (λ (m : MakerOrder). 0 < ask_quantity m) ms
    → length ms ≤ 1_000
    → (e : Engine) × (load_makers ms empty_engine ≡ ok e)
      × All IsWellFormed e.bids
      × All IsWellFormed e.asks
      × (side_load e.bids ≤ trades_cap)
      × (side_load e.asks ≤ trades_cap)
load_makers_ready ms some_left h =
    let start : Fits 0 empty_engine = record {
      bids_sound = tt;
      asks_sound = tt;
      bids_load = omega arith;
      asks_load = omega arith;
      pool = omega arith;
    } in
    let l = load_makers-Fits 0 ms empty_engine start some_left (omega arith) in
    (
      l.0,
      l.1,
      l.2.bids_sound,
      l.2.asks_sound,
      omega (arith, l.2.bids_load),
      omega (arith, l.2.asks_load),
    )
