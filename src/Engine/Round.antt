-- ===== src/Engine/Round.antt =====
-- One round of the matching loop: what a fill does to the taker, the maker and the level.
use uvipystock.Prelude.{
  ℕ, ◌+◌, ◌-◌, ◌==◌, ltb, ◌≤◌, ◌<◌, ◌≡◌, ◌≢◌, ◌⊎◌, inl, inr, ap, subst, arith, ◌&&◌, if◌then◌else◌,
  List, [], ◌∷◌, ◌++◌, length, sum_by, sum_by-append, length-append, All, Bool-cases,
}
use uvipystock.Engine.Double.{fsub, round_double_zero, round_double_small, mantissa_end}
use uvipystock.Engine.Book.{Node, Level}
use uvipystock.Engine.Match.{
  Progress, Fill, fill_qty, maker_after, level_after, fill_of, take, trades_cap,
}

abbrev pub node_volume : List Node → ℕ
node_volume ns = sum_by (λ (n : Node). n.remaining_qty) ns

abbrev pub filled : Progress → ℕ
filled p = sum_by (λ (f : Fill). f.quantity) p.fills

-- The rounds that a maker can still take: two for an iceberg with something hidden.
abbrev pub rounds : Node → ℕ
rounds n = if n.is_iceberg && ltb n.visible_qty n.remaining_qty then 2 else 1

abbrev pub load : List Node → ℕ
load ns = sum_by rounds ns

-- A level counts its nodes, and nothing in it is used up.
pub record IsWellFormed (l : Level) : Type 0 where
  pub count : l.order_count ≡ length l.nodes
  pub live : All (λ (n : Node). 0 < n.remaining_qty) l.nodes

-- The quantities of a level are small enough for exact differences, and its volume is their sum.
pub record IsExact (l : Level) : Type 0 where
  pub volume : l.total_volume ≡ node_volume l.nodes
  pub small : node_volume l.nodes < mantissa_end

pub fill_qty-le : (r : ℕ) (n : Node) → (fill_qty r n ≤ r) × (fill_qty r n ≤ n.remaining_qty)
fill_qty-le r n = (ground arith, ground arith)

-- A maker that is left over has rounds to spare, or has filled the taker.
pub rounds-maker_after :
    (r : ℕ) (n : Node)
    → (maker_after r n).remaining_qty ≢ 0
    → (fsub r (fill_qty r n) ≡ 0) ⊎ (rounds (maker_after r n) < rounds n)
rounds-maker_after r n h = ground (arith, round_double_zero)

-- The round when the buffer has room.
abbrev pub next_progress : Level → Progress → Node → Progress
next_progress l p n = record p {
  remaining = fsub p.remaining (fill_qty p.remaining n);
  fills = p.fills ++ fill_of p.remaining l n ∷ [];
}

pub take_room :
    (n : Node) (ns : List Node) (l : Level) (p : Progress)
    → length p.fills < trades_cap
    → take n ns l p ≡ (level_after p.remaining n ns l, next_progress l p n)
unfolding take
take_room n ns l p room = ground arith

-- A round moves from the taker to the trades exactly what it takes from the maker.
pub next_progress-filled :
    (l : Level) (p : Progress) (n : Node)
    → filled (next_progress l p n) ≡ filled p + fill_qty p.remaining n
next_progress-filled l p n =
    omega (arith, sum_by-append (λ (f : Fill). f.quantity) p.fills (fill_of p.remaining l n ∷ []))

pub next_progress-length :
    (l : Level) (p : Progress) (n : Node) → length (next_progress l p n).fills ≡ length p.fills + 1
next_progress-length l p n = omega (arith, length-append p.fills (fill_of p.remaining l n ∷ []))

pub level_after-volume :
    (r : ℕ) (n : Node) (ns : List Node) (l : Level)
    → node_volume (n ∷ ns) < mantissa_end
    → node_volume (level_after r n ns l).nodes + fill_qty r n ≡ node_volume (n ∷ ns)
level_after-volume r n ns l h =
    let left : (maker_after r n).remaining_qty ≡ n.remaining_qty - fill_qty r n =
      round_double_small _ (omega arith) in
    elim (Bool-cases ((maker_after r n).remaining_qty == 0)) [
      | inl e ↦ rw (e, level_after) (ground (arith, fill_qty-le r n))
      | inr e ↦ rw (e, level_after) (omega (arith, left, (fill_qty-le r n).1))
    ]

pub level_after-total :
    (r : ℕ) (n : Node) (ns : List Node) (l : Level)
    → (level_after r n ns l).total_volume ≡ fsub l.total_volume (fill_qty r n)
level_after-total r n ns l = ground arith

pub level_after-IsExact :
    (r : ℕ) (n : Node) (ns : List Node) (l : Level)
    → l.nodes ≡ n ∷ ns
    → IsExact l
    → IsExact (level_after r n ns l)
level_after-IsExact r n ns l e x =
    let at : node_volume l.nodes ≡ node_volume (n ∷ ns) = ap node_volume e in
    let kept = level_after-volume r n ns l (omega (arith, at, x.small)) in
    let total : fsub l.total_volume (fill_qty r n) ≡ l.total_volume - fill_qty r n =
      round_double_small _ (omega (arith, x.volume, x.small)) in
    record {
      volume = omega (arith, level_after-total r n ns l, total, kept, at, x.volume);
      small = omega (arith, kept, at, x.small);
    }

pub level_after-IsWellFormed :
    (r : ℕ) (n : Node) (ns : List Node) (l : Level)
    → l.nodes ≡ n ∷ ns
    → IsWellFormed l
    → IsWellFormed (level_after r n ns l)
level_after-IsWellFormed r n ns l e wf =
    let cnt : l.order_count ≡ length (n ∷ ns) =
      subst (λ ms. l.order_count ≡ length ms) e wf.count in
    let live : All (λ (m : Node). 0 < m.remaining_qty) (n ∷ ns) =
      subst (All (λ (m : Node). 0 < m.remaining_qty)) e wf.live in
    elim (Bool-cases ((maker_after r n).remaining_qty == 0)) [
      | inl z ↦ rw (z, level_after) (record { count = omega arith; live = live.1 })
      | inr z ↦ rw (z, level_after) (record { count = cnt; live = (ground arith, live.1) })
    ]

-- After a round the taker is filled, or there are fewer rounds to go.
pub load-level_after :
    (r : ℕ) (n : Node) (ns : List Node) (l : Level)
    → (fsub r (fill_qty r n) ≡ 0) ⊎ (load (level_after r n ns l).nodes < load (n ∷ ns))
load-level_after r n ns l = elim (Bool-cases ((maker_after r n).remaining_qty == 0)) [
  | inl e ↦ rw (e, level_after) (inr (ground arith))
  | inr e ↦ rw (e, level_after) (ground (arith, rounds-maker_after r n))
]
