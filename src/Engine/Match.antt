-- ===== src/Engine/Match.antt =====
-- backend/app/matching/engine.pyx: `_match_internal` and its pre-checks. A price that is NaN, as a
-- market order has it, is `none`.
use uvipystock.Prelude.{
  ℕ, zero, suc, ◌+◌, ◌-◌, ◌*◌, ◌==◌, ltb, leb, Bool, true, false, ◌&&◌, ◌||◌, not, if◌then◌else◌,
  List, [], ◌∷◌, ◌++◌, Option, none, some, length,
}
use uvipystock.Enums.{OrderSide, buy, sell}
use uvipystock.Engine.Double.{fadd, fsub}
use uvipystock.Engine.Book.{Node, Level, Engine, compact}

-- `CType`: the types that reach the matcher.
pub data CType : Type 0 where
  market limit ioc fok post_only : CType

-- `CMatchOutcome`
pub data Outcome : Type 0 where
  ok fok_rejected post_only_cross no_liquidity : Outcome

-- `COrder`, without the iceberg fields, which the matcher does not read from the taker.
pub record Taker : Type 0 where
  pub order_id : ℕ
  pub side : OrderSide
  pub type : CType
  pub price : Option ℕ
  pub quantity : ℕ

-- `TradeResult`, without the taker's id and side, which are the same in every trade.
pub record Fill : Type 0 where
  pub maker_order_id : ℕ
  pub price : ℕ
  pub quantity : ℕ

-- `INITIAL_TRADES_CAP`; `_ensure_trades_cap` is never called, so the buffer does not grow.
abbrev pub trades_cap : ℕ
trades_cap = 1_024

-- The price checks of the loop, which break when the level is worse than the limit.
abbrev pub acceptable : OrderSide → Option ℕ → ℕ → Bool
acceptable side none level = true
acceptable buy (some p) level = leb level p
acceptable sell (some p) level = leb p level

-- `_would_cross`, on the opposite side. With NaN both comparisons fail.
unfoldable pub would_cross : OrderSide → Option ℕ → List Level → Bool
would_cross side price [] = false
would_cross side none (l ∷ ls) = false
would_cross buy (some p) (l ∷ ls) = leb l.price p
would_cross sell (some p) (l ∷ ls) = leb p l.price

-- `_precheck_fok`, with the volume found so far. The first level that is too far ends the search.
unfoldable pub enough : OrderSide → Option ℕ → ℕ → ℕ → List Level → Bool
enough side price quantity found [] = false
enough side price quantity found (l ∷ ls) =
    if acceptable side price l.price
    then leb quantity (fadd found l.total_volume)
      || enough side price quantity (fadd found l.total_volume) ls
    else false

-- What the loops change: the taker's remaining quantity, the trades so far, and whether the buffer
-- was full when a trade was due.
pub record Progress : Type 0 where
  pub remaining : ℕ
  pub fills : List Fill
  pub overflow : Bool

-- How much of the maker is on offer.
abbrev pub visible_avail : Node → ℕ
visible_avail n =
    if n.is_iceberg && ltb n.visible_qty n.remaining_qty then n.visible_qty else n.remaining_qty

abbrev pub fill_qty : ℕ → Node → ℕ
fill_qty remaining n = if leb (visible_avail n) remaining then visible_avail n else remaining

-- The maker after the fill: a visible part that is used up is refilled with all that is hidden.
abbrev pub maker_after : ℕ → Node → Node
maker_after remaining n =
    let left = fsub n.remaining_qty (fill_qty remaining n) in
    record n {
      remaining_qty = left;
      visible_qty =
          if n.is_iceberg
          then if leb (visible_avail n) remaining then left else fsub n.visible_qty remaining
          else n.visible_qty;
    }

-- The maker stays first in its level while anything of it is left.
abbrev pub level_after : ℕ → Node → List Node → Level → Level
level_after remaining n ns l =
    let m = maker_after remaining n in
    if m.remaining_qty == 0
    then record l {
      nodes = ns;
      total_volume = fsub l.total_volume (fill_qty remaining n);
      order_count = l.order_count - 1;
    }
    else record l { nodes = m ∷ ns; total_volume = fsub l.total_volume (fill_qty remaining n) }

abbrev pub fill_of : ℕ → Level → Node → Fill
fill_of remaining l n = record {
  maker_order_id = n.order_id;
  price = l.price;
  quantity = fill_qty remaining n;
}

-- One round at the first maker. If the buffer is full, the quantities have changed and the trade is
-- not written, and neither is the maker unlinked.
abbrev pub stalled : ℕ → Node → List Node → Level → Level
stalled remaining n ns l = record l {
  nodes = maker_after remaining n ∷ ns;
  total_volume = fsub l.total_volume (fill_qty remaining n);
}

unfoldable pub take : Node → List Node → Level → Progress → Level × Progress
take n ns l p =
    if leb trades_cap (length p.fills)
    then (
      stalled p.remaining n ns l,
      record p { remaining = fsub p.remaining (fill_qty p.remaining n); overflow = true },
    )
    else (
      level_after p.remaining n ns l,
      record p {
        remaining = fsub p.remaining (fill_qty p.remaining n);
        fills = p.fills ++ fill_of p.remaining l n ∷ [];
      },
    )

-- The loop over the makers of a level, on fuel. An iceberg takes two rounds at most, so twice the
-- number of nodes is enough.
unfoldable pub walk_level : ℕ → Level → Progress → Level × Progress
unfolding take
walk_level zero l p = (l, p)
walk_level (suc fuel) l p = elim l.nodes [
  | [] ↦ (l, p)
  | n ∷ ns ↦
      let rest = walk_level fuel (take n ns l p).0 (take n ns l p).1 in
      if p.overflow || p.remaining == 0 then (l, p) else rest
]

abbrev pub level_fuel : Level → ℕ
level_fuel l = 2 * length l.nodes + 1

-- The loop over the levels. A level that is used up is removed; the loop ends where the taker is
-- filled, the price is too far, or the buffer has overflowed.
unfoldable pub walk_levels : OrderSide → Option ℕ → List Level → Progress → List Level × Progress
unfolding walk_level
walk_levels side price [] p = ([], p)
walk_levels side price (l ∷ ls) p =
    let r = walk_level (level_fuel l) l p in
    let rest = walk_levels side price ls r.1 in
    if p.remaining == 0 || not (acceptable side price l.price)
    then (l ∷ ls, p)
    else if r.1.overflow
    then (r.0 ∷ ls, r.1)
    else (compact r.0 rest.0, rest.1)

pub record Matched : Type 0 where
  pub opposite : List Level
  pub fills : List Fill
  pub outcome : Outcome
  pub remaining : ℕ

abbrev pub untouched : List Level → Outcome → ℕ → Matched
untouched ls outcome quantity = record {
  opposite = ls;
  fills = [];
  outcome = outcome;
  remaining = quantity;
}

-- MARKET and IOC that filled nothing are told apart.
abbrev pub takes_only : CType → Bool
takes_only market = true
takes_only ioc = true
takes_only _ = false

-- The decision at the end.
abbrev pub decide : CType → Progress → Outcome
decide type p =
    if p.overflow
    then no_liquidity
    else if ltb 0 p.remaining && takes_only type && length p.fills == 0
    then no_liquidity
    else ok

unfoldable pub walk : Taker → List Level → Matched
unfolding walk_levels
walk t ls =
    let r =
      walk_levels t.side t.price ls
        (record { remaining = t.quantity; fills = []; overflow = false }) in
    record {
      opposite = r.0;
      fills = r.1.fills;
      outcome = decide t.type r.1;
      remaining = r.1.remaining;
    }

-- `_match_internal`, on the opposite side of the book.
unfoldable pub match_type : CType → Taker → List Level → Matched
unfolding walk would_cross enough
match_type post_only t ls =
    untouched ls (if would_cross t.side t.price ls then post_only_cross else ok) t.quantity
match_type fok t ls =
    if enough t.side t.price t.quantity 0 ls
    then walk t ls
    else untouched ls fok_rejected t.quantity
match_type market t ls = walk t ls
match_type limit t ls = walk t ls
match_type ioc t ls = walk t ls

unfoldable pub match_side : Taker → List Level → Matched
unfolding match_type
match_side t ls = match_type t.type t ls

-- `match_active_order`: the trades, the outcome and the remaining quantity, with the book after.
abbrev put_back : OrderSide → Engine → List Level → Engine
put_back buy e ls = record e { asks = ls }
put_back sell e ls = record e { bids = ls }

abbrev pub opposite_of : OrderSide → Engine → List Level
opposite_of buy e = e.asks
opposite_of sell e = e.bids

unfoldable pub match_active_order : Taker → Engine → Engine × Matched
unfolding match_side
match_active_order t e =
    let m = match_side t (opposite_of t.side e) in (put_back t.side e m.opposite, m)
