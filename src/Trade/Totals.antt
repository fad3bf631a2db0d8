-- ===== src/Trade/Totals.antt =====
-- What the first loop of a batch adds up.
use uvipystock.Prelude.{
  ℕ, ◌+◌, ◌≡◌, refl, arith, true, List, [], ◌∷◌, ◌++◌, length, length-append, sum_by, All, contains,
}
use uvipystock.Model.Decimal.{mul}
use uvipystock.Trade.Fills.{
  MatchTrade, Batch, Fill, add_fill, Totals, no_totals, trade_row, collect,
}

abbrev pub fills_qty : List Fill → ℕ
fills_qty fs = sum_by (λ (f : Fill). f.qty) fs

abbrev pub fills_quote : List Fill → ℕ
fills_quote fs = sum_by (λ (f : Fill). f.quote_qty) fs

add_fill-qty :
    (id q v : ℕ) (fs : List Fill)
    → (fills_qty (add_fill id q v fs) ≡ q + fills_qty fs)
      × (fills_quote (add_fill id q v fs) ≡ v + fills_quote fs)
unfolding add_fill
add_fill-qty id q v [] = (omega arith, omega arith)
add_fill-qty id q v (f ∷ fs) = ground (arith, add_fill-qty id q v fs)

-- The makers' parts and the taker's agree with the trades.
pub record AddsUp (ts : List MatchTrade) (before after : Totals) : Type 0 where
  pub qty :
      after.taker_total_qty ≡ before.taker_total_qty + sum_by (λ (t : MatchTrade). t.quantity) ts
  pub quote :
      after.taker_total_quote
      ≡ before.taker_total_quote + sum_by (λ (t : MatchTrade). mul t.price t.quantity) ts
  pub makers_qty :
      fills_qty after.fills + before.taker_total_qty
      ≡ fills_qty before.fills + after.taker_total_qty
  pub makers_quote :
      fills_quote after.fills + before.taker_total_quote
      ≡ fills_quote before.fills + after.taker_total_quote
  pub rows : length after.persisted ≡ length before.persisted + length ts

collect-AddsUp :
    (b : Batch) (ts : List MatchTrade) (acc : Totals) → AddsUp ts acc (collect b ts acc)
unfolding collect
collect-AddsUp b [] acc = record {
  qty = omega arith;
  quote = omega arith;
  makers_qty = refl;
  makers_quote = refl;
  rows = omega arith;
}
collect-AddsUp b (t ∷ ts) acc =
    let value = mul t.price t.quantity in
    let next : Totals = record {
      persisted = acc.persisted ++ trade_row b t ∷ [];
      fills = add_fill t.maker_order_id t.quantity value acc.fills;
      taker_total_qty = acc.taker_total_qty + t.quantity;
      taker_total_quote = acc.taker_total_quote + value;
    } in
    let h : AddsUp ts next (collect b ts next) = collect-AddsUp b ts next in
    let f = add_fill-qty t.maker_order_id t.quantity value acc.fills in
    record {
      qty = omega (arith, h.qty);
      quote = omega (arith, h.quote);
      makers_qty = omega (arith, h.makers_qty, f.0);
      makers_quote = omega (arith, h.makers_quote, f.1);
      rows = omega (arith, h.rows, length-append acc.persisted (trade_row b t ∷ []));
    }

-- What the makers' entries add up to is what the taker is charged: in the base asset the sum of the
-- trades' quantities, in the quote asset the sum of price times quantity; and each trade gives one
-- row.
pub collect_totals :
    (b : Batch) (ts : List MatchTrade)
    → let acc = collect b ts no_totals in
      (acc.taker_total_qty ≡ sum_by (λ (t : MatchTrade). t.quantity) ts)
      × (acc.taker_total_quote ≡ sum_by (λ (t : MatchTrade). mul t.price t.quantity) ts)
      × (fills_qty acc.fills ≡ acc.taker_total_qty)
      × (fills_quote acc.fills ≡ acc.taker_total_quote)
      × (length acc.persisted ≡ length ts)
collect_totals b ts =
    let h : AddsUp ts no_totals (collect b ts no_totals) = collect-AddsUp b ts no_totals in
    (
      omega (arith, h.qty),
      omega (arith, h.quote),
      omega (arith, h.makers_qty),
      omega (arith, h.makers_quote),
      omega (arith, h.rows),
    )

add_fill-All :
    (ids : List ℕ) (id q v : ℕ) (fs : List Fill)
    → contains id ids ≡ true
    → All (λ (f : Fill). contains f.order_id ids ≡ true) fs
    → All (λ (f : Fill). contains f.order_id ids ≡ true) (add_fill id q v fs)
unfolding add_fill
add_fill-All ids id q v [] h all = (h, tt)
add_fill-All ids id q v (f ∷ fs) h all = ground (arith, add_fill-All ids id q v fs)

-- The entries are for the makers of the trades.
pub collect-All :
    (ids : List ℕ) (b : Batch) (ts : List MatchTrade) (acc : Totals)
    → All (λ (t : MatchTrade). contains t.maker_order_id ids ≡ true) ts
    → All (λ (f : Fill). contains f.order_id ids ≡ true) acc.fills
    → All (λ (f : Fill). contains f.order_id ids ≡ true) (collect b ts acc).fills
unfolding collect
collect-All ids b [] acc all h = h
collect-All ids b (t ∷ ts) acc all h =
    collect-All ids b ts _ all.1 (add_fill-All ids t.maker_order_id t.quantity _ acc.fills all.0 h)
