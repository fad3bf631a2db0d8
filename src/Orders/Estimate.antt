-- ===== src/Orders/Estimate.antt =====
-- The estimate of a market buy: when there is one, and what it covers.
use uvipystock.Prelude.{
  ℕ, ◌+◌, ◌-◌, ◌*◌, ◌==◌, ltb, ◌≡◌, refl, ap, ==→eq, min, arith, ◌||◌, if◌then◌else◌, List, [], ◌∷◌,
  none, some, sum_by, Bool-cases, inl, inr,
}
use uvipystock.Model.Decimal.{half_up, unit, with_buffer}
use uvipystock.Orders.Validate.{MakerOrder, ask_quantity, walk_asks, market_buy_cost, is_empty}

abbrev pub volume : List MakerOrder → ℕ
volume asks = sum_by ask_quantity asks

-- What the fills cost, ask by ask, in the order of the book, exactly: in units of 10^-36.
unfoldable pub fills_cost : List MakerOrder → ℕ → ℕ
fills_cost [] quantity = 0
fills_cost (a ∷ asks) quantity =
    a.price * min quantity (ask_quantity a) + fills_cost asks (quantity - ask_quantity a)

pub fills_cost-zero : (asks : List MakerOrder) → fills_cost asks 0 ≡ 0
unfolding fills_cost
fills_cost-zero [] = refl
fills_cost-zero (a ∷ asks) = ground (arith, fills_cost-zero asks)

walk_asks-is :
    (asks : List MakerOrder) (quantity cost : ℕ)
    → ((walk_asks asks quantity cost).0 ≡ quantity - volume asks)
      × ((walk_asks asks quantity cost).1 ≡ cost + fills_cost asks quantity)
unfolding walk_asks fills_cost
walk_asks-is [] quantity cost = (omega arith, omega arith)
walk_asks-is (a ∷ asks) quantity cost = elim (Bool-cases (quantity == 0)) [
  | inl z ↦
      let e : quantity ≡ 0 = ==→eq _ _ z in
      rw e (omega arith, omega (arith, fills_cost-zero (a ∷ asks)))
  | inr z ↦
      let q = ask_quantity a in
      let ih = walk_asks-is asks (quantity - min quantity q) (cost + a.price * min quantity q) in
      let e : quantity - min quantity q ≡ quantity - q = omega arith in
      rw z (omega (arith, ih.0), omega (arith, ih.1, ap (fills_cost asks) e))
]

-- There is an estimate exactly where the book has asks, and enough of them for the quantity; it is
-- the cost of filling the quantity from the asks in their order, times 1.001, rounded once, half up,
-- to 18 digits.
pub market_buy_cost_lem :
    (asks : List MakerOrder) (quantity : ℕ)
    → market_buy_cost asks quantity ≡ (
        if is_empty asks || ltb (volume asks) quantity
        then none
        else some (half_up (fills_cost asks quantity * 1_001) (1_000 * unit)))
unfolding market_buy_cost with_buffer
market_buy_cost_lem asks quantity =
    let w = walk_asks-is asks quantity 0 in
    let c = fills_cost asks quantity in
    let test : ltb 0 (quantity - volume asks) ≡ ltb (volume asks) quantity = ground arith in
    let value : 0 + c ≡ c = omega arith in rw (w.0, w.1, test) (rw value refl)
