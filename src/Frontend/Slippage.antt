-- ===== src/Frontend/Slippage.antt =====
-- frontend/backend/app/services/order_service.py: when the lock of a market buy is enough.
use uvipystock.Prelude.{ℕ, ◌+◌, ◌-◌, ◌*◌, ◌≤◌, ◌≡◌, min, refl, arith, List, [], ◌∷◌, All, ap, some}
use uvipystock.Model.Decimal.{half_up, unit}
use uvipystock.Orders.Validate.{MakerOrder, OrderCreate, Lock, ask_quantity}
use uvipystock.Orders.Estimate.{fills_cost}
use uvipystock.Model.{World}
use uvipystock.Model.Rows.{TradingPair}
use uvipystock.Exec.{ok}
use uvipystock.Frontend.Lock.{with_slippage, best_ask_lock}
use native.Mathlib.Nat.{mul-le-mul_right, mul-add}

step : (p q m r : ℕ) → 100 * p ≤ q → 100 * (p * m) + q * r ≤ q * (m + r)
step p q m r h = omega (arith, mul-le-mul_right m h, mul-add q m r)

-- Where a hundred times the price of each ask is at most the bound, a hundred times what fills the
-- quantity costs is at most the quantity at the bound.
fills_cost-bounded :
    (bound : ℕ) (asks : List MakerOrder) (quantity : ℕ)
    → All (λ (a : MakerOrder). 100 * a.price ≤ bound) asks
    → 100 * fills_cost asks quantity ≤ bound * quantity
unfolding fills_cost
fills_cost-bounded bound [] quantity h = omega arith
fills_cost-bounded bound (a ∷ asks) quantity h =
    let filled = min quantity (ask_quantity a) in
    let rest = quantity - ask_quantity a in
    let whole : filled + rest ≡ quantity = omega arith in
    omega (
      arith,
      step a.price bound filled rest h.0,
      ap (λ (k : ℕ). bound * k) whole,
      fills_cost-bounded bound asks rest h.1,
    )

half_up-le : (n m : ℕ) → 100 * n ≤ m → half_up n unit ≤ half_up m (100 * unit)
unfolding unit
half_up-le n m h = omega arith

-- Where no ask is more than one percent above the best ask, what the copy locks for a market buy is
-- at least what it costs to fill the quantity from the asks, both rounded to 18 digits.
pub best_ask_lock-covers :
    (best : ℕ × ℕ) (asks : List MakerOrder) (dto : OrderCreate) (pair : TradingPair) (w : World)
    → All (λ (a : MakerOrder). 100 * a.price ≤ best.0 * 101) asks
    → (lock : Lock) × (best_ask_lock (some best) dto pair w ≡ (ok lock, w))
      × (lock.asset ≡ some pair.quote_asset)
      × (half_up (fills_cost asks dto.quantity) unit ≤ lock.amount)
unfolding best_ask_lock with_slippage
best_ask_lock-covers best asks dto pair w h =
    (_, refl, refl, half_up-le _ _ (fills_cost-bounded (best.0 * 101) asks dto.quantity h))
