-- ===== src/Frontend/Lock.antt =====
-- frontend/backend/app/services/order_service.py and stop_monitor_service.py: what the copy locks for
-- a market buy, from the best ask that `get_best_ask` returned. The rest of these files is as in
-- the backend, but for a cancellation, which unlocks with `unlock_optimistic`.
use uvipystock.Prelude.{ℕ, ◌*◌, Option, none, some}
use uvipystock.Enums.{OrderSide, buy, sell}
use uvipystock.Model.Decimal.{half_up, mul, unit}
use uvipystock.Model.Rows.{TradingPair}
use uvipystock.Exec.{Exec, pure, raise, order_validation}
use uvipystock.Orders.Validate.{OrderCreate, Lock}

-- The price times `Decimal("1.01")` times the quantity, an exact product that the column rounds.
unfoldable pub with_slippage : ℕ → ℕ → ℕ
unfolding unit
with_slippage price quantity = half_up (price * 101 * quantity) (100 * unit)

-- `_compute_market_buy_lock`
unfoldable pub best_ask_lock : Option (ℕ × ℕ) → OrderCreate → TradingPair → Exec Lock
unfolding with_slippage
best_ask_lock none dto pair = raise order_validation
best_ask_lock (some best) dto pair =
    pure (record { asset = some pair.quote_asset; amount = with_slippage best.0 dto.quantity })

-- The amount of a triggered buy.
unfoldable pub triggered_amount : Option (ℕ × ℕ) → Option ℕ → ℕ → Option ℕ
unfolding with_slippage
triggered_amount best (some price) quantity = some (mul price quantity)
triggered_amount none none quantity = none
triggered_amount (some best) none quantity = some (with_slippage best.0 quantity)

-- The asset and the amount that a triggered order's child needs.
unfoldable pub triggered_lock :
    OrderSide → Option (ℕ × ℕ) → TradingPair → Option ℕ → ℕ → ℕ × Option ℕ
unfolding triggered_amount
triggered_lock sell best pair price quantity = (pair.base_asset, some quantity)
triggered_lock buy best pair price quantity =
    (pair.quote_asset, triggered_amount best price quantity)
