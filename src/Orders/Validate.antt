-- ===== src/Orders/Validate.antt =====
-- backend/app/services/order_service.py: the input, its validation, and what has to be locked.
-- The side and the type are the enumerations that the API's schema admits.
use uvipystock.Prelude.{
  ℕ, ◌+◌, ◌-◌, ◌*◌, ◌%◌, ◌==◌, ltb, min, Bool, true, false, not, ◌&&◌, ◌||◌, if◌then◌else◌, List,
  [], ◌∷◌, Option, none, some,
}
use uvipystock.Enums.{
  OrderSide, OrderType, is_buy, is_stop_type, is_iceberg, is_market, is_trailing, needs_price,
}
use uvipystock.Model.{pair_by_symbol}
use uvipystock.Model.Decimal.{mul, with_buffer}
use uvipystock.Model.Rows.{TradingPair}
use uvipystock.Exec.{Exec, pure, raise_if, gets, or_raise, ◌>>=◌, ◌>>◌, order_validation}

-- `SLTPConfig`
pub record SltpConfig : Type 0 where
  pub type : OrderType
  pub stop_price : Option ℕ
  pub price : Option ℕ
  pub quantity : Option ℕ

-- `OrderCreateDTO`
pub record OrderCreate : Type 0 where
  pub symbol : ℕ
  pub side : OrderSide
  pub type : OrderType
  pub price : Option ℕ
  pub stop_price : Option ℕ
  pub trailing_delta : Option ℕ
  pub quantity : ℕ
  pub visible_quantity : Option ℕ
  pub hidden_quantity : Option ℕ
  pub sl : Option SltpConfig
  pub tp : Option SltpConfig
  pub client_order_id : Option ℕ
  pub bulk_id : Option ℕ

-- An entry of `get_opposite_orders_for_match`.
pub record MakerOrder : Type 0 where
  pub order_id : ℕ
  pub side : OrderSide
  pub price : ℕ
  pub quantity : ℕ
  pub visible_quantity : ℕ
  pub hidden_quantity : ℕ
  pub is_iceberg : Bool

abbrev is_none {ℓ} : {A : Type ℓ} → Option A → Bool
is_none none = true
is_none (some _) = false

-- `_validate_and_get_pair`
unfoldable pub validate_and_get_pair : ℕ → Exec TradingPair
unfolding pair_by_symbol
validate_and_get_pair symbol = do
  found ← gets (λ w. pair_by_symbol w.pairs symbol)
  pair ← or_raise found order_validation
  raise_if (not pair.is_active) order_validation
  pure pair

-- Whether the iceberg's parts are refused.
abbrev bad_iceberg : Option ℕ → Option ℕ → ℕ → Bool
bad_iceberg none h quantity = true
bad_iceberg (some v) none quantity = true
bad_iceberg (some v) (some h) quantity = not (v + h == quantity) || v == 0

abbrev bad_price : Option ℕ → Bool
bad_price none = false
bad_price (some p) = p == 0

abbrev off_tick : Option ℕ → ℕ → Bool
off_tick none tick = false
off_tick (some p) tick = ltb 0 tick && not (p % tick == 0)

-- The tests of `_validate_params`, in their order.
unfoldable pub checks : OrderCreate → TradingPair → List Bool
checks dto pair =
    (dto.quantity == 0)
    ∷ ltb dto.quantity pair.min_lot_size
    ∷ ltb pair.max_lot_size dto.quantity
    ∷ (needs_price dto.type && is_none dto.price)
    ∷ bad_price dto.price
    ∷ (is_stop_type dto.type && (not (is_trailing dto.type) && is_none dto.stop_price))
    ∷ (is_trailing dto.type && is_none dto.trailing_delta)
    ∷ (is_iceberg dto.type && bad_iceberg dto.visible_quantity dto.hidden_quantity dto.quantity)
    ∷ off_tick dto.price pair.tick_size
    ∷ []

-- The first test that holds raises OrderValidationError.
unfoldable pub raise_any : List Bool → Exec (Unit {0})
raise_any [] = pure tt
raise_any (t ∷ ts) = do raise_if t order_validation; raise_any ts

-- `_validate_params`
unfoldable pub validate_params : OrderCreate → TradingPair → Exec (Unit {0})
unfolding checks raise_any
validate_params dto pair = raise_any (checks dto pair)

-- What to lock; no asset, for the empty name.
pub record Lock : Type 0 where
  pub asset : Option ℕ
  pub amount : ℕ

abbrev pub no_lock : Lock
no_lock = record { asset = none; amount = 0 }

-- `_compute_lock_asset_and_amount`. Its assertion, that a price is there, holds after
-- `_validate_params`; a market buy is computed elsewhere.
pub lock_for_price : Option ℕ → ℕ → ℕ
lock_for_price none quantity = 0
lock_for_price (some price) quantity = mul price quantity

unfoldable pub compute_lock : OrderCreate → TradingPair → Lock
unfolding lock_for_price
compute_lock dto pair =
    if is_stop_type dto.type
    then no_lock
    else if not (is_buy dto.side)
    then record { asset = some pair.base_asset; amount = dto.quantity }
    else if is_market dto.type
    then record { asset = some pair.quote_asset; amount = 0 }
    else record { asset = some pair.quote_asset; amount = lock_for_price dto.price dto.quantity }

-- `visible_quantity if is_iceberg else quantity`
abbrev pub ask_quantity : MakerOrder → ℕ
ask_quantity ask = if ask.is_iceberg then ask.visible_quantity else ask.quantity

-- The walk over the asks: what is left of the quantity, and the cost so far.
unfoldable pub walk_asks : List MakerOrder → ℕ → ℕ → ℕ × ℕ
walk_asks [] remaining cost = (remaining, cost)
walk_asks (ask ∷ asks) remaining cost =
    let fill = min remaining (ask_quantity ask) in
    let rest = walk_asks asks (remaining - fill) (cost + ask.price * fill) in
    if remaining == 0 then (remaining, cost) else rest

unfoldable pub is_empty : List MakerOrder → Bool
is_empty [] = true
is_empty (_ ∷ _) = false

-- The estimate that `_compute_market_buy_lock` and the stop monitor share: nothing if the book has
-- no asks or not enough of them.
unfoldable pub market_buy_cost : List MakerOrder → ℕ → Option ℕ
unfolding walk_asks with_buffer is_empty
market_buy_cost asks quantity =
    let (left, cost) = walk_asks asks quantity 0 in
    if is_empty asks || ltb 0 left then none else some (with_buffer cost)

-- `_compute_market_buy_lock`, on the asks that Redis returned.
unfoldable pub market_buy_lock : List MakerOrder → OrderCreate → TradingPair → Exec Lock
market_buy_lock asks dto pair = do
  amount ← or_raise (market_buy_cost asks dto.quantity) order_validation
  pure (record { asset = some pair.quote_asset; amount = amount })

-- The three-way choice that `place_order` and `place_bulk_orders` make.
unfoldable pub lock_for : (ℕ → List MakerOrder) → OrderCreate → TradingPair → Exec Lock
unfolding market_buy_lock compute_lock
lock_for asks dto pair =
    if is_stop_type dto.type
    then pure no_lock
    else if is_market dto.type && is_buy dto.side
    then market_buy_lock (asks dto.symbol) dto pair
    else pure (compute_lock dto pair)
