-- ===== src/Model.antt =====
-- The database as the services see it, with the log of what they sent to Redis.
pub mod Decimal
pub mod Rows
use uvipystock.Prelude.{ℕ, List, Option, none, some, [], ◌∷◌, ◌==◌, if◌then◌else◌}
use Rows.{Balance, Order, TradingPair, Trade}
use uvipystock.Redis.{Command}

-- The tables, the next value of the orders' id sequence, and the commands sent so far.
pub record World : Type 0 where
  pub balances : List Balance
  pub orders : List Order
  pub pairs : List TradingPair
  pub trades : List Trade
  pub next_order_id : ℕ
  pub commands : List Command

-- `TradingPairRepository.get_by_symbol`
unfoldable pub pair_by_symbol : List TradingPair → ℕ → Option TradingPair
pair_by_symbol [] symbol = none
pair_by_symbol (p ∷ ps) symbol = if p.symbol == symbol then some p else pair_by_symbol ps symbol
