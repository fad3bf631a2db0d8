-- ===== src/Market.antt =====
-- What the routes show of the market: candles of trades, and the levels of the book.
pub mod Candles
pub mod Buckets
pub mod Aggregate
pub mod Depth
pub mod Levels
