-- ===== src/Stops.antt =====
-- The stop orders: the two sorted sets that wait for a price, the trailing stops' state, and the
-- monitor that triggers them.
pub mod Queue
pub mod Trailing
pub mod Monitor
pub mod Laws
pub mod Triggered
