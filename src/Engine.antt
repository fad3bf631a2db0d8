-- ===== src/Engine.antt =====
-- The matching engine: backend/app/matching/engine.pyx with its declarations in engine.pxd.
pub mod Double
pub mod Book
pub mod Match
pub mod Round
pub mod Level
pub mod Fuel
pub mod Walk
pub mod Sides
pub mod Results
pub mod FillOrKill
pub mod Load
pub mod Priority
pub mod Greedy
pub mod Append
