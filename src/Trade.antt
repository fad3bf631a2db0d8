-- ===== src/Trade.antt =====
-- backend/app/services/trade_service.py: the trades of one match, in rows and balances.
pub mod Service
pub mod Fills
pub mod Totals
pub mod Flow
pub mod Conserve
pub mod Sides
pub mod Idle
pub mod Crossing
pub mod Batches
