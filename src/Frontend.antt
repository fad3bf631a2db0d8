-- ===== src/Frontend.antt =====
-- frontend/backend/app: the copy of the backend that the front end carries, where it differs.
pub mod Lock
pub mod Slippage
pub mod Makers
