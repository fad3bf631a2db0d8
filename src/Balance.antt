-- ===== src/Balance.antt =====
-- Balances: the repository, and the service's two ways of locking.
pub mod Repo
pub mod Service
pub mod Pessimistic
pub mod Laws
pub mod Invariant
pub mod Effects
pub mod Quiet
