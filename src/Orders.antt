-- ===== src/Orders.antt =====
-- Orders: the repository and the order service.
pub mod Repo
pub mod Validate
pub mod Place
pub mod Cancel
pub mod Modify
pub mod Bulk
pub mod Laws
pub mod Estimate
pub mod Refusals
pub mod Cancels
pub mod Modified
pub mod StopOrders
