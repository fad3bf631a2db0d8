-- ===== src/Records.antt =====
-- What every service keeps of the table of orders.
pub mod Table
pub mod Rules
pub mod Balances
pub mod Placed
pub mod Inserted
pub mod Canceled
pub mod Traded
pub mod Stopped
pub mod Worked
pub mod History
