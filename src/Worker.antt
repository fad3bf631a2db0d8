-- ===== src/Worker.antt =====
-- backend/app/matching/worker.py and _bridge.py: the consumer of the queue, between the services and
-- the matcher.
pub mod Bridge
pub mod Place
pub mod Load
pub mod Order
pub mod Book
pub mod Hashes
pub mod Effects
