-- ===== src/Redis.antt =====
-- The writes that the services send to Redis, in order: backend/app/redis_client/orderbook.py,
-- orders_index.py, stops.py, queues.py and pubsub.py. A key is a constructor with what its format
-- string is filled with. Redis itself is not modelled: what a read returns is an argument.
mod Commands
mod Payload
pub mod Score
pub mod Index
pub mod Indexed
pub mod Drained
pub mod Queues
pub mod Fifo
unfoldable pub use Commands.*
unfoldable pub use Payload.*
