-- ===== src/RateLimit.antt =====
-- backend/app/redis_client/rate_limit.py and core/rate_limit.py: the requests of a key in a sliding
-- window.
pub mod Window
pub mod Log
pub mod Laws
pub mod Retry
pub mod Race
