-- ===== src/Coordination.antt =====
-- coordination: retries with an exponential backoff, rate limits and locks.
pub mod Backoff
pub mod Locker
pub mod RateLimiter
mod Tests
