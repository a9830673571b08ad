-- ===== src/Async.antt =====
-- The async subsystem (src/async): the registry, the index of cache slots, the rate limiter,
-- request versions and the cache.
pub mod State
pub mod Slots
pub mod Rate
pub mod Requests
pub mod Cache
mod Tests
