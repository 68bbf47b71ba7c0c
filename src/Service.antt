-- ===== src/Service.antt =====
-- src/services: the news service.
pub mod InFlight
pub mod Cached
pub mod Search
pub mod Fetch
pub mod CacheKey
pub mod Valid
pub mod Tests
