-- ===== src/Provider.antt =====
-- src/providers: the provider's client with its circuit breaker and retries.
pub mod Circuit
pub mod Retry
pub mod Request
pub mod Search
pub mod Tests
