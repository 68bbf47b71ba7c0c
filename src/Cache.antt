-- ===== src/Cache.antt =====
-- src/cache: the stores and the coordination of cache misses between replicas.
pub mod Memory
pub mod Store
pub mod Redis
pub mod Heartbeat
pub mod Coordinator
pub mod Tests
