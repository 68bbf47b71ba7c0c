-- ===== src/Redis.antt =====
-- src/redis: commands to a Redis connection that may not be ready yet.
pub mod CommandRunner
pub mod Tests
