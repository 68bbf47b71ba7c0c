-- ===== src/Config.antt =====
-- src/config: the settings that the process reads from its environment.
pub mod Numbers
pub mod Cache
pub mod Server
pub mod Redis
pub mod Upstream
pub mod Bounds
pub mod Tests
