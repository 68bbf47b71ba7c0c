-- ===== src/Runtime.antt =====
-- src/runtime: the life of the process, its shutdown, and the budget of transport logs.
pub mod Shutdown
pub mod LogLimiter
pub mod Signals
pub mod Tests
