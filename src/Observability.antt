-- ===== src/Observability.antt =====
-- src/tracing.ts and src/logger.ts: what traces and log lines say of a request.
pub mod Tracing
pub mod Logger
pub mod Tests
