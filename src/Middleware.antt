-- ===== src/Middleware.antt =====
-- src/middleware: what stands between Express and the controllers.
pub mod ErrorHandler
pub mod RateLimit
pub mod ClientApiKey
pub mod Tests
