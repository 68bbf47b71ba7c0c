-- ===== src/Http.antt =====
-- src/http: header values, request identifiers and entity tags.
pub mod RetryAfter
pub mod RequestId
pub mod BodyParser
pub mod Conditional
pub mod Responses
pub mod Tests
