-- ===== src/Types.antt =====
-- src/types: the articles of the provider.
pub mod Article
pub mod Search
pub mod Tests
