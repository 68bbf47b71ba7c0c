-- ===== src/Utils.antt =====
-- src/utils: the validation of queries.
pub mod Validation
pub mod Tests
