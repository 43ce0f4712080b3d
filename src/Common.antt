-- ===== src/Common.antt =====
-- Names that every module shares: the libraries', Boolean tests, integers, tables and texts.
pub mod Tests
pub mod Base
pub mod Int
pub mod Int64
pub mod Table
pub mod Counts
pub mod Text
