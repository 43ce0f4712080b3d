-- ===== src/Database.antt =====
-- internal/platform/database: the tables, the transactions over them and their retries.
pub mod Rows
pub mod Store
pub mod Runner
pub mod Retry
