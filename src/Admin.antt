-- ===== src/Admin.antt =====
-- The administrators: internal/admin/service.go, without its lists.
pub mod Names
pub mod Hashing
pub mod Permissions
pub mod Accounts
pub mod Login
pub mod Roles
pub mod Versions
pub mod Steps
pub mod Revocation
pub mod Tokens
pub mod Overlap
pub mod Verify
pub mod Outcome
