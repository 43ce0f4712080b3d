-- ===== src/Buyers.antt =====
-- The buyers: internal/user/service.go with the first login and its signup bonus, and
-- internal/application/auth/login.go above it.
pub mod Account
pub mod Login
pub mod Keys
pub mod Bonus
pub mod Once
pub mod Race
pub mod Profile
pub mod Signing
