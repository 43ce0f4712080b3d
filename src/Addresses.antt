-- ===== src/Addresses.antt =====
-- internal/user/address_service.go: the buyer's addresses.
pub mod Lookup
pub mod Service
pub mod Edits
