-- ===== src/Coupons.antt =====
-- The coupon templates: internal/coupon/service.go.
pub mod Templates
pub mod Listing
pub mod Rules
pub mod Pages
pub mod Switch
