-- ===== src/Products.antt =====
-- The product service: internal/product/service.go and category.go, with the object keys of
-- internal/storage/storage.go.
pub mod Fields
pub mod Service
pub mod Gallery
pub mod Sound
