-- ===== src/Catalog.antt =====
-- internal/product: the rows that order creation and refunds lock and change.
pub mod Stock
pub mod Conservation
