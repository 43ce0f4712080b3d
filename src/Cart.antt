-- ===== src/Cart.antt =====
-- internal/cart: the buyer's cart.
pub mod Repository
pub mod Service
pub mod Quantities
