-- ===== src/Orders.antt =====
-- internal/order and internal/application/{order,refund}: orders from payment to refund.
pub mod Repository
pub mod Fulfillment
pub mod Refund
pub mod Effect
pub mod Sold
pub mod Approval
pub mod Transitions
pub mod Refunds
