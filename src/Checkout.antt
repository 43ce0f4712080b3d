-- ===== src/Checkout.antt =====
-- internal/application/order/create.go: order creation. The rows that other transactions commit
-- between the replay check and the lock of the buyer are a function on the tables, `race`.
pub mod Items
pub mod Request
pub mod Commit
pub mod Execute
pub mod Lines
pub mod Effect
pub mod Outcome
pub mod Replay
pub mod Ledger
