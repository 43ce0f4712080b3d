-- ===== src/Payment.antt =====
-- internal/payment: the points balance of a buyer and the append-only points ledger.
pub mod Balance
pub mod Ledger
pub mod Accounts
