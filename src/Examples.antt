-- ===== src/Examples.antt =====
-- The theorems at work on a small shop: the witnesses, with the tables that they run on.
pub mod Shop
pub mod Buying
pub mod Orders
pub mod Points
pub mod Transactions
pub mod Addresses
pub mod Carts
pub mod Limits
pub mod Buyers
pub mod Admins
pub mod Coupons
pub mod Products
