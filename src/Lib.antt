-- ===== src/Lib.antt =====
-- A model of the backend of the shop: the points mall where a buyer pays for a cart with
-- points, an administrator ships the order, a refund gives the points and the stock back, and
-- an administrator adjusts a balance. It covers the usecases of backend/internal/application and
-- the repositories and services that they call.
--
-- Database (backend/internal/platform/database): the tables as lists of rows (Rows, after
-- models.go, with the CHECK and UNIQUE constraints of backend/migrations/0001_init.up.sql
-- written out where a row is inserted or updated), an action as a function from the tables to a
-- result and the tables (Store), and the retrying transaction runner of database.go (Runner,
-- with its laws in Retry). An action that fails keeps what it wrote; `commit` rolls it back.
-- The usecases use `commit` for a transaction: what the runner adds to it is stated in Retry.
--
-- Payment: backend/internal/payment/balance.go in Balance, repository.go and ledger.go in
-- Ledger, and the invariant that relates the two tables in Accounts. Catalog:
-- backend/internal/product/repository.go, the row locks and the stock updates. Cart:
-- backend/internal/cart/repository.go in Repository and service.go in Service, with the lemmas in
-- Quantities. Addresses: backend/internal/user/address_service.go, the reads of order
-- creation in Lookup and the edits in Service, with the lemmas in Edits.
-- Orders: backend/internal/order/repository.go and model.go in Repository,
-- backend/internal/application/order/fulfillment.go in Fulfillment and
-- backend/internal/application/refund/refund.go in Refund, with the lemmas in Effect, Approval,
-- Transitions, Refunds and Sold. Checkout: backend/internal/application/order/create.go in
-- Request, Items, Commit and Execute, with the lemmas in Lines, Effect, Outcome, Ledger and
-- Replay. Points: backend/internal/application/points/adjust.go, with the lemmas in its Effect and
-- Replay. Buyers: backend/internal/user/service.go in Account and
-- backend/internal/application/auth/login.go in Login, with the lemmas in Keys, Bonus, Once, Race,
-- Profile and Signing. Limits: the fixed-window limiters of backend/internal/admin/rate_limit.go,
-- backend/internal/application/auth/rate_limit.go and backend/internal/middleware/rate_limit.go in
-- Login, over the maps of Windows, with the lemmas in Budget and Agreement. Admin:
-- backend/internal/admin/service.go in Names, Hashing, Permissions, Accounts, Login and Roles, with the
-- lemmas in Versions, Steps, Revocation, Tokens, Overlap, Verify and Outcome. Coupons:
-- backend/internal/coupon/service.go in Templates and Listing, with the lemmas in Rules, Switch and
-- Pages. Products: backend/internal/product/service.go and category.go, and the object keys of
-- backend/internal/storage/storage.go, in Fields and Service, with the lemmas in Gallery and Sound.
-- Audit: backend/internal/platform/audit/audit.go and the helpers resolveRole and
-- recordFailure that the usecases repeat. System: runs of all the usecases, in any order, and
-- their invariants. Examples: a small shop on which the theorems run. Common: integers, texts,
-- tables and counts. A definition bears the name of the Go function in snake case, and its comment
-- names that function; a part of a long function has a name for what it does.
--
-- Concurrency: the order, fulfillment, refund and points usecases lock the rows that they change,
-- and their calls are modelled as serial, except between the first read of a call that may be
-- replayed and the locks it takes next. There `create_order` and `adjust_points` take a function
-- `race`, what other transactions commit in that gap, and continue on the tables that it leaves;
-- the unique indexes decide what happens then. Calls that change a row which they have read
-- without a lock take `race` at that point: `upsert_by_openid`, between its read of the buyer and
-- the award of the bonus, and `logout`, `change_password` and `update_admin`, between their read
-- of the account and its update; where such a call fails, what the others have committed stays.
-- `undisturbed` stands for no interference. The other calls of the services of products, coupons,
-- carts, addresses, roles and accounts are modelled only as calls that do not overlap. The row
-- locks themselves, isolation levels and deadlocks have no model beyond that: an attempt that
-- PostgreSQL aborts is given by `Faults`.
--
-- Numbers: an identifier is the number of its 128 bits, a time is a number, a string is the list
-- of its runes. int64 arithmetic wraps where Go's does (Common/Int64); PostgreSQL's bigint and
-- integer columns refuse what is out of range. Prices, stocks and quantities are natural numbers,
-- as their CHECK constraints have it. The retry loop recurs on the attempts that are left, which
-- are those that the runner allows: it needs no other fuel.
--
-- Parameters: SHA-256 over JSON is a `Digest`, a function of the payload into a type whose
-- equality can be tested; the role resolver is a function. Event keys are kept in the form they
-- have before they are printed. The WeChat client, the signer of the tokens and strings.ToLower
-- are functions, and so are the classes of package unicode, Argon2id, base64 and the scans of
-- package fmt. Of the foreign keys, those of user_addresses and cart_items to users are modelled;
-- the code has read or locked the rows that most others name, and those to admin_users and roles
-- are left out. Not modelled: HTTP handlers, the lists of the administration, product listings,
-- storage, configuration, metrics.
pub mod Common
pub mod Database
pub mod Payment
pub mod Digest
pub mod Audit
pub mod Points
pub mod Catalog
pub mod Admin
pub mod Buyers
pub mod Coupons
pub mod Products
pub mod Limits
pub mod Orders
pub mod Cart
pub mod Addresses
pub mod Checkout
pub mod System
pub mod Examples
