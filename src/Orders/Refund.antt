-- ===== src/Orders/Refund.antt =====
-- internal/application/refund/refund.go: `Request`, `Approve` and `Reject`.
use shop_mall.Common.Base.{
  ℕ, ◌+◌, ◌-◌, ◌%◌, Bool, true, false, not, ◌||◌, none, some, List, [], ◌∷◌, ltb, ◌==◌,
  if◌then◌else◌, is_some,
}
use shop_mall.Common.Int.{ℤ, pos, negsuc}
use shop_mall.Common.Int64.{max_int32}
use shop_mall.Common.Text.{Text, rune_count, trim_space, is_blank}
use shop_mall.Database.Rows.{
  OrderStatus, paid, shipped, refund_requested, refunded, status_eq, status_text, is_zero,
  OrderItem, Order, order_refund, order_refund_key, PointsLedger, num, str, text, AuditLog,
}
use shop_mall.Database.Store.{Error, Result, ok, err, Action, pure, guard, ◌>>=◌, ◌>>◌, commit}
use shop_mall.Payment.Balance.{lock_user, adjust_balance}
use shop_mall.Payment.Ledger.{create_entry}
use shop_mall.Catalog.Stock.{lock_by_ids, increment_stock}
use shop_mall.Orders.Repository.{
  OrderView, to_order, lock_for_update, lock_for_update_by_user, update_fields,
}
use shop_mall.Audit.{write, resolve_role, map_err}
use shop_mall.Orders.Fulfillment.{Env, record_conflict}

-- The reason is trimmed, not blank and of at most 255 characters.
unfoldable pub valid_reason : Text → Bool
valid_reason reason = not (is_blank (trim_space reason) || ltb 255 (rune_count (trim_space reason)))

-- The int32 that a count of units wraps to, as an integer.
unfoldable pub wrap32 : ℕ → ℤ
wrap32 n = let m = n % 4294967296 in if ltb max_int32 m then negsuc (4294967295 - m) else pos m

-- The units that an approval restores, as its audit row counts them.
unfoldable pub restored_units : List OrderItem → ℕ
restored_units [] = 0
restored_units (item ∷ items) = item.quantity + restored_units items

-- `productIDsOf`
unfoldable pub product_ids_of : List OrderItem → List ℕ
product_ids_of [] = []
product_ids_of (item ∷ items) = item.product_id ∷ product_ids_of items

-- The statuses that `Request` starts from.
abbrev pub refundable : OrderStatus → Bool
refundable paid = true
refundable shipped = true
refundable _ = false

-- `translatePaymentError`
abbrev pub translate_payment_error : Error → Error
translate_payment_error Error.payment_user_not_found = Error.user_not_found
translate_payment_error e = e

module _ {H : Type 0} where
  -- The row that `Request` writes: a fresh request clears the previous review.
  abbrev pub mark_requested : Text → Order H → Order H
  mark_requested reason o = record o {
    status = refund_requested;
    refund_reason = reason;
    refund_reject_reason = [];
    refund_reviewed_by = none;
    refund_reviewed_at = none;
  }

  -- The transaction of `Request`.
  unfoldable pub request_refund : ℕ → ℕ → Text → Action H (OrderView H)
  request_refund user_id order_id reason = do
    row ← lock_for_update_by_user user_id order_id
    guard (refundable row.status) Error.order_state_conflict
    update_fields row.id (λ o. o.user_id == user_id) (mark_requested reason)
    pure (to_order (mark_requested reason row))

  -- `Request`
  unfoldable pub request : ℕ → ℕ → Text → Action H (OrderView H)
  unfolding request_refund
  request user_id order_id reason db =
      if not (valid_reason reason)
      then (err Error.invalid_refund_reason, db)
      else if is_zero user_id || is_zero order_id
      then (err Error.order_not_found, db)
      else commit (request_refund user_id order_id (trim_space reason)) db

  -- The ledger row of an approval.
  unfoldable pub refund_row : ℕ → ℕ → ℕ → Order H → ℕ → PointsLedger H
  refund_row entry_id now admin_id row balance = record {
    id = entry_id;
    user_id = row.user_id;
    order_id = some row.id;
    event_key = order_refund_key row.id;
    request_hash = none;
    kind = order_refund;
    delta = row.total_points;
    balance_after = balance;
    created_by_admin_id = some admin_id;
    remark = row.order_no;
    created_at = now;
  }

  -- The loop that restores the stock.
  unfoldable pub restore_stock : List OrderItem → Action H (Unit {0})
  restore_stock [] = pure tt
  restore_stock (item ∷ items) = do
    increment_stock item.product_id item.quantity
    restore_stock items

  -- The row that `Approve` writes.
  abbrev pub mark_refunded : ℕ → ℕ → Order H → Order H
  mark_refunded admin_id now o = record o {
    status = refunded;
    refunded_at = some now;
    refund_reviewed_by = some admin_id;
    refund_reviewed_at = some now;
  }

  unfoldable pub approve_audit : ℕ → Text → ℕ → Order H → ℕ → AuditLog
  approve_audit admin_id role now row balance = record {
    actor_admin_id = some admin_id;
    actor_role = role;
    action = "refund.approve";
    target_type = "order";
    target_id = some row.id;
    result = "success";
    before_data = [];
    after_data =
        ("status", str (status_text refunded))
        ∷ ("order_no", text row.order_no)
        ∷ ("total_points", num row.total_points)
        ∷ ("balance_after", num (pos balance))
        ∷ ("stock_restored", num (wrap32 (restored_units row.items)))
        ∷ ("reviewed_at", num (pos now))
        ∷ [];
  }

  -- The transaction of `Approve`, which takes the identifier of the new ledger row.
  unfoldable pub approve_refund : Env → ℕ → ℕ → Text → ℕ → Action H (OrderView H)
  approve_refund env entry_id admin_id role order_id = do
    row ← lock_for_update order_id
    guard (status_eq row.status refund_requested) Error.order_state_conflict
    map_err translate_payment_error (lock_user row.user_id)
    locked ← lock_by_ids (product_ids_of row.items)
    balance ← map_err translate_payment_error (adjust_balance row.user_id row.total_points)
    create_entry (refund_row entry_id env.now admin_id row balance)
    restore_stock row.items
    update_fields row.id (λ o. status_eq o.status refund_requested) (mark_refunded admin_id env.now)
    write (approve_audit admin_id role env.now row balance)
    pure (to_order (mark_refunded admin_id env.now row))

  unfoldable pub approve_as : Env → ℕ → ℕ → ℕ → Result Text → Action H (OrderView H)
  unfolding approve_refund record_conflict
  approve_as env entry_id admin_id order_id (err e) db = (err e, db)
  approve_as env entry_id admin_id order_id (ok role) db =
      record_conflict "refund.approve" admin_id role order_id
        (commit (approve_refund env entry_id admin_id role order_id) db)

  -- `Approve`
  unfoldable pub approve : Env → ℕ → ℕ → ℕ → Action H (OrderView H)
  unfolding approve_as
  approve env entry_id admin_id order_id db =
      if is_zero admin_id || is_zero order_id
      then (err Error.order_not_found, db)
      else approve_as env entry_id admin_id order_id (resolve_role env.roles admin_id) db

  -- The status that a rejected request goes back to.
  abbrev pub reject_target : Order H → OrderStatus
  reject_target o = if is_some o.shipped_by then shipped else paid

  -- The row that `Reject` writes.
  abbrev pub mark_rejected : OrderStatus → Text → ℕ → ℕ → Order H → Order H
  mark_rejected target reason admin_id now o = record o {
    status = target;
    refund_reject_reason = reason;
    refund_reviewed_by = some admin_id;
    refund_reviewed_at = some now;
  }

  unfoldable pub reject_audit : ℕ → Text → ℕ → Text → Order H → AuditLog
  reject_audit admin_id role now reason row = record {
    actor_admin_id = some admin_id;
    actor_role = role;
    action = "refund.reject";
    target_type = "order";
    target_id = some row.id;
    result = "success";
    before_data = [];
    after_data =
        ("status", str (status_text (reject_target row)))
        ∷ ("order_no", text row.order_no)
        ∷ ("refund_reject_reason", text reason)
        ∷ ("reviewed_at", num (pos now))
        ∷ [];
  }

  -- The transaction of `Reject`.
  unfoldable pub reject_refund : Env → ℕ → Text → ℕ → Text → Action H (OrderView H)
  reject_refund env admin_id role order_id reason = do
    row ← lock_for_update order_id
    guard (status_eq row.status refund_requested) Error.order_state_conflict
    update_fields row.id (λ o. status_eq o.status refund_requested)
        (mark_rejected (reject_target row) reason admin_id env.now)
    write (reject_audit admin_id role env.now reason row)
    pure (to_order (mark_rejected (reject_target row) reason admin_id env.now row))

  unfoldable pub reject_as : Env → ℕ → ℕ → Text → Result Text → Action H (OrderView H)
  unfolding reject_refund record_conflict
  reject_as env admin_id order_id reason (err e) db = (err e, db)
  reject_as env admin_id order_id reason (ok role) db =
      record_conflict "refund.reject" admin_id role order_id
        (commit (reject_refund env admin_id role order_id reason) db)

  -- `Reject`
  unfoldable pub reject : Env → ℕ → ℕ → Text → Action H (OrderView H)
  unfolding reject_as
  reject env admin_id order_id reason db =
      if not (valid_reason reason)
      then (err Error.invalid_refund_reason, db)
      else if is_zero admin_id || is_zero order_id
      then (err Error.order_not_found, db)
      else reject_as env admin_id order_id (trim_space reason) (resolve_role env.roles admin_id) db
