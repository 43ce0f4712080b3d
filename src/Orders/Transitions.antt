-- ===== src/Orders/Transitions.antt =====
-- `Ship`, `Confirm`, `Request` and `Reject` as whole calls: their guards, the transaction and what
-- follows it.
use shop_mall.Common.Base.{ℕ, refl, inl, inr, ◌||◌, Bool-cases}
use shop_mall.Common.Text.{Text, trim_space}
use shop_mall.Database.Rows.{paid, shipped, refund_requested, status_eq, is_zero}
use shop_mall.Database.Store.{Db, Result, ok, err, commit}
use shop_mall.Audit.{resolve_role}
use shop_mall.Orders.Fulfillment.{
  Env, mark_shipped, ship_order, ship_as, ship, mark_completed, confirm_order, confirm,
}
use shop_mall.Orders.Refund.{
  valid_reason, refundable, mark_requested, request_refund, request, reject_target, mark_rejected,
  reject_refund, reject_as, reject,
}
use shop_mall.Orders.Effect.{
  Effect, record_conflict-Effect, commit-Effect, ship_order-eq-ok, confirm_order-eq-ok,
  request_refund-eq-ok, reject_refund-eq-ok,
}

module _ {H : Type 0} where
  ship_as-Effect :
      (env : Env) (admin_id order_id : ℕ) (who : Result Text) (db : Db H)
      → Effect
          (λ s. status_eq s paid)
          (λ _. mark_shipped admin_id env.now)
          order_id
          db
          (ship_as env admin_id order_id who db)
  unfolding ship_as
  ship_as-Effect env admin_id order_id (err e) db = refl
  ship_as-Effect env admin_id order_id (ok role) db =
      record_conflict-Effect (λ s. status_eq s paid) (λ _. mark_shipped admin_id env.now) order_id
        "order.ship" admin_id role db (commit (ship_order env admin_id role order_id) db)
        (commit-Effect (λ s. status_eq s paid) (λ _. mark_shipped admin_id env.now) order_id
          (ship_order env admin_id role order_id) db
          (ship_order-eq-ok env admin_id role order_id db))

  -- `Ship` fails and changes at most the audit log, or it found the order paid and rewrote
  -- that one row as shipped by the administrator at the time of the call.
  pub ship-Effect :
      (env : Env) (admin_id order_id : ℕ) (db : Db H)
      → Effect
          (λ s. status_eq s paid)
          (λ _. mark_shipped admin_id env.now)
          order_id
          db
          (ship env admin_id order_id db)
  unfolding ship
  ship-Effect env admin_id order_id db = elim (Bool-cases (is_zero admin_id || is_zero order_id)) [
    | inl zero_id ↦ rw (zero_id, Effect) refl
    | inr given ↦
        rw given (ship_as-Effect env admin_id order_id (resolve_role env.roles admin_id) db)
  ]

  -- `Confirm` fails and changes at most the audit log, or it found the order shipped and rewrote
  -- that one row as completed.
  pub confirm-Effect :
      (env : Env) (user_id order_id : ℕ) (db : Db H)
      → Effect
          (λ s. status_eq s shipped)
          (λ _. mark_completed env.now)
          order_id
          db
          (confirm env user_id order_id db)
  unfolding confirm
  confirm-Effect env user_id order_id db = elim (Bool-cases (is_zero user_id || is_zero order_id)) [
    | inl zero_id ↦ rw (zero_id, Effect) refl
    | inr given ↦ rw given (
        commit-Effect (λ s. status_eq s shipped) (λ _. mark_completed env.now) order_id
          (confirm_order env user_id order_id) db (confirm_order-eq-ok env user_id order_id db))
  ]

  -- `Request` fails and changes at most the audit log, or it found the order paid or shipped and
  -- rewrote that one row as awaiting a review, with the trimmed reason and no earlier review.
  pub request-Effect :
      (user_id order_id : ℕ) (reason : Text) (db : Db H)
      → Effect refundable
          (λ _. mark_requested (trim_space reason))
          order_id
          db
          (request user_id order_id reason db)
  unfolding request
  request-Effect user_id order_id reason db = elim (Bool-cases (valid_reason reason)) [
    | inr bad ↦ rw (bad, Effect) refl
    | inl good ↦ elim (Bool-cases (is_zero user_id || is_zero order_id)) [
      | inl zero_id ↦ rw (good, zero_id, Effect) refl
      | inr given ↦
          rw (good, given)
            (commit-Effect refundable (λ _. mark_requested (trim_space reason)) order_id
              (request_refund user_id order_id (trim_space reason)) db
              (request_refund-eq-ok user_id order_id (trim_space reason) db))
    ]
  ]

  reject_as-Effect :
      (env : Env) (admin_id order_id : ℕ) (reason : Text) (who : Result Text) (db : Db H)
      → Effect
          (λ s. status_eq s refund_requested)
          (λ o. mark_rejected (reject_target o) reason admin_id env.now)
          order_id
          db
          (reject_as env admin_id order_id reason who db)
  unfolding reject_as
  reject_as-Effect env admin_id order_id reason (err e) db = refl
  reject_as-Effect env admin_id order_id reason (ok role) db =
      record_conflict-Effect (λ s. status_eq s refund_requested)
        (λ o. mark_rejected (reject_target o) reason admin_id env.now) order_id "refund.reject"
        admin_id role db (commit (reject_refund env admin_id role order_id reason) db)
        (commit-Effect (λ s. status_eq s refund_requested)
          (λ o. mark_rejected (reject_target o) reason admin_id env.now) order_id
          (reject_refund env admin_id role order_id reason) db
          (reject_refund-eq-ok env admin_id role order_id reason db))

  -- `Reject` fails and changes at most the audit log, or it found the order under review and
  -- rewrote that one row: shipped again if it had been shipped, else paid, with the review.
  pub reject-Effect :
      (env : Env) (admin_id order_id : ℕ) (reason : Text) (db : Db H)
      → Effect
          (λ s. status_eq s refund_requested)
          (λ o. mark_rejected (reject_target o) (trim_space reason) admin_id env.now)
          order_id
          db
          (reject env admin_id order_id reason db)
  unfolding reject
  reject-Effect env admin_id order_id reason db = elim (Bool-cases (valid_reason reason)) [
    | inr bad ↦ rw (bad, Effect) refl
    | inl good ↦ elim (Bool-cases (is_zero admin_id || is_zero order_id)) [
      | inl zero_id ↦ rw (good, zero_id, Effect) refl
      | inr given ↦
          rw (good, given)
            (reject_as-Effect env admin_id order_id (trim_space reason)
              (resolve_role env.roles admin_id) db)
    ]
  ]
