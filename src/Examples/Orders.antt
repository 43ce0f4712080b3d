-- ===== src/Examples/Orders.antt =====
-- Transitions of an order in the example shop.
use shop_mall.Common.Base.{ℕ, ◌≡◌, refl, none, some, [], ◌∷◌}
use shop_mall.Common.Int.{◌+ℤ◌}
use shop_mall.Common.Text.{trim_space}
use shop_mall.Database.Rows.{paid, shipped, refund_requested, refunded, status_eq, Order}
use shop_mall.Database.Store.{Db, Error, Result, ok, err}
use shop_mall.Payment.Balance.{lock_user, store_balance, adjust_balance}
use shop_mall.Payment.Ledger.{collides, direction_valid, checks_pass, create_entry}
use shop_mall.Catalog.Stock.{lock_by_ids, increment_stock}
use shop_mall.Orders.Repository.{OrderView, to_order, row_ok, lock_for_update, update_fields}
use shop_mall.Audit.{write, resolve_role}
use shop_mall.Orders.Effect.{Effect}
use shop_mall.Orders.Transitions.{ship-Effect, confirm-Effect, request-Effect, reject-Effect}
use shop_mall.Orders.Refunds.{Approval, approve-Approval}
use shop_mall.Orders.Refund.{
  request, approve, reject, mark_requested, mark_rejected, reject_target, refundable,
}
use shop_mall.Orders.Fulfillment.{ship, confirm, mark_shipped, mark_completed}
use shop_mall.Examples.Shop.{checksum, placed_order, shop, admin_env}
use shop_mall.System.Once.{refund-once}
use shop_mall.Audit.{default_role}
use shop_mall.Orders.Refund.{approve_as, approve_refund, product_ids_of, refund_row, restore_stock}
use shop_mall.Orders.Fulfillment.{record_conflict}
use shop_mall.System.{idle, approves}
use shop_mall.System.History.{IsRefunded}
use shop_mall.System.Final.{Runs-IsRefunded}

-- The shop with one order, before each call.
abbrev to_ship : Db ℕ
to_ship = shop (placed_order paid none ∷ [])

abbrev to_confirm : Db ℕ
to_confirm = shop (placed_order shipped (some 8) ∷ [])

abbrev to_review : Db ℕ
to_review = shop (placed_order refund_requested none ∷ [])

ship-Effect_example :
    Effect (λ s. status_eq s paid) (λ _. mark_shipped 8 60) 40 to_ship (ship admin_env 8 40 to_ship)
ship-Effect_example = ship-Effect admin_env 8 40 to_ship

confirm-Effect_example :
    Effect
      (λ s. status_eq s shipped)
      (λ _. mark_completed 60)
      40
      to_confirm
      (confirm admin_env 1 40 to_confirm)
confirm-Effect_example = confirm-Effect admin_env 1 40 to_confirm

request-Effect_example :
    Effect refundable
      (λ _. mark_requested (trim_space (114 ∷ [])))
      40
      to_ship
      (request 1 40 (114 ∷ []) to_ship)
request-Effect_example = request-Effect 1 40 (114 ∷ []) to_ship

reject-Effect_example :
    Effect
      (λ s. status_eq s refund_requested)
      (λ o. mark_rejected (reject_target o) (trim_space (110 ∷ [])) 8 60)
      40
      to_review
      (reject admin_env 8 40 (110 ∷ []) to_review)
reject-Effect_example = reject-Effect admin_env 8 40 (110 ∷ []) to_review

approve-Approval_example :
    Approval admin_env 23 8 40 to_review (approve admin_env 23 8 40 to_review)
approve-Approval_example = approve-Approval admin_env 23 8 40 to_review

-- A refunded order, and two more approvals of it.
abbrev done_order : Order ℕ
done_order = placed_order refunded none

abbrev approved_twice : Db ℕ
approved_twice =
    (approve admin_env 24 8 40 (approve admin_env 23 8 40 (shop (done_order ∷ []))).1).1

Runs-IsRefunded_example : IsRefunded 40 done_order approved_twice
Runs-IsRefunded_example =
    Runs-IsRefunded checksum 40 done_order
      (approves admin_env 24 8 40 (approves admin_env 23 8 40 idle)) (refl, refl)

-- The refund of the order under review, and what the administrator was told.
abbrev reviewed : Db ℕ
reviewed = (approve admin_env 23 8 40 to_review).1

abbrev view_or : OrderView ℕ → Result (OrderView ℕ) → OrderView ℕ
view_or v (ok w) = w
view_or v (err e) = v

abbrev outcome : OrderView ℕ
outcome = view_or (to_order done_order) (approve admin_env 23 8 40 to_review).0

reviewed_lem : approve admin_env 23 8 40 to_review ≡ (ok outcome, reviewed)
unfolding approve approve_as approve_refund record_conflict resolve_role lock_for_update lock_user
    lock_by_ids product_ids_of adjust_balance store_balance create_entry checks_pass direction_valid
    collides refund_row restore_stock increment_stock update_fields row_ok write ◌+ℤ◌
reviewed_lem = refl

resolved_lem : resolve_role admin_env.roles 8 ≡ ok default_role
unfolding resolve_role
resolved_lem = refl

refund-once_example : (approve admin_env 24 8 40 reviewed).0 ≡ err Error.order_state_conflict
refund-once_example =
    refund-once checksum admin_env admin_env 23 24 8 8 40 default_role to_review reviewed reviewed
      outcome reviewed_lem idle refl resolved_lem
