-- ===== src/System/Invariants.antt =====
-- Balances and goods over a run.
use shop_mall.Common.Base.{ap, ℕ, ◌≡◌, refl, ◌∙◌, Bool}
use shop_mall.Common.Text.{trim_space}
use shop_mall.Database.Rows.{OrderStatus, paid, shipped, refund_requested, status_eq, Order}
use shop_mall.Database.Store.{Db, Result, ok, err}
use shop_mall.Orders.Repository.{OrderView}
use shop_mall.Orders.Sold.{goods}
use shop_mall.Payment.Accounts.{IsBalanced}
use shop_mall.Orders.Effect.{Effect}
use shop_mall.Orders.Transitions.{ship-Effect, confirm-Effect, request-Effect, reject-Effect}
use shop_mall.Orders.Refunds.{approve-IsBalanced, approve-conserves}
use shop_mall.Orders.Refund.{
  request, reject, mark_requested, mark_rejected, reject_target, refundable,
}
use shop_mall.Orders.Fulfillment.{ship, confirm, mark_shipped, mark_completed}
use shop_mall.Points.Effect.{adjust_points-IsBalanced}
use shop_mall.Checkout.Ledger.{create_order-IsBalanced, create_order-conserves}
use shop_mall.System.{Runs, idle, order, adjust, ships, confirms, requests, approves, rejects}
use shop_mall.System.Goods.{
  ship-goods, confirm-goods, request-goods, reject-goods, adjust_points-goods,
}
use shop_mall.Digest.{Digest}

module _ {H : Type 0} where
  Effect-IsBalanced :
      (from : OrderStatus → Bool) (set_ : Order H → Order H → Order H) (order_id : ℕ) (db : Db H)
      (out : Result (OrderView H) × Db H)
      → Effect from set_ order_id db out
      → IsBalanced db
      → IsBalanced out.1
  Effect-IsBalanced from set_ order_id db (err e, db') left h =
      rw (ap (λ (x : Db H). x.users) left, ap (λ (x : Db H). x.ledger) left) h
  Effect-IsBalanced from set_ order_id db (ok view, db')
        (o, found, allowed, fits, seen, orders, rest) h =
      rw (ap (λ (x : Db H). x.users) rest, ap (λ (x : Db H). x.ledger) rest) h

module _ {H : Type 0} (digest : Digest H) where
  -- Whatever calls run, in whatever order, and whatever they commit in the middle of one another:
  -- if each buyer's balance was the sum of the buyer's ledger rows, it still is.
  pub Runs-IsBalanced : {db db' : Db H} → Runs digest db db' → IsBalanced db → IsBalanced db'
  Runs-IsBalanced idle h = h
  Runs-IsBalanced (order {db} {mid} env user_id key req race before inside) h =
      let settled = Runs-IsBalanced before h in
      create_order-IsBalanced digest env user_id key req race mid settled
        (Runs-IsBalanced inside settled)
  Runs-IsBalanced (adjust {db} {mid} env admin_id key req race before inside) h =
      let settled = Runs-IsBalanced before h in
      adjust_points-IsBalanced digest env admin_id key req race mid settled
        (Runs-IsBalanced inside settled)
  Runs-IsBalanced (ships {db} {mid} env admin_id order_id before) h =
      Effect-IsBalanced (λ s. status_eq s paid) (λ _. mark_shipped admin_id env.now) order_id mid
        (ship env admin_id order_id mid) (ship-Effect env admin_id order_id mid)
        (Runs-IsBalanced before h)
  Runs-IsBalanced (confirms {db} {mid} env user_id order_id before) h =
      Effect-IsBalanced (λ s. status_eq s shipped) (λ _. mark_completed env.now) order_id mid
        (confirm env user_id order_id mid) (confirm-Effect env user_id order_id mid)
        (Runs-IsBalanced before h)
  Runs-IsBalanced (requests {db} {mid} user_id order_id reason before) h =
      Effect-IsBalanced refundable (λ _. mark_requested (trim_space reason)) order_id mid
        (request user_id order_id reason mid) (request-Effect user_id order_id reason mid)
        (Runs-IsBalanced before h)
  Runs-IsBalanced (approves {db} {mid} env entry_id admin_id order_id before) h =
      approve-IsBalanced env entry_id admin_id order_id mid (Runs-IsBalanced before h)
  Runs-IsBalanced (rejects {db} {mid} env admin_id order_id reason before) h =
      Effect-IsBalanced (λ s. status_eq s refund_requested)
        (λ o. mark_rejected (reject_target o) (trim_space reason) admin_id env.now) order_id mid
        (reject env admin_id order_id reason mid) (reject-Effect env admin_id order_id reason mid)
        (Runs-IsBalanced before h)

  -- Whatever calls run, in whatever order, and whatever they commit in the middle of one another:
  -- the stock of a product and the units of it that the orders not refunded hold add up to the
  -- same number.
  pub Runs-conserves : {db db' : Db H} (id : ℕ) → Runs digest db db' → goods id db' ≡ goods id db
  Runs-conserves id idle = refl
  Runs-conserves id (order {db} {mid} env user_id key req race before inside) =
      create_order-conserves digest env user_id key req race mid id (Runs-conserves id inside)
      ∙ Runs-conserves id before
  Runs-conserves id (adjust {db} {mid} env admin_id key req race before inside) =
      adjust_points-goods digest env admin_id key req race mid id (Runs-conserves id inside)
      ∙ Runs-conserves id before
  Runs-conserves id (ships {db} {mid} env admin_id order_id before) =
      ship-goods env admin_id order_id id mid ∙ Runs-conserves id before
  Runs-conserves id (confirms {db} {mid} env user_id order_id before) =
      confirm-goods env user_id order_id id mid ∙ Runs-conserves id before
  Runs-conserves id (requests {db} {mid} user_id order_id reason before) =
      request-goods user_id order_id reason id mid ∙ Runs-conserves id before
  Runs-conserves id (approves {db} {mid} env entry_id admin_id order_id before) =
      approve-conserves env entry_id admin_id order_id mid id ∙ Runs-conserves id before
  Runs-conserves id (rejects {db} {mid} env admin_id order_id reason before) =
      reject-goods env admin_id order_id reason id mid ∙ Runs-conserves id before
