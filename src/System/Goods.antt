-- ===== src/System/Goods.antt =====
-- The units of a product under the usecases that do not move them.
use shop_mall.Common.Base.{ap, ℕ, ◌≡◌, refl, ◌∙◌, inl, inr, Bool, true, false, arith}
use shop_mall.Common.Text.{Text, trim_space}
use shop_mall.Database.Rows.{
  OrderStatus, paid, shipped, refund_requested, refunded, status_eq, Order,
}
use shop_mall.Database.Store.{Db, Result, ok, err}
use shop_mall.Orders.Repository.{OrderView}
use shop_mall.Orders.Sold.{held, sold-update_by, goods}
use shop_mall.Orders.Effect.{Effect}
use shop_mall.Orders.Transitions.{ship-Effect, confirm-Effect, request-Effect, reject-Effect}
use shop_mall.Orders.Refund.{
  request, reject, mark_requested, mark_rejected, reject_target, refundable,
}
use shop_mall.Orders.Fulfillment.{ship, confirm, mark_shipped, mark_completed}
use shop_mall.Points.{adjust_points}
use shop_mall.Points.Effect.{adjust_points-Outcome, adjust_points-IsBalanced}
use shop_mall.Points.Effect
use shop_mall.Points.{PointsAdjustment}
use shop_mall.Points
use shop_mall.Orders.Fulfillment
use shop_mall.Digest.{Digest}
use shop_mall.Payment.Ledger.{LedgerEntry}

pub from_paid : (s : OrderStatus) → status_eq s paid ≡ true → status_eq s refunded ≡ false
from_paid s h = ground arith

pub from_shipped : (s : OrderStatus) → status_eq s shipped ≡ true → status_eq s refunded ≡ false
from_shipped s h = ground arith

pub from_refundable : (s : OrderStatus) → refundable s ≡ true → status_eq s refunded ≡ false
from_refundable s h = ground arith

pub from_requested :
    (s : OrderStatus) → status_eq s refund_requested ≡ true → status_eq s refunded ≡ false
from_requested s h = ground arith

module _ {H : Type 0} where
  -- An order keeps its units in a transition between states that are not refunded.
  held-eq :
      (id : ℕ) (o x : Order H)
      → status_eq o.status refunded ≡ false
      → status_eq x.status refunded ≡ false
      → x.items ≡ o.items
      → held id x ≡ held id o
  held-eq id o x h k same = rw (h, k, same) refl

  Effect-goods :
      (from : OrderStatus → Bool) (set_ : Order H → Order H → Order H) (order_id id : ℕ) (db : Db H)
      (out : Result (OrderView H) × Db H)
      → ((o : Order H) → from o.status ≡ true → held id (set_ o o) ≡ held id o)
      → Effect from set_ order_id db out
      → goods id out.1 ≡ goods id db
  Effect-goods from set_ order_id id db (err e, db') kept left =
      rw (ap (λ (x : Db H). x.orders) left, ap (λ (x : Db H). x.products) left) refl
  Effect-goods from set_ order_id id db (ok view, db') kept
        (o, found, allowed, fits, seen, orders, rest) =
      let products = ap (λ (x : Db H). x.products) rest in
      let moved = sold-update_by id order_id (set_ o) o db.orders found in
      rw (orders, products) (omega (arith, moved, kept o allowed))

  target_open : (o : Order H) → status_eq (reject_target o) refunded ≡ false
  target_open o = ground arith

  pub ship-goods :
      (env : Fulfillment.Env) (admin_id order_id id : ℕ) (db : Db H)
      → goods id (ship env admin_id order_id db).1 ≡ goods id db
  ship-goods env admin_id order_id id db =
      Effect-goods (λ s. status_eq s paid) (λ _. mark_shipped admin_id env.now) order_id id db
        (ship env admin_id order_id db)
        (λ o h. held-eq id o (mark_shipped admin_id env.now o) (from_paid o.status h) refl refl)
        (ship-Effect env admin_id order_id db)

  pub confirm-goods :
      (env : Fulfillment.Env) (user_id order_id id : ℕ) (db : Db H)
      → goods id (confirm env user_id order_id db).1 ≡ goods id db
  confirm-goods env user_id order_id id db =
      Effect-goods (λ s. status_eq s shipped) (λ _. mark_completed env.now) order_id id db
        (confirm env user_id order_id db)
        (λ o h. held-eq id o (mark_completed env.now o) (from_shipped o.status h) refl refl)
        (confirm-Effect env user_id order_id db)

  pub request-goods :
      (user_id order_id : ℕ) (reason : Text) (id : ℕ) (db : Db H)
      → goods id (request user_id order_id reason db).1 ≡ goods id db
  request-goods user_id order_id reason id db =
      Effect-goods refundable (λ _. mark_requested (trim_space reason)) order_id id db
        (request user_id order_id reason db)
        (λ o h.
          held-eq id o (mark_requested (trim_space reason) o) (from_refundable o.status h) refl
            refl)
        (request-Effect user_id order_id reason db)

  pub reject-goods :
      (env : Fulfillment.Env) (admin_id order_id : ℕ) (reason : Text) (id : ℕ) (db : Db H)
      → goods id (reject env admin_id order_id reason db).1 ≡ goods id db
  reject-goods env admin_id order_id reason id db =
      Effect-goods (λ s. status_eq s refund_requested)
        (λ o. mark_rejected (reject_target o) (trim_space reason) admin_id env.now) order_id id db
        (reject env admin_id order_id reason db)
        (λ o h.
          held-eq id o (mark_rejected (reject_target o) (trim_space reason) admin_id env.now o)
            (from_requested o.status h) (target_open o) refl)
        (reject-Effect env admin_id order_id reason db)

module _ {H : Type 0} (digest : Digest H) (env : Points.Env) (admin_id : ℕ) (key : Text)
    (req : PointsAdjustment) where
  Settles-goods :
      (id : ℕ) (db : Db H) (out : Result LedgerEntry × Db H)
      → Effect.Settles digest env admin_id key req db out
      → goods id out.1 ≡ goods id db
  Settles-goods id db (err e, db') (_, _, products, orders) = rw (products, orders) refl
  Settles-goods id db (ok entry, db')
        (inl (u, n, found, sum, fits, users, ledger, same, products, orders)) =
      rw (products, orders) refl
  Settles-goods id db (ok entry, db') (inr (row, found, hit, same, still)) = rw still refl

  pub adjust_points-goods :
      (race : Db H → Db H) (db : Db H) (id : ℕ)
      → goods id (race db) ≡ goods id db
      → goods id (adjust_points digest env race admin_id key req db).1 ≡ goods id db
  adjust_points-goods race db id kept =
      elim (adjust_points-Outcome digest env admin_id key req race db) [
        | inl s ↦ Settles-goods id db (adjust_points digest env race admin_id key req db) s
        | inr s ↦
            Settles-goods id (race db) (adjust_points digest env race admin_id key req db) s ∙ kept
      ]
