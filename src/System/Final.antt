-- ===== src/System/Final.antt =====
-- Refunded orders and the ledger over a run.
use shop_mall.Common.Base.{ℕ, ◌≡◌, refl, ap, ◌∙◌, inl, inr, List, [], ◌∷◌, ◌++◌}
use shop_mall.Common.Text.{trim_space}
use shop_mall.Database.Rows.{paid, shipped, refund_requested, status_eq, Order}
use shop_mall.Database.Store.{Db}
use shop_mall.Checkout.Outcome.{create_order-Outcome}
use shop_mall.System.{Runs, idle, order, adjust, ships, confirms, requests, approves, rejects}
use shop_mall.Orders.Transitions.{ship-Effect, confirm-Effect, request-Effect, reject-Effect}
use shop_mall.Orders.Refunds.{approve-Approval}
use shop_mall.Orders.Refund.{
  request, approve, reject, mark_requested, mark_rejected, reject_target, refundable,
}
use shop_mall.Orders.Fulfillment.{ship, confirm, mark_shipped, mark_completed}
use shop_mall.Points.{adjust_points}
use shop_mall.Points.Effect.{adjust_points-Outcome}
use shop_mall.Digest.{Digest}
use shop_mall.Checkout.Execute.{create_order}
use shop_mall.System.Goods.{from_paid, from_shipped, from_refundable, from_requested}
use shop_mall.System.History.{
  IsRefunded, Extends, Effect-IsRefunded, Effect-Extends, Approval-IsRefunded, Approval-Extends,
  order-IsRefunded, order-Extends, adjust-IsRefunded, adjust-Extends,
}

append_assoc : {A : Type 0} (xs ys zs : List A) → xs ++ (ys ++ zs) ≡ (xs ++ ys) ++ zs
append_assoc [] ys zs = refl
append_assoc (x ∷ xs) ys zs = ap (λ l. x ∷ l) (append_assoc xs ys zs)

module _ {H : Type 0} where
  Extends-trans : (db mid db' : Db H) → Extends db mid → Extends mid db' → Extends db db'
  Extends-trans db mid db' (old, first) (new, second) =
      (new ++ old, second ∙ ap (λ rows. new ++ rows) first ∙ append_assoc new old db.ledger)

module _ {H : Type 0} (digest : Digest H) where
  -- A refunded order stays as it is, whatever calls run: it is not shipped, confirmed, refunded
  -- again, reviewed again or replaced.
  pub Runs-IsRefunded :
      {db db' : Db H} (id : ℕ) (o : Order H)
      → Runs digest db db'
      → IsRefunded id o db
      → IsRefunded id o db'
  Runs-IsRefunded id o idle h = h
  Runs-IsRefunded id o (order {db} {mid} env user_id key req race before inside) h =
      let out = create_order digest env user_id key req race mid in
      let start = Runs-IsRefunded id o before h in
      elim (create_order-Outcome digest env user_id key req race mid) [
        | inl s ↦ order-IsRefunded digest env user_id key req id o mid out s start
        | inr s ↦
            order-IsRefunded digest env user_id key req id o (race mid) out s
              (Runs-IsRefunded id o inside start)
      ]
  Runs-IsRefunded id o (adjust {db} {mid} env admin_id key req race before inside) h =
      let out = adjust_points digest env race admin_id key req mid in
      let start = Runs-IsRefunded id o before h in
      elim (adjust_points-Outcome digest env admin_id key req race mid) [
        | inl s ↦ adjust-IsRefunded digest env admin_id key req id o mid out s start
        | inr s ↦
            adjust-IsRefunded digest env admin_id key req id o (race mid) out s
              (Runs-IsRefunded id o inside start)
      ]
  Runs-IsRefunded id o (ships {db} {mid} env admin_id order_id before) h =
      Effect-IsRefunded (λ s. status_eq s paid) (λ _. mark_shipped admin_id env.now) order_id id o
        mid (ship env admin_id order_id mid) (λ x y. refl) from_paid
        (ship-Effect env admin_id order_id mid) (Runs-IsRefunded id o before h)
  Runs-IsRefunded id o (confirms {db} {mid} env user_id order_id before) h =
      Effect-IsRefunded (λ s. status_eq s shipped) (λ _. mark_completed env.now) order_id id o mid
        (confirm env user_id order_id mid) (λ x y. refl) from_shipped
        (confirm-Effect env user_id order_id mid) (Runs-IsRefunded id o before h)
  Runs-IsRefunded id o (requests {db} {mid} user_id order_id reason before) h =
      Effect-IsRefunded refundable (λ _. mark_requested (trim_space reason)) order_id id o mid
        (request user_id order_id reason mid) (λ x y. refl) from_refundable
        (request-Effect user_id order_id reason mid) (Runs-IsRefunded id o before h)
  Runs-IsRefunded id o (approves {db} {mid} env entry_id admin_id order_id before) h =
      Approval-IsRefunded env entry_id admin_id order_id id o mid
        (approve env entry_id admin_id order_id mid)
        (approve-Approval env entry_id admin_id order_id mid) (Runs-IsRefunded id o before h)
  Runs-IsRefunded id o (rejects {db} {mid} env admin_id order_id reason before) h =
      Effect-IsRefunded (λ s. status_eq s refund_requested)
        (λ x. mark_rejected (reject_target x) (trim_space reason) admin_id env.now) order_id id o
        mid (reject env admin_id order_id reason mid) (λ x y. refl) from_requested
        (reject-Effect env admin_id order_id reason mid) (Runs-IsRefunded id o before h)

  -- The ledger is only ever extended: the rows that a run began with are the last rows of the
  -- ledger that it leads to, in the same order.
  pub Runs-Extends : {db db' : Db H} → Runs digest db db' → Extends db db'
  Runs-Extends idle = ([], refl)
  Runs-Extends (order {db} {mid} env user_id key req race before inside) =
      let out = create_order digest env user_id key req race mid in
      let start = Runs-Extends before in
      elim (create_order-Outcome digest env user_id key req race mid) [
        | inl s ↦
            Extends-trans db mid out.1 start (order-Extends digest env user_id key req mid out s)
        | inr s ↦
            Extends-trans db (race mid) out.1
              (Extends-trans db mid (race mid) start (Runs-Extends inside))
              (order-Extends digest env user_id key req (race mid) out s)
      ]
  Runs-Extends (adjust {db} {mid} env admin_id key req race before inside) =
      let out = adjust_points digest env race admin_id key req mid in
      let start = Runs-Extends before in
      elim (adjust_points-Outcome digest env admin_id key req race mid) [
        | inl s ↦
            Extends-trans db mid out.1 start (adjust-Extends digest env admin_id key req mid out s)
        | inr s ↦
            Extends-trans db (race mid) out.1
              (Extends-trans db mid (race mid) start (Runs-Extends inside))
              (adjust-Extends digest env admin_id key req (race mid) out s)
      ]
  Runs-Extends (ships {db} {mid} env admin_id order_id before) =
      Extends-trans db mid (ship env admin_id order_id mid).1 (Runs-Extends before) (
        Effect-Extends (λ s. status_eq s paid) (λ _. mark_shipped admin_id env.now) order_id mid
          (ship env admin_id order_id mid) (ship-Effect env admin_id order_id mid))
  Runs-Extends (confirms {db} {mid} env user_id order_id before) =
      Extends-trans db mid (confirm env user_id order_id mid).1 (Runs-Extends before) (
        Effect-Extends (λ s. status_eq s shipped) (λ _. mark_completed env.now) order_id mid
          (confirm env user_id order_id mid) (confirm-Effect env user_id order_id mid))
  Runs-Extends (requests {db} {mid} user_id order_id reason before) =
      Extends-trans db mid (request user_id order_id reason mid).1 (Runs-Extends before) (
        Effect-Extends refundable (λ _. mark_requested (trim_space reason)) order_id mid
          (request user_id order_id reason mid) (request-Effect user_id order_id reason mid))
  Runs-Extends (approves {db} {mid} env entry_id admin_id order_id before) =
      Extends-trans db mid (approve env entry_id admin_id order_id mid).1 (Runs-Extends before) (
        Approval-Extends env entry_id admin_id order_id mid
          (approve env entry_id admin_id order_id mid)
          (approve-Approval env entry_id admin_id order_id mid))
  Runs-Extends (rejects {db} {mid} env admin_id order_id reason before) =
      Extends-trans db mid (reject env admin_id order_id reason mid).1 (Runs-Extends before) (
        Effect-Extends (λ s. status_eq s refund_requested)
          (λ x. mark_rejected (reject_target x) (trim_space reason) admin_id env.now) order_id mid
          (reject env admin_id order_id reason mid)
          (reject-Effect env admin_id order_id reason mid))
