-- ===== src/System/History.antt =====
-- Refunded orders and ledger rows under each usecase.
use shop_mall.Common.Base.{
  ap, ℕ, ◌≡◌, refl, inl, inr, Bool, true, false, some, List, [], ◌∷◌, ◌++◌, arith, ◌==◌, Bool-cases,
  ==_iff,
}
use shop_mall.Common.Table.{any, find_by, update_by, find_by-update_by}
use shop_mall.Common.Text.{Text}
use shop_mall.Database.Rows.{OrderStatus, refunded, status_eq, Order, PointsLedger}
use shop_mall.Database.Store.{Db, Result, ok, err}
use shop_mall.Payment.Ledger.{LedgerEntry}
use shop_mall.Orders.Repository.{OrderView, order_key}
use shop_mall.Digest.{Digest}
use shop_mall.Checkout.Request.{OrderRequest}
use shop_mall.Checkout.Commit.{
  Env, translate_balance_error, build_address, set_order_id, repeats_product, items_ok,
  order_collides, insert_order, insert_items, lift, order_row, placed, pay_row, build_and_commit,
}
use shop_mall.Checkout.Outcome.{Settles}
use shop_mall.Orders.Effect.{Effect}
use shop_mall.Orders.Refunds.{Approval}
use shop_mall.Orders.Refund.{mark_refunded}
use shop_mall.Orders.Fulfillment.{ship, confirm, mark_shipped, mark_completed}
use shop_mall.Points.{adjust_points}
use shop_mall.Points.Effect.{adjust_points-Outcome, adjust_points-IsBalanced}
use shop_mall.Points.Effect
use shop_mall.Points.{PointsAdjustment}
use shop_mall.Points
use shop_mall.Orders.Fulfillment
use shop_mall.Checkout.Commit

module _ {H : Type 0} where
  -- The order of an identifier is there, and it is refunded.
  abbrev pub IsRefunded : ℕ → Order H → Db H → Type 0
  IsRefunded id o db = (find_by order_key id db.orders ≡ some o) × (o.status ≡ refunded)

  -- The ledger has only got rows in front.
  abbrev pub Extends : Db H → Db H → Type 0
  Extends db db' = (rows : List (PointsLedger H)) × (db'.ledger ≡ rows ++ db.ledger)

  update-IsRefunded :
      (id order_id : ℕ) (f : Order H → Order H) (o x : Order H) (orders : List (Order H))
      → ((y : Order H) → order_key (f y) ≡ order_key y)
      → find_by order_key order_id orders ≡ some x
      → status_eq x.status refunded ≡ false
      → find_by order_key id orders ≡ some o
      → o.status ≡ refunded
      → find_by order_key id (update_by order_key order_id f orders) ≡ some o
  update-IsRefunded id order_id f o x orders keeps there open_order found final =
      let law = find_by-update_by order_key id order_id f orders keeps in
      elim (Bool-cases (id == order_id)) [
        | inl same ↦
            let e : id ≡ order_id = (==_iff id order_id).0 same in
            let found' : find_by order_key order_id orders ≡ some o = rw e at found in
            let both : o ≡ x = ground (arith, found', there) in
            absurd (ground (arith, both, final, open_order))
        | inr other ↦ rw (law, other) found
      ]

  pub Effect-IsRefunded :
      (from : OrderStatus → Bool) (set_ : Order H → Order H → Order H) (order_id id : ℕ)
      (o : Order H) (db : Db H) (out : Result (OrderView H) × Db H)
      → ((x y : Order H) → order_key (set_ x y) ≡ order_key y)
      → ((s : OrderStatus) → from s ≡ true → status_eq s refunded ≡ false)
      → Effect from set_ order_id db out
      → IsRefunded id o db
      → IsRefunded id o out.1
  Effect-IsRefunded from set_ order_id id o db (err e, db') keeps open_orders left (found, final) =
      (rw (ap (λ (x : Db H). x.orders) left) found, final)
  Effect-IsRefunded from set_ order_id id o db (ok view, db') keeps open_orders
        (x, there, allowed, fits, seen, orders, _) (found, final) =
      (
        rw orders (
            update-IsRefunded id order_id (set_ x) o x db.orders (keeps x) there
              (open_orders x.status allowed) found final),
        final,
      )

  pub Effect-Extends :
      (from : OrderStatus → Bool) (set_ : Order H → Order H → Order H) (order_id : ℕ) (db : Db H)
      (out : Result (OrderView H) × Db H)
      → Effect from set_ order_id db out
      → Extends db out.1
  Effect-Extends from set_ order_id db (err e, db') left = ([], ap (λ (x : Db H). x.ledger) left)
  Effect-Extends from set_ order_id db (ok view, db')
        (x, there, allowed, fits, seen, orders, rest) =
      ([], ap (λ (y : Db H). y.ledger) rest)

  pub Approval-IsRefunded :
      (env : Fulfillment.Env) (entry_id admin_id order_id id : ℕ) (o : Order H) (db : Db H)
      (out : Result (OrderView H) × Db H)
      → Approval env entry_id admin_id order_id db out
      → IsRefunded id o db
      → IsRefunded id o out.1
  Approval-IsRefunded env entry_id admin_id order_id id o db (err e, db') left (found, final) =
      (rw (ap (λ (y : Db H). y.orders) left) found, final)
  Approval-IsRefunded env entry_id admin_id order_id id o db (ok view, db')
        (x, u, n, there, reviewed, _, _, _, _, _, orders, _, _, _) (found, final) =
      (
        rw orders (
            update-IsRefunded id order_id (mark_refunded admin_id env.now) o x db.orders (λ y. refl)
              there (rw reviewed refl) found final),
        final,
      )

  pub Approval-Extends :
      (env : Fulfillment.Env) (entry_id admin_id order_id : ℕ) (db : Db H)
      (out : Result (OrderView H) × Db H)
      → Approval env entry_id admin_id order_id db out
      → Extends db out.1
  Approval-Extends env entry_id admin_id order_id db (err e, db') left =
      ([], ap (λ (x : Db H). x.ledger) left)
  Approval-Extends env entry_id admin_id order_id db (ok view, db')
        (x, u, n, _, _, _, _, _, _, ledger, _, _, _, _) =
      (_ ∷ [], ledger)

  -- A row that collides with no order has an identifier of its own.
  other_id :
      (id : ℕ) (new o : Order H) (orders : List (Order H))
      → any (order_collides new) orders ≡ false
      → find_by order_key id orders ≡ some o
      → (id == order_key new) ≡ false
  unfolding order_collides
  other_id id new o [] alone found = absurd (ground arith)
  other_id id new o (x ∷ orders) alone found = ground (arith, other_id id new o orders)

module _ {H : Type 0} (digest : Digest H) (env : Commit.Env) (user_id : ℕ) (key : Text)
    (req : OrderRequest) where
  pub order-IsRefunded :
      (id : ℕ) (o : Order H) (db : Db H) (out : Result (OrderView H) × Db H)
      → Settles digest env user_id key req db out
      → IsRefunded id o db
      → IsRefunded id o out.1
  unfolding order_row
  order-IsRefunded id o db (err e, db') same h = rw same h
  order-IsRefunded id o db (ok view, db') (inr (existing, _, (addr, got, hit, view_lem, still))) h =
      rw still h
  order-IsRefunded id o db (ok view, db')
        (inl (
          addr,
          cart,
          got,
          (
            u, n, products, items, total, built, there, sum, view_lem, users, orders, ledger, _,
            taken, alone, _, _, _, _,
          ),
        ))
        (found, final) =
      let other =
        other_id id (order_row digest env user_id key req addr cart total) o db.orders alone
          found in
      (rw (orders, other) found, final)

  pub order-Extends :
      (db : Db H) (out : Result (OrderView H) × Db H)
      → Settles digest env user_id key req db out
      → Extends db out.1
  order-Extends db (err e, db') same = ([], rw same refl)
  order-Extends db (ok view, db') (inr (existing, _, (addr, got, hit, view_lem, still))) =
      ([], rw still refl)
  order-Extends db (ok view, db')
        (inl (
          addr,
          cart,
          got,
          (
            u, n, products, items, total, built, there, sum, view_lem, users, orders, ledger, _,
            taken, alone, _, _, _, _,
          ),
        )) =
      (pay_row digest env user_id key req total n ∷ [], ledger)

module _ {H : Type 0} (digest : Digest H) (env : Points.Env) (admin_id : ℕ) (key : Text)
    (req : PointsAdjustment) where
  pub adjust-IsRefunded :
      (id : ℕ) (o : Order H) (db : Db H) (out : Result LedgerEntry × Db H)
      → Effect.Settles digest env admin_id key req db out
      → IsRefunded id o db
      → IsRefunded id o out.1
  adjust-IsRefunded id o db (err e, db') (_, _, _, orders) (found, final) = (rw orders found, final)
  adjust-IsRefunded id o db (ok entry, db')
        (inl (u, n, there, sum, fits, users, ledger, same, products, orders)) (found, final) =
      (rw orders found, final)
  adjust-IsRefunded id o db (ok entry, db') (inr (row, there, hit, same, still)) h = rw still h

  pub adjust-Extends :
      (db : Db H) (out : Result LedgerEntry × Db H)
      → Effect.Settles digest env admin_id key req db out
      → Extends db out.1
  adjust-Extends db (err e, db') (_, ledger, _, _) = ([], ledger)
  adjust-Extends db (ok entry, db')
        (inl (u, n, there, sum, fits, users, ledger, same, products, orders)) =
      (_ ∷ [], ledger)
  adjust-Extends db (ok entry, db') (inr (row, there, hit, same, still)) = ([], rw still refl)
