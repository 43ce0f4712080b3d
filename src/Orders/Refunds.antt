-- ===== src/Orders/Refunds.antt =====
-- `Approve` as a whole call: its outcome, and the balances and units that it moves.
use shop_mall.Common.Base.{ℕ, ◌+◌, ◌≡◌, refl, ap, inl, inr, ◌||◌, arith, Bool-cases}
use Prim.Native.String.{String}
use shop_mall.Common.Text.{Text}
use shop_mall.Database.Rows.{is_zero}
use shop_mall.Database.Store.{Db, Error, Result, ok, err, commit, commit-eq-ok, commit-eq-err}
use shop_mall.Payment.Accounts.{IsBalanced, settle-Accounts}
use shop_mall.Orders.Repository.{OrderView}
use shop_mall.Audit.{resolve_role, record_failure}
use shop_mall.Catalog.Conservation.{stock_of, units}
use shop_mall.Orders.Fulfillment.{Env, record_conflict}
use shop_mall.Orders.Refund.{refund_row, mark_refunded, approve_refund, approve_as, approve}
use shop_mall.Orders.Effect.{Unchanged, Unchanged-log}
use shop_mall.Orders.Sold.{item_product, item_quantity, held, sold, sold-update_by}
use shop_mall.Orders.Approval.{Approved, approve_refund-eq-ok}

module _ {H : Type 0} (env : Env) (entry_id admin_id order_id : ℕ) where
  -- How an approval ended.
  abbrev pub Approval : Db H → Result (OrderView H) × Db H → Type 0
  Approval db (ok view, db') = Approved env entry_id admin_id order_id view db db'
  Approval db (err e, db') = Unchanged db db'

  record_conflict-Approval :
      (action : String) (role : Text) (db : Db H) (out : Result (OrderView H) × Db H)
      → Approval db out
      → Approval db (record_conflict action admin_id role order_id out)
  unfolding record_conflict record_failure
  record_conflict-Approval action role db (ok view, db') h = h
  record_conflict-Approval action role db (err Error.order_state_conflict, db') h =
      Unchanged-log db db' _ h
  record_conflict-Approval action role db (err e, db') h = h

  ended-Approval :
      (role : Text) (db : Db H) (out : Result (OrderView H) × Db H)
      → commit (approve_refund env entry_id admin_id role order_id) db ≡ out
      → Approval db out
  ended-Approval role db (ok view, db') e =
      approve_refund-eq-ok env entry_id admin_id role order_id db db' view
        (commit-eq-ok (approve_refund env entry_id admin_id role order_id) db view db' e)
  ended-Approval role db (err x, db') e =
      rw (commit-eq-err (approve_refund env entry_id admin_id role order_id) db x db' e) refl

  approve_as-Approval :
      (who : Result Text) (db : Db H)
      → Approval db (approve_as env entry_id admin_id order_id who db)
  unfolding approve_as
  approve_as-Approval (err e) db = refl
  approve_as-Approval (ok role) db =
      record_conflict-Approval "refund.approve" role db
        (commit (approve_refund env entry_id admin_id role order_id) db)
        (ended-Approval role db (commit (approve_refund env entry_id admin_id role order_id) db)
          refl)

  -- `Approve` fails and changes at most the audit log, or all of it happens at once: the
  -- order was under review and becomes refunded, its total goes back to the buyer's balance with
  -- one new ledger row that states the new balance, and its units go back to the stock.
  pub approve-Approval : (db : Db H) → Approval db (approve env entry_id admin_id order_id db)
  unfolding approve
  approve-Approval db = elim (Bool-cases (is_zero admin_id || is_zero order_id)) [
    | inl zero_id ↦ rw (zero_id, Approval) refl
    | inr given ↦ rw given (approve_as-Approval (resolve_role env.roles admin_id) db)
  ]

  Approval-IsBalanced :
      (db : Db H) (out : Result (OrderView H) × Db H)
      → Approval db out
      → IsBalanced db
      → IsBalanced out.1
  unfolding refund_row
  Approval-IsBalanced db (err e, db') left h =
      rw (ap (λ (x : Db H). x.users) left, ap (λ (x : Db H). x.ledger) left) h
  Approval-IsBalanced db (ok view, db') (o, u, n, _, _, there, sum, _, users, ledger, _, _, _, _)
        h =
      rw (users, ledger)
        (settle-Accounts db.users db.ledger (refund_row entry_id env.now admin_id o n) n u h there
          sum)

  -- An approval keeps each buyer's balance the sum of the buyer's ledger rows.
  pub approve-IsBalanced :
      (db : Db H) → IsBalanced db → IsBalanced (approve env entry_id admin_id order_id db).1
  approve-IsBalanced db h =
      Approval-IsBalanced db (approve env entry_id admin_id order_id db) (approve-Approval db) h

  Approval-conserves :
      (db : Db H) (out : Result (OrderView H) × Db H) (id : ℕ)
      → Approval db out
      → stock_of id out.1.products + sold id out.1.orders
        ≡ stock_of id db.products + sold id db.orders
  Approval-conserves db (err e, db') id left =
      rw (ap (λ (x : Db H). x.orders) left, ap (λ (x : Db H). x.products) left) refl
  Approval-conserves db (ok view, db') id
        (o, u, n, found, reviewed, _, _, _, _, _, orders, stocked, _, _) =
      let moved = sold-update_by id order_id (mark_refunded admin_id env.now) o db.orders found in
      let was : held id o ≡ units item_product item_quantity id o.items = rw reviewed refl in
      rw orders (omega (arith, moved, was, stocked id))

  -- An approval only moves units: the stock of a product and the units of it that the orders hold
  -- add up to the same number before and after, on every path.
  pub approve-conserves :
      (db : Db H) (id : ℕ)
      → (let (_, db') = approve env entry_id admin_id order_id db in
          stock_of id db'.products + sold id db'.orders)
        ≡ stock_of id db.products + sold id db.orders
  approve-conserves db id =
      Approval-conserves db (approve env entry_id admin_id order_id db) id (approve-Approval db)
