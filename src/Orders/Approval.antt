-- ===== src/Orders/Approval.antt =====
-- The steps of `Approve`: the points go back to the buyer with a ledger
-- row of their own, the units go back to the stock, and the order holds them no longer.
use shop_mall.Common.Base.{
  ℕ, ◌+◌, ◌≡◌, sym, ap, ◌∙◌, inl, inr, false, some, List, [], ◌∷◌, arith, Bool-cases,
}
use shop_mall.Common.Int.{pos, ◌+ℤ◌}
use shop_mall.Common.Table.{any, find_by, update_by, key-find_by}
use shop_mall.Common.Text.{Text}
use shop_mall.Database.Rows.{refund_requested, status_eq, User, Product, OrderItem, Order}
use shop_mall.Database.Store.{Db, ok, pure, ◌>>◌, Result-cases}
use shop_mall.Payment.Balance.{user_key, set_balance, lock_user, adjust_balance}
use shop_mall.Payment.Ledger.{collides, create_entry}
use shop_mall.Payment.Accounts.{adjust_balance-eq-ok, lock_user-eq-ok, create_entry-eq-ok}
use shop_mall.Catalog.Stock.{lock_by_ids, increment_stock}
use shop_mall.Orders.Repository.{OrderView, to_order, order_key, lock_for_update, update_fields}
use shop_mall.Audit.{write}
use shop_mall.Catalog.Conservation.{
  stock_of, units, increment_stock-eq-ok, stock_of-add, lock_by_ids-eq-ok,
}
use shop_mall.Orders.Fulfillment.{Env}
use shop_mall.Orders.Refund.{
  product_ids_of, refund_row, restore_stock, mark_refunded, approve_audit, approve_refund,
}
use shop_mall.Orders.Effect.{update_fields-eq-ok, lock_for_update-eq-ok, find_again}
use shop_mall.Orders.Sold.{item_product, item_quantity}

module _ {H : Type 0} where
  -- The loop restores the units of every item, and touches nothing but the products.
  restore_stock-eq-ok :
      (items : List OrderItem) (db db' : Db H)
      → restore_stock items db ≡ (ok tt, db')
      → (db' ≡ record db { products = db'.products })
        × ((id : ℕ)
            → stock_of id db'.products
              ≡ stock_of id db.products + units item_product item_quantity id items)
  unfolding restore_stock
  restore_stock-eq-ok [] db db' h =
      let same : db ≡ db' = ground arith in (ground arith, λ id. rw (← same) (omega arith))
  restore_stock-eq-ok (item ∷ items) db db' h =
      elim (Result-cases (increment_stock item.product_id item.quantity db)) [
        | inr (e, d, failed) ↦ absurd (ground arith)
        | inl (n, d, done) ↦
            let (p, found, moved) =
              increment_stock-eq-ok item.product_id item.quantity n db d done in
            let (rest, kept) = restore_stock-eq-ok items d db' (ground arith) in
            (
              ground arith,
              λ id.
                  let step = stock_of-add id item.product_id item.quantity p db.products found in
                  let mid = ap (λ (x : Db H). stock_of id x.products) moved in
                  omega (arith, kept id, step, mid),
            )
      ]

  -- What an approval did: it found the order under review and its buyer.
  abbrev pub Approved : Env → ℕ → ℕ → ℕ → OrderView H → Db H → Db H → Type 0
  Approved env entry_id admin_id order_id view db db' =
      (o : Order H) × (u : User) × (n : ℕ) × (find_by order_key order_id db.orders ≡ some o)
      × (o.status ≡ refund_requested)
      × (find_by user_key o.user_id db.users ≡ some u)
      × (pos n ≡ pos u.points_balance +ℤ o.total_points)
      × (view ≡ to_order (mark_refunded admin_id env.now o))
      × (db'.users ≡ update_by user_key o.user_id (set_balance n) db.users)
      × (db'.ledger ≡ refund_row entry_id env.now admin_id o n ∷ db.ledger)
      × (db'.orders ≡ update_by order_key order_id (mark_refunded admin_id env.now) db.orders)
      × ((id : ℕ)
          → stock_of id db'.products
            ≡ stock_of id db.products + units item_product item_quantity id o.items)
      × (any (collides (refund_row entry_id env.now admin_id o n)) db.ledger ≡ false)
      × (db' ≡ record db {
        users = db'.users;
        products = db'.products;
        orders = db'.orders;
        ledger = db'.ledger;
        audit_logs = db'.audit_logs;
      })

  -- The steps of a transaction that ended well, put together.
  Approved-steps :
      (env : Env) (entry_id admin_id : ℕ) (role : Text) (order_id : ℕ)
      (db d1 d2 d3 d4 d5 d6 d7 db' : Db H) (view : OrderView H) (o : Order H) (n : ℕ)
      (rows : List Product)
      → lock_for_update order_id db ≡ (ok o, d1)
      → o.status ≡ refund_requested
      → lock_user o.user_id d1 ≡ (ok tt, d2)
      → lock_by_ids (product_ids_of o.items) d2 ≡ (ok rows, d3)
      → adjust_balance o.user_id o.total_points d3 ≡ (ok n, d4)
      → create_entry (refund_row entry_id env.now admin_id o n) d4 ≡ (ok tt, d5)
      → restore_stock o.items d5 ≡ (ok tt, d6)
      → update_fields o.id
          (λ x. status_eq x.status refund_requested)
          (mark_refunded admin_id env.now)
          d6
        ≡ (ok tt, d7)
      → (write (approve_audit admin_id role env.now o n)
            >> pure (to_order (mark_refunded admin_id env.now o)))
          d7
        ≡ (ok view, db')
      → Approved env entry_id admin_id order_id view db db'
  unfolding write
  Approved-steps env entry_id admin_id role order_id db d1 d2 d3 d4 d5 d6 d7 db' view o n rows
        locked reviewed held_user held_rows moved logged restored written told =
      let (found, same1) = lock_for_update-eq-ok order_id db o d1 locked in
      let (u, there, same2) = lock_user-eq-ok o.user_id d1 d2 held_user in
      let (_, _, same3) = lock_by_ids-eq-ok (product_ids_of o.items) rows d2 d3 held_rows in
      let there3 = ap (λ (x : Db H). find_by user_key o.user_id x.users) (same3 ∙ same2) ∙ there in
      let there0 = ap (λ (x : Db H). find_by user_key o.user_id x.users) (sym same1) ∙ there in
      let (sum, left4, fits) =
        adjust_balance-eq-ok o.user_id o.total_points d3 u n d4 there3 moved in
      let (left5, passed, fresh) =
        create_entry-eq-ok (refund_row entry_id env.now admin_id o n) d4 d5 logged in
      let (left6, stocked) = restore_stock-eq-ok o.items d5 d6 restored in
      let orders6 : d6.orders ≡ db.orders = ground arith in
      let found6 =
        ap (λ os. find_by order_key o.id os) orders6 ∙ find_again order_id o db.orders found in
      let (fits7, left7) =
        update_fields-eq-ok o.id (λ x. status_eq x.status refund_requested)
          (mark_refunded admin_id env.now) o d6 d7 found6 written in
      let key = key-find_by order_key order_id {r = o} db.orders found in
      let after : db'.products ≡ d6.products = ground arith in
      let before : d5.products ≡ db.products = ground arith in
      let ledger4 : d4.ledger ≡ db.ledger = ground arith in
      (
        o,
        u,
        n,
        found,
        reviewed,
        there0,
        sum,
        ground arith,
        ground arith,
        ground arith,
        ground arith,
        λ id. rw (after, ← before) (stocked id),
        rw (← ledger4) fresh,
        ground arith,
      )

  pub approve_refund-eq-ok :
      (env : Env) (entry_id admin_id : ℕ) (role : Text) (order_id : ℕ) (db db' : Db H)
      (view : OrderView H)
      → approve_refund env entry_id admin_id role order_id db ≡ (ok view, db')
      → Approved env entry_id admin_id order_id view db db'
  unfolding approve_refund write
  approve_refund-eq-ok env entry_id admin_id role order_id db db' view h =
      elim (Result-cases (lock_for_update order_id db)) [
        | inr (e, d1, failed) ↦ absurd (ground arith)
        | inl (o, d1, locked) ↦ elim (Bool-cases (status_eq o.status refund_requested)) [
          | inr refused ↦ absurd (ground arith)
          | inl allowed ↦ elim (Result-cases (lock_user o.user_id d1)) [
            | inr (e, d2, failed) ↦ absurd (ground arith)
            | inl (_, d2, held_user) ↦
                elim (Result-cases (lock_by_ids (product_ids_of o.items) d2)) [
                  | inr (e, d3, failed) ↦ absurd (ground arith)
                  | inl (rows, d3, held_rows) ↦
                      elim (Result-cases (adjust_balance o.user_id o.total_points d3)) [
                        | inr (e, d4, failed) ↦ absurd (ground arith)
                        | inl (n, d4, moved) ↦
                            elim (Result-cases
                              (create_entry (refund_row entry_id env.now admin_id o n) d4)) [
                                | inr (e, d5, failed) ↦ absurd (ground arith)
                                | inl (_, d5, logged) ↦
                                    elim (Result-cases (restore_stock o.items d5)) [
                                      | inr (e, d6, failed) ↦ absurd (ground arith)
                                      | inl (_, d6, restored) ↦
                                          elim (Result-cases (
                                            update_fields o.id
                                              (λ x. status_eq x.status refund_requested)
                                              (mark_refunded admin_id env.now) d6)) [
                                                | inr (e, d7, failed) ↦ absurd (ground arith)
                                                | inl (_, d7, written) ↦
                                                    Approved-steps env entry_id admin_id role
                                                      order_id db d1 d2 d3 d4 d5 d6 d7 db' view o n
                                                      rows locked (ground arith) held_user held_rows
                                                      moved logged restored written (ground arith)
                                              ]
                                    ]
                              ]
                      ]
                ]
          ]
        ]
      ]
