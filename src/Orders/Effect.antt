-- ===== src/Orders/Effect.antt =====
-- What each transition of an order does to the tables: the order that it finds, the row that it
-- writes, and what stays as it was.
use shop_mall.Common.Base.{
  ℕ, ◌≡◌, refl, ap, ◌∙◌, inl, inr, Bool, true, some, List, arith, ◌==◌, Bool-cases,
}
use shop_mall.Common.Table.{find_by, update_by, key-find_by}
use Prim.Native.String.{String}
use shop_mall.Common.Text.{Text}
use shop_mall.Database.Rows.{
  OrderStatus, paid, shipped, refund_requested, status_eq, Order, AuditLog,
}
use shop_mall.Database.Store.{
  Db, Error, Result, ok, err, Action, pure, guard, ◌>>=◌, ◌>>◌, commit, Result-cases, commit-eq-ok,
  commit-eq-err,
}
use shop_mall.Orders.Repository.{
  OrderView, to_order, order_key, row_ok, lock_for_update, lock_for_update_by_user, update_fields,
}
use shop_mall.Audit.{write, record_failure}
use shop_mall.Orders.Fulfillment.{
  Env, record_conflict, mark_shipped, ship_audit, ship_order, mark_completed, confirm_order,
}
use shop_mall.Orders.Refund.{
  refundable, mark_requested, request_refund, reject_target, mark_rejected, reject_audit,
  reject_refund,
}

module _ {H : Type 0} where
  -- The one row of `order_id` was in a state that `from` allows, was rewritten by `set_`, and
  -- meets the CHECK constraints; only the audit log may have changed besides.
  abbrev pub Transition :
      (OrderStatus → Bool) → (Order H → Order H → Order H) → ℕ → OrderView H → Db H → Db H → Type 0
  Transition from set_ order_id view db db' =
      (o : Order H) × (find_by order_key order_id db.orders ≡ some o)
      × (from o.status ≡ true)
      × (row_ok (set_ o o) ≡ true)
      × (view ≡ to_order (set_ o o))
      × (db'.orders ≡ update_by order_key order_id (set_ o) db.orders)
      × (db' ≡ record db { orders = db'.orders; audit_logs = db'.audit_logs })

  -- Nothing but the audit log has changed.
  abbrev pub Unchanged : Db H → Db H → Type 0
  Unchanged db db' = db' ≡ record db { audit_logs = db'.audit_logs }

  pub Unchanged-log :
      (db db' : Db H) (logs : List AuditLog)
      → Unchanged db db'
      → Unchanged db (record db' { audit_logs = logs })
  Unchanged-log db db' logs h = ground arith

  -- How a transition ended.
  abbrev pub Effect :
      (OrderStatus → Bool)
      → (Order H → Order H → Order H)
      → ℕ
      → Db H
      → Result (OrderView H) × Db H
      → Type 0
  Effect from set_ order_id db (ok view, db') = Transition from set_ order_id view db db'
  Effect from set_ order_id db (err e, db') = Unchanged db db'

  pub find_again :
      (order_id : ℕ) (o : Order H) (orders : List (Order H))
      → find_by order_key order_id orders ≡ some o
      → find_by order_key o.id orders ≡ some o
  find_again order_id o orders found =
      ap (λ k. find_by order_key k orders) (key-find_by order_key order_id {r = o} orders found)
      ∙ found

  left_frame :
      (db db' : Db H) (orders : List (Order H)) (logs : List AuditLog)
      → db' ≡ record db { orders = orders; audit_logs = logs }
      → db' ≡ record db { orders = db'.orders; audit_logs = db'.audit_logs }
  left_frame db db' orders logs left = ground arith

  Transition-of_update :
      (from : OrderStatus → Bool) (set_ : Order H → Order H → Order H) (order_id : ℕ) (o : Order H)
      (view : OrderView H) (db db' : Db H) (logs : List AuditLog)
      → find_by order_key order_id db.orders ≡ some o
      → from o.status ≡ true
      → row_ok (set_ o o) ≡ true
      → view ≡ to_order (set_ o o)
      → db'
        ≡ record db { orders = update_by order_key order_id (set_ o) db.orders; audit_logs = logs }
      → Transition from set_ order_id view db db'
  Transition-of_update from set_ order_id o view db db' logs found allowed fits seen left = (
    o,
    found,
    allowed,
    fits,
    seen,
    ap (λ (x : Db H). x.orders) left,
    left_frame db db' (update_by order_key order_id (set_ o) db.orders) logs left,
  )

  -- The shape of the four transactions: lock the row, test its status, write it, tell.
  abbrev move :
      Action H (Order H)
      → (OrderStatus → Bool)
      → (Order H → Bool)
      → (Order H → Order H → Order H)
      → (Order H → Action H (OrderView H))
      → Action H (OrderView H)
  move lock from where_ set_ tell = do
    row ← lock
    guard (from row.status) Error.order_state_conflict
    update_fields row.id where_ (set_ row)
    tell row

  pub lock_for_update-eq-ok :
      (order_id : ℕ) (db : Db H) (o : Order H) (d : Db H)
      → lock_for_update order_id db ≡ (ok o, d)
      → (find_by order_key order_id db.orders ≡ some o) × (d ≡ db)
  unfolding lock_for_update
  lock_for_update-eq-ok order_id db o d h = ground arith

  lock_for_update_by_user-eq-ok :
      (user_id order_id : ℕ) (db : Db H) (o : Order H) (d : Db H)
      → lock_for_update_by_user user_id order_id db ≡ (ok o, d)
      → (find_by order_key order_id db.orders ≡ some o) × (d ≡ db)
  unfolding lock_for_update_by_user
  lock_for_update_by_user-eq-ok user_id order_id db o d h = ground arith

  pub update_fields-eq-ok :
      (id : ℕ) (where_ : Order H → Bool) (set_ : Order H → Order H) (o : Order H) (db d : Db H)
      → find_by order_key id db.orders ≡ some o
      → update_fields id where_ set_ db ≡ (ok tt, d)
      → (row_ok (set_ o) ≡ true)
        × (d ≡ record db { orders = update_by order_key id set_ db.orders })
  unfolding update_fields
  update_fields-eq-ok id where_ set_ o db d found h = grind arith

  move-eq-ok :
      (lock : Action H (Order H)) (from : OrderStatus → Bool) (where_ : Order H → Bool)
      (set_ : Order H → Order H → Order H) (tell : Order H → Action H (OrderView H)) (order_id : ℕ)
      (db db' : Db H) (view : OrderView H)
      → ((o : Order H) (d : Db H)
          → lock db ≡ (ok o, d)
          → (find_by order_key order_id db.orders ≡ some o) × (d ≡ db))
      → ((o : Order H) (d : Db H) (v : OrderView H) (d' : Db H)
          → tell o d ≡ (ok v, d')
          → (v ≡ to_order (set_ o o))
            × (logs : List AuditLog) × (d' ≡ record d { audit_logs = logs }))
      → move lock from where_ set_ tell db ≡ (ok view, db')
      → Transition from set_ order_id view db db'
  move-eq-ok lock from where_ set_ tell order_id db db' view locks tells h =
      elim (Result-cases (lock db)) [
        | inr (e, d, failed) ↦ absurd (ground arith)
        | inl (o, d, locked) ↦ elim (Bool-cases (from o.status)) [
          | inr refused ↦ absurd (ground arith)
          | inl allowed ↦ elim (Result-cases (update_fields o.id where_ (set_ o) d)) [
            | inr (e, d1, failed) ↦ absurd (ground arith)
            | inl (_, d1, written) ↦
                let (found, same) = locks o d locked in
                let key = key-find_by order_key order_id {r = o} db.orders found in
                let there : find_by order_key o.id d.orders ≡ some o =
                  ap (λ d. find_by order_key o.id d.orders) same
                  ∙ find_again order_id o db.orders found in
                let (fits, left) = update_fields-eq-ok o.id where_ (set_ o) o d d1 there written in
                let (seen, logs, told) = tells o d1 view db' (ground arith) in
                Transition-of_update from set_ order_id o view db db' logs found allowed fits seen
                  (ground arith)
          ]
        ]
      ]

  pub ship_order-eq-ok :
      (env : Env) (admin_id : ℕ) (role : Text) (order_id : ℕ) (db db' : Db H) (view : OrderView H)
      → ship_order env admin_id role order_id db ≡ (ok view, db')
      → Transition (λ s. status_eq s paid) (λ _. mark_shipped admin_id env.now) order_id view db db'
  unfolding ship_order write
  ship_order-eq-ok env admin_id role order_id db db' view h =
      move-eq-ok (lock_for_update order_id) (λ s. status_eq s paid) (λ _. true)
        (λ _. mark_shipped admin_id env.now)
        (λ row.
          write (ship_audit admin_id role env.now row)
          >> pure (to_order (mark_shipped admin_id env.now row)))
        order_id db db' view (lock_for_update-eq-ok order_id db)
        (λ o d v d' e. (ground arith, d'.audit_logs, ground arith)) h

  pub confirm_order-eq-ok :
      (env : Env) (user_id order_id : ℕ) (db db' : Db H) (view : OrderView H)
      → confirm_order env user_id order_id db ≡ (ok view, db')
      → Transition (λ s. status_eq s shipped) (λ _. mark_completed env.now) order_id view db db'
  unfolding confirm_order write
  confirm_order-eq-ok env user_id order_id db db' view h =
      move-eq-ok (lock_for_update_by_user user_id order_id) (λ s. status_eq s shipped)
        (λ o. o.user_id == user_id) (λ _. mark_completed env.now)
        (λ row. pure (to_order (mark_completed env.now row))) order_id db db' view
        (lock_for_update_by_user-eq-ok user_id order_id db)
        (λ o d v d' e. (ground arith, d'.audit_logs, ground arith)) h

  pub request_refund-eq-ok :
      (user_id order_id : ℕ) (reason : Text) (db db' : Db H) (view : OrderView H)
      → request_refund user_id order_id reason db ≡ (ok view, db')
      → Transition refundable (λ _. mark_requested reason) order_id view db db'
  unfolding request_refund write
  request_refund-eq-ok user_id order_id reason db db' view h =
      move-eq-ok (lock_for_update_by_user user_id order_id) refundable (λ o. o.user_id == user_id)
        (λ _. mark_requested reason) (λ row. pure (to_order (mark_requested reason row))) order_id
        db db' view (lock_for_update_by_user-eq-ok user_id order_id db)
        (λ o d v d' e. (ground arith, d'.audit_logs, ground arith)) h

  pub reject_refund-eq-ok :
      (env : Env) (admin_id : ℕ) (role : Text) (order_id : ℕ) (reason : Text) (db db' : Db H)
      (view : OrderView H)
      → reject_refund env admin_id role order_id reason db ≡ (ok view, db')
      → Transition
          (λ s. status_eq s refund_requested)
          (λ o. mark_rejected (reject_target o) reason admin_id env.now)
          order_id
          view
          db
          db'
  unfolding reject_refund write
  reject_refund-eq-ok env admin_id role order_id reason db db' view h =
      move-eq-ok (lock_for_update order_id) (λ s. status_eq s refund_requested)
        (λ o. status_eq o.status refund_requested)
        (λ o. mark_rejected (reject_target o) reason admin_id env.now)
        (λ row.
          write (reject_audit admin_id role env.now reason row)
          >> pure (to_order (mark_rejected (reject_target row) reason admin_id env.now row)))
        order_id db db' view (lock_for_update-eq-ok order_id db)
        (λ o d v d' e. (ground arith, d'.audit_logs, ground arith)) h

  ended-Effect :
      (from : OrderStatus → Bool) (set_ : Order H → Order H → Order H) (order_id : ℕ)
      (body : Action H (OrderView H)) (db : Db H)
      → ((db' : Db H) (view : OrderView H)
          → body db ≡ (ok view, db')
          → Transition from set_ order_id view db db')
      → (out : Result (OrderView H) × Db H) → commit body db ≡ out
      → Effect from set_ order_id db out
  ended-Effect from set_ order_id body db h (ok view, db') e =
      h db' view (commit-eq-ok body db view db' e)
  ended-Effect from set_ order_id body db h (err x, db') e = rw (commit-eq-err body db x db' e) refl

  pub commit-Effect :
      (from : OrderStatus → Bool) (set_ : Order H → Order H → Order H) (order_id : ℕ)
      (body : Action H (OrderView H)) (db : Db H)
      → ((db' : Db H) (view : OrderView H)
          → body db ≡ (ok view, db')
          → Transition from set_ order_id view db db')
      → Effect from set_ order_id db (commit body db)
  commit-Effect from set_ order_id body db h =
      ended-Effect from set_ order_id body db h (commit body db) refl

  pub record_conflict-Effect :
      (from : OrderStatus → Bool) (set_ : Order H → Order H → Order H) (order_id : ℕ)
      (action : String) (admin_id : ℕ) (role : Text) (db : Db H) (out : Result (OrderView H) × Db H)
      → Effect from set_ order_id db out
      → Effect from set_ order_id db (record_conflict action admin_id role order_id out)
  unfolding record_conflict record_failure
  record_conflict-Effect from set_ order_id action admin_id role db (ok view, db') h = h
  record_conflict-Effect from set_ order_id action admin_id role db
        (err Error.order_state_conflict, db') h =
      Unchanged-log db db' _ h
  record_conflict-Effect from set_ order_id action admin_id role db (err e, db') h = h
