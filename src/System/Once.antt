-- ===== src/System/Once.antt =====
-- Approvals of an order after an approval of it.
use shop_mall.Common.Base.{ℕ, ◌≡◌, refl, false, some, arith}
use shop_mall.Common.Table.{find_by, find_by-update_by}
use shop_mall.Common.Text.{Text}
use shop_mall.Database.Rows.{is_zero, Order}
use shop_mall.Database.Store.{Db, Error, ok, err, commit}
use shop_mall.Orders.Repository.{OrderView, order_key, lock_for_update}
use shop_mall.Audit.{resolve_role}
use shop_mall.Orders.Refund.{mark_refunded, approve_refund, approve_as, approve}
use shop_mall.Orders.Fulfillment.{Env, record_conflict}
use shop_mall.System.{Runs}
use shop_mall.Orders.Refunds.{approve-Approval}
use shop_mall.Orders.Approval.{Approved}
use shop_mall.Orders.Refund.{approve, mark_refunded}
use shop_mall.Digest.{Digest}
use shop_mall.Orders.Refund.{approve_as, approve_refund}
use shop_mall.System.History.{IsRefunded}
use shop_mall.System.Final.{Runs-IsRefunded}

module _ {H : Type 0} (env : Env) (entry_id admin_id order_id : ℕ) where
  approve-given :
      (db db' : Db H) (view : OrderView H)
      → approve env entry_id admin_id order_id db ≡ (ok view, db')
      → is_zero order_id ≡ false
  unfolding approve
  approve-given db db' view done = ground arith

  -- What an approval that went well leaves behind.
  approve-IsRefunded :
      (db db' : Db H) (view : OrderView H)
      → approve env entry_id admin_id order_id db ≡ (ok view, db')
      → (o : Order H) × IsRefunded order_id o db'
  approve-IsRefunded db db' view done =
      let (o, u, n, found, _, _, _, _, _, _, orders, _, _, _) : Approved env entry_id admin_id
          order_id view db db' =
        rw done at (approve-Approval env entry_id admin_id order_id db) in
      let law =
        find_by-update_by order_key order_id order_id (mark_refunded admin_id env.now) db.orders
          (λ r. refl) in
      (mark_refunded admin_id env.now o, (rw orders (ground (arith, law, found)), refl))

  lock_for_update-hit :
      (id : ℕ) (o : Order H) (db : Db H)
      → find_by order_key id db.orders ≡ some o
      → lock_for_update id db ≡ (ok o, db)
  unfolding lock_for_update
  lock_for_update-hit id o db found = ground (arith, found)

  approve_refund-refused :
      (role : Text) (o : Order H) (db : Db H)
      → IsRefunded order_id o db
      → approve_refund env entry_id admin_id role order_id db ≡ (err Error.order_state_conflict, db)
  unfolding approve_refund
  approve_refund-refused role o db (found, final) =
      let locked = lock_for_update-hit order_id o db found in ground (arith, locked, final)

  approve-refused :
      (role : Text) (o : Order H) (db : Db H)
      → is_zero admin_id ≡ false
      → is_zero order_id ≡ false
      → resolve_role env.roles admin_id ≡ ok role
      → IsRefunded order_id o db
      → (approve env entry_id admin_id order_id db).0 ≡ err Error.order_state_conflict
  unfolding approve approve_as record_conflict
  approve-refused role o db given given' who done =
      let refused : commit (approve_refund env entry_id admin_id role order_id) db
          ≡ (err Error.order_state_conflict, db) =
        rw (approve_refund-refused role o db done, commit) refl in
      rw (given, given', who, refused) refl

module _ {H : Type 0} (digest : Digest H) where
  -- After an approval went well, every later approval of the same order, by any administrator
  -- whose role resolves, at any time and after whatever calls ran meanwhile, is refused as a
  -- conflict of states.
  pub refund-once :
      (env env' : Env) (entry_id entry_id' admin_id admin_id' order_id : ℕ) (role : Text)
      (db db' later : Db H) (view : OrderView H)
      → approve env entry_id admin_id order_id db ≡ (ok view, db')
      → Runs digest db' later
      → is_zero admin_id' ≡ false
      → resolve_role env'.roles admin_id' ≡ ok role
      → (approve env' entry_id' admin_id' order_id later).0 ≡ err Error.order_state_conflict
  refund-once env env' entry_id entry_id' admin_id admin_id' order_id role db db' later view done
        run given who =
      let (o, final) = approve-IsRefunded env entry_id admin_id order_id db db' view done in
      approve-refused env' entry_id' admin_id' order_id role o later given
        (approve-given env entry_id admin_id order_id db db' view done) who
        (Runs-IsRefunded digest order_id o run final)
