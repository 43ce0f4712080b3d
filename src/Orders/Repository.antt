-- ===== src/Orders/Repository.antt =====
-- internal/order/model.go and repository.go: the orders rows, their CHECK constraints from
-- migrations/0001_init.up.sql, and the queries that the usecases run inside their transactions.
use shop_mall.Common.Base.{
  ℕ, Bool, true, not, ◌&&◌, Option, none, some, List, map, ◌==◌, if◌then◌else◌, is_some,
}
use shop_mall.Common.Int.{ℤ, pos, ltb_ℤ}
use shop_mall.Common.Table.{find, find_by, update_by}
use shop_mall.Common.Text.{Text, text_eq}
use shop_mall.Database.Rows.{
  OrderStatus, paid, shipped, completed, refund_requested, refunded, OrderItem, Order,
}
use shop_mall.Database.Store.{Db, Error, ok, err, Action}

-- `OrderItem`, the projection of one order_items row.
pub record OrderItemView : Type 0 where
  pub product_id : ℕ
  pub product_name : Text
  pub product_image : Text
  pub price_snapshot : ℕ
  pub quantity : ℕ

-- `Order`, the projection of an orders row with its items.
pub record OrderView (H : Type 0) : Type 0 where
  pub id : ℕ
  pub order_no : Text
  pub user_id : ℕ
  pub request_hash : H
  pub status : OrderStatus
  pub total_points : ℤ
  pub receiver : Text
  pub phone : Text
  pub address : Text
  pub refund_reason : Text
  pub refund_reject_reason : Text
  pub refund_reviewed_by : Option ℕ
  pub refund_reviewed_at : Option ℕ
  pub paid_at : ℕ
  pub shipped_at : Option ℕ
  pub completed_at : Option ℕ
  pub refunded_at : Option ℕ
  pub items : List OrderItemView

unfoldable pub to_order_item : OrderItem → OrderItemView
to_order_item i = record {
  product_id = i.product_id;
  product_name = i.product_name;
  product_image = i.product_image;
  price_snapshot = i.price_snapshot;
  quantity = i.quantity;
}

-- `ToOrder`
unfoldable pub to_order : {H : Type 0} → Order H → OrderView H
unfolding to_order_item
to_order row = record {
  id = row.id;
  order_no = row.order_no;
  user_id = row.user_id;
  request_hash = row.request_hash;
  status = row.status;
  total_points = row.total_points;
  receiver = row.receiver;
  phone = row.phone;
  address = row.address;
  refund_reason = row.refund_reason;
  refund_reject_reason = row.refund_reject_reason;
  refund_reviewed_by = row.refund_reviewed_by;
  refund_reviewed_at = row.refund_reviewed_at;
  paid_at = row.paid_at;
  shipped_at = row.shipped_at;
  completed_at = row.completed_at;
  refunded_at = row.refunded_at;
  items = map to_order_item row.items;
}

-- orders_shipped_fields_consistent, by the status.
abbrev pub shipped_fields_ok : OrderStatus → Bool → Bool → Bool
shipped_fields_ok paid by at = not by && not at
shipped_fields_ok shipped by at = by && at
shipped_fields_ok completed by at = by && at
shipped_fields_ok refund_requested by at = if by then at else not at
shipped_fields_ok refunded by at = if by then at else not at

-- orders_completed_at_consistent
abbrev pub completed_at_ok : OrderStatus → Bool → Bool
completed_at_ok paid at = not at
completed_at_ok shipped at = not at
completed_at_ok completed at = at
completed_at_ok refund_requested at = true
completed_at_ok refunded at = true

-- orders_refunded_at_consistent
abbrev pub refunded_at_ok : OrderStatus → Bool → Bool
refunded_at_ok refunded at = at
refunded_at_ok _ at = not at

module _ {H : Type 0} where
  abbrev pub order_key : Order H → ℕ
  order_key o = o.id

  -- The CHECK constraints of a row.
  unfoldable pub row_ok : Order H → Bool
  row_ok o =
      ltb_ℤ (pos 0) o.total_points
      && shipped_fields_ok o.status (is_some o.shipped_by) (is_some o.shipped_at)
      && completed_at_ok o.status (is_some o.completed_at)
      && refunded_at_ok o.status (is_some o.refunded_at)

  -- `LockForUpdate`
  unfoldable pub lock_for_update : ℕ → Action H (Order H)
  lock_for_update order_id db = elim (find_by order_key order_id db.orders) [
    | none ↦ (err Error.order_not_found, db)
    | some o ↦ (ok o, db)
  ]

  -- `LockForUpdateByUser`: the order of another buyer is as good as missing.
  unfoldable pub lock_for_update_by_user : ℕ → ℕ → Action H (Order H)
  lock_for_update_by_user user_id order_id db = elim (find_by order_key order_id db.orders) [
    | none ↦ (err Error.order_not_found, db)
    | some o ↦ if o.user_id == user_id then (ok o, db) else (err Error.order_not_found, db)
  ]

  -- The order of a client token: `LockForReplay`, `FindForReplay` and `FindByToken`.
  unfoldable pub find_for_replay : ℕ → Text → Db H → Option (Order H)
  find_for_replay user_id token db =
      find (λ o. o.user_id == user_id && text_eq o.client_token token) db.orders

  -- `UpdateFields`: UPDATE orders SET … WHERE id = … AND the rest of the clause. No row is a
  -- conflict of states; a row that would break a CHECK constraint is refused by PostgreSQL.
  unfoldable pub update_fields : ℕ → (Order H → Bool) → (Order H → Order H) → Action H (Unit {0})
  unfolding row_ok
  update_fields id where_ set_ db = elim (find_by order_key id db.orders) [
    | none ↦ (err Error.order_state_conflict, db)
    | some o ↦
        if where_ o
        then (if row_ok (set_ o)
            then (ok tt, record db { orders = update_by order_key id set_ db.orders })
            else (err Error.check_violation, db))
        else (err Error.order_state_conflict, db)
  ]
