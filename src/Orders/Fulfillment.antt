-- ===== src/Orders/Fulfillment.antt =====
-- internal/application/order/fulfillment.go: `Ship` and `Confirm`.
use shop_mall.Common.Base.{ℕ, true, ◌||◌, some, [], ◌∷◌, ◌==◌, if◌then◌else◌}
use shop_mall.Common.Int.{pos}
use Prim.Native.String.{String}
use shop_mall.Common.Text.{Text}
use shop_mall.Database.Rows.{
  paid, shipped, completed, status_eq, status_text, is_zero, Order, num, str, text, AuditLog,
}
use shop_mall.Database.Store.{Db, Error, Result, ok, err, Action, pure, guard, ◌>>=◌, ◌>>◌, commit}
use shop_mall.Orders.Repository.{
  OrderView, to_order, lock_for_update, lock_for_update_by_user, update_fields,
}
use shop_mall.Audit.{write, RoleResolver, resolve_role, error_text, record_failure}

-- What a transition takes from its surroundings: the clock and the role resolver.
pub record Env : Type 0 where
  pub now : ℕ
  pub roles : RoleResolver

module _ {H : Type 0} where
  -- The failure row that a usecase writes for an order that was in another state, after its
  -- transaction was rolled back.
  unfoldable pub record_conflict :
      {A : Type 0} → String → ℕ → Text → ℕ → Result A × Db H → Result A × Db H
  record_conflict action admin_id role order_id (err Error.order_state_conflict, db) = (
    err Error.order_state_conflict,
    record_failure admin_id role action "order" order_id
        (("reason", str (error_text Error.order_state_conflict)) ∷ []) db,
  )
  record_conflict action admin_id role order_id out = out

  -- The row that `Ship` writes.
  abbrev pub mark_shipped : ℕ → ℕ → Order H → Order H
  mark_shipped admin_id now o = record o {
    status = shipped;
    shipped_by = some admin_id;
    shipped_at = some now;
  }

  unfoldable pub ship_audit : ℕ → Text → ℕ → Order H → AuditLog
  ship_audit admin_id role now row = record {
    actor_admin_id = some admin_id;
    actor_role = role;
    action = "order.ship";
    target_type = "order";
    target_id = some row.id;
    result = "success";
    before_data = [];
    after_data =
        ("status", str (status_text shipped))
        ∷ ("order_no", text row.order_no)
        ∷ ("shipped_at", num (pos now))
        ∷ [];
  }

  -- The transaction of `Ship`.
  unfoldable pub ship_order : Env → ℕ → Text → ℕ → Action H (OrderView H)
  ship_order env admin_id role order_id = do
    row ← lock_for_update order_id
    guard (status_eq row.status paid) Error.order_state_conflict
    update_fields row.id (λ _. true) (mark_shipped admin_id env.now)
    write (ship_audit admin_id role env.now row)
    pure (to_order (mark_shipped admin_id env.now row))

  unfoldable pub ship_as : Env → ℕ → ℕ → Result Text → Action H (OrderView H)
  unfolding ship_order record_conflict
  ship_as env admin_id order_id (err e) db = (err e, db)
  ship_as env admin_id order_id (ok role) db =
      record_conflict "order.ship" admin_id role order_id
        (commit (ship_order env admin_id role order_id) db)

  -- `Ship`
  unfoldable pub ship : Env → ℕ → ℕ → Action H (OrderView H)
  unfolding ship_as
  ship env admin_id order_id db =
      if is_zero admin_id || is_zero order_id
      then (err Error.order_not_found, db)
      else ship_as env admin_id order_id (resolve_role env.roles admin_id) db

  -- The row that `Confirm` writes.
  abbrev pub mark_completed : ℕ → Order H → Order H
  mark_completed now o = record o { status = completed; completed_at = some now }

  -- The transaction of `Confirm`.
  unfoldable pub confirm_order : Env → ℕ → ℕ → Action H (OrderView H)
  confirm_order env user_id order_id = do
    row ← lock_for_update_by_user user_id order_id
    guard (status_eq row.status shipped) Error.order_state_conflict
    update_fields row.id (λ o. o.user_id == user_id) (mark_completed env.now)
    pure (to_order (mark_completed env.now row))

  -- `Confirm`
  unfoldable pub confirm : Env → ℕ → ℕ → Action H (OrderView H)
  unfolding confirm_order
  confirm env user_id order_id db =
      if is_zero user_id || is_zero order_id
      then (err Error.order_not_found, db)
      else commit (confirm_order env user_id order_id) db
