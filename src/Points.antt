-- ===== src/Points.antt =====
-- internal/application/points/adjust.go: the administrator's adjustment of a buyer's points. The
-- rows that other transactions commit between the lookup of the event key and the lock of the
-- buyer are a function on the tables, `race`; it is the identity where nobody interferes.
pub mod Effect
pub mod Replay
use shop_mall.Common.Base.{
  ℕ, zero, suc, ◌+◌, ◌-◌, ◌*◌, ◌/◌, ◌%◌, ◌≤◌, ◌<◌, ◌≡◌, refl, sym, ap, ◌∙◌, ◌≢◌, ◌↔◌, ◌⊎◌, inl, inr,
  Bool, true, false, not, ◌&&◌, ◌||◌, Option, none, some, List, [], ◌∷◌, ◌++◌, map, arith, ltb, leb,
  ◌==◌, if◌then◌else◌, Bool-cases, ==_iff, Option-cases, option, is_some,
}
use shop_mall.Common.Int.{
  ℤ, pos, negsuc, pos_part, neg_part, ◌+ℤ◌, ◌-ℤ◌, ◌*ℤ◌, ◌≤ℤ◌, ltb_ℤ, leb_ℤ, +ℤ_parts, -ℤ_parts,
  eq_of_parts, int_laws,
}
use shop_mall.Common.Int64.{
  max_int64, max_int32, modulus, wrap, add64, sub64, mul64, neg64, IsInt64, wrap_exact,
  wrap-IsInt64,
}
use shop_mall.Common.Table.{
  find, filter, count, delete_where, update_where, any, length, elem, find_by, update_by, delete_by,
  key-find_by, find_by-update_by,
}
use shop_mall.Common.Text.{Text, is_space, byte_len, rune_count, trim_space, is_blank, text_eq}
use shop_mall.Database.Rows.{
  OrderStatus, paid, shipped, completed, refund_requested, refunded, status_eq, status_text,
  ProductStatus, on_sale, off_sale, is_on_sale, is_zero, User, Product, main_image_key, Address,
  CartItem, OrderItem, Order, LedgerType, order_pay, order_refund, signup_bonus, admin_adjust,
  EventKey, order_pay_key, order_refund_key, admin_adjust_key, signup_key, event_key_eq,
  PointsLedger, Json, num, str, text, AuditLog,
}
use shop_mall.Database.Store.{
  Db, Error, Result, ok, err, Action, pure, raise, gets, modify, or_raise, guard, ◌>>=◌, ◌>>◌,
  commit,
}
use shop_mall.Payment.Balance.{user_key, set_balance, lock_user, store_balance, adjust_balance}
use shop_mall.Payment.Ledger.{
  is_type, same_id, collides, direction_valid, checks_pass, create_entry, find_by_event_key,
  LedgerEntry, to_ledger_entry,
}
use shop_mall.Digest.{Digest, AdjustPayload}
use shop_mall.Audit.{write, RoleResolver, resolve_role, error_text, map_err, record_failure}

pub record PointsAdjustment : Type 0 where
  pub user_id : ℕ
  pub delta : ℤ
  pub remark : Text

-- What the call takes from its surroundings: the clock, the identifier of the new ledger row and
-- the role resolver.
pub record Env : Type 0 where
  pub now : ℕ
  pub entry_id : ℕ
  pub roles : RoleResolver

-- `validateIdempotencyKey`: 1 to 64 bytes, not blank.
unfoldable pub valid_idempotency_key : Text → Bool
valid_idempotency_key key =
    not (ltb (byte_len key) 1 || ltb 64 (byte_len key) || is_blank (trim_space key))

-- `validateAdjustment`
unfoldable pub valid_adjustment : PointsAdjustment → Bool
valid_adjustment req =
    let remark = trim_space req.remark in
    not (is_zero req.user_id || (leb_ℤ req.delta (pos 0) && leb_ℤ (pos 0) req.delta))
    && not (is_blank remark || ltb 255 (rune_count remark))

-- `translatePaymentError`
abbrev pub translate_payment_error : Error → Error
translate_payment_error Error.payment_user_not_found = Error.user_not_found
translate_payment_error Error.insufficient_balance = Error.insufficient_points
translate_payment_error e = e

module _ {H : Type 0} (digest : Digest H) where
  -- `computeAdjustHash`
  unfoldable pub compute_adjust_hash : PointsAdjustment → H
  compute_adjust_hash req =
      digest.of_adjust
        (record { user_id = req.user_id; delta = req.delta; remark = trim_space req.remark })

  -- `sameHash`
  unfoldable pub same_hash : Option H → H → Bool
  same_hash none current = false
  same_hash (some stored) current = digest.same stored current

  -- The new ledger row.
  unfoldable pub adjustment_row : Env → ℕ → Text → PointsAdjustment → ℕ → PointsLedger H
  unfolding compute_adjust_hash
  adjustment_row env admin_id key req balance = record {
    id = env.entry_id;
    user_id = req.user_id;
    order_id = none;
    event_key = admin_adjust_key admin_id key;
    request_hash = some (compute_adjust_hash req);
    kind = admin_adjust;
    delta = req.delta;
    balance_after = balance;
    created_by_admin_id = some admin_id;
    remark = trim_space req.remark;
    created_at = env.now;
  }

  -- The success row of the audit log.
  unfoldable pub adjustment_audit : ℕ → Text → PointsAdjustment → ℕ → AuditLog
  adjustment_audit admin_id role req balance = record {
    actor_admin_id = some admin_id;
    actor_role = role;
    action = "points.adjust";
    target_type = "user";
    target_id = some req.user_id;
    result = "success";
    before_data = [];
    after_data =
        ("user_id", num (pos req.user_id))
        ∷ ("delta", num req.delta)
        ∷ ("balance_after", num (pos balance))
        ∷ ("remark", text (trim_space req.remark))
        ∷ [];
  }

  -- The transaction after the lookup of the event key found nothing.
  unfoldable pub apply_adjustment : Env → ℕ → Text → Text → PointsAdjustment → Action H LedgerEntry
  apply_adjustment env admin_id key role req = do
    map_err translate_payment_error (lock_user req.user_id)
    balance ← map_err translate_payment_error (adjust_balance req.user_id req.delta)
    create_entry (adjustment_row env admin_id key req balance)
    write (adjustment_audit admin_id role req balance)
    pure (to_ledger_entry (adjustment_row env admin_id key req balance))

  -- The failure row of the audit log.
  unfoldable pub reject_adjustment : ℕ → Text → PointsAdjustment → Error → Action H LedgerEntry
  reject_adjustment admin_id role req reason db = (
    err reason,
    record_failure admin_id role "points.adjust" "user" req.user_id
        (("user_id", num (pos req.user_id))
          ∷ ("delta", num req.delta)
          ∷ ("reason", str (error_text reason))
          ∷ [])
        db,
  )

  -- A request that meets a ledger row with its event key: replay or conflict.
  unfoldable pub resolve_existing :
      ℕ → Text → PointsAdjustment → PointsLedger H → Action H LedgerEntry
  unfolding same_hash reject_adjustment
  resolve_existing admin_id role req existing db =
      if same_hash existing.request_hash (compute_adjust_hash req)
      then (ok (to_ledger_entry existing), db)
      else reject_adjustment admin_id role req Error.idempotency_conflict db

  -- The re-read after a unique violation: a concurrent transaction committed the key first.
  unfoldable pub serve_winner :
      ℕ → Text → PointsAdjustment → Option (PointsLedger H) → Action H LedgerEntry
  unfolding resolve_existing
  serve_winner admin_id role req none db = (err Error.unique_violation, db)
  serve_winner admin_id role req (some existing) db = resolve_existing admin_id role req existing db

  -- The ledger row of the event key.
  abbrev pub find_key : ℕ → Text → Db H → Option (PointsLedger H)
  find_key admin_id key db =
      find (λ r. event_key_eq r.event_key (admin_adjust_key admin_id key)) db.ledger

  -- What `Execute` does with the error of a transaction that was rolled back.
  unfoldable pub handle_error : ℕ → Text → Text → PointsAdjustment → Error → Action H LedgerEntry
  unfolding serve_winner reject_adjustment
  handle_error admin_id key role req Error.insufficient_points db =
      reject_adjustment admin_id role req Error.insufficient_points db
  handle_error admin_id key role req Error.user_not_found db =
      reject_adjustment admin_id role req Error.user_not_found db
  handle_error admin_id key role req Error.idempotency_conflict db =
      reject_adjustment admin_id role req Error.idempotency_conflict db
  handle_error admin_id key role req Error.unique_violation db =
      serve_winner admin_id role req (find_key admin_id key db) db
  handle_error admin_id key role req e db = (err e, db)

  -- What follows the transaction.
  unfoldable pub finish_adjustment :
      ℕ → Text → Text → PointsAdjustment → Result LedgerEntry × Db H → Result LedgerEntry × Db H
  unfolding handle_error
  finish_adjustment admin_id key role req (ok entry, db) = (ok entry, db)
  finish_adjustment admin_id key role req (err e, db) = handle_error admin_id key role req e db

  -- The transaction's first step has found no row, or the row of an earlier request.
  unfoldable pub run_adjustment :
      Env
      → (Db H → Db H)
      → ℕ
      → Text
      → Text
      → PointsAdjustment
      → Option (PointsLedger H)
      → Action H LedgerEntry
  unfolding finish_adjustment resolve_existing apply_adjustment
  run_adjustment env race admin_id key role req (some existing) db =
      resolve_existing admin_id role req existing db
  run_adjustment env race admin_id key role req none db =
      finish_adjustment admin_id key role req
        (commit (apply_adjustment env admin_id key role req) (race db))

  unfoldable pub run_as :
      Env → (Db H → Db H) → ℕ → Text → PointsAdjustment → Result Text → Action H LedgerEntry
  unfolding run_adjustment
  run_as env race admin_id key req (err e) db = (err e, db)
  run_as env race admin_id key req (ok role) db =
      run_adjustment env race admin_id key role req (find_key admin_id key db) db

  -- `Execute`
  unfoldable pub adjust_points :
      Env → (Db H → Db H) → ℕ → Text → PointsAdjustment → Action H LedgerEntry
  unfolding run_as
  adjust_points env race admin_id key req db =
      if not (valid_idempotency_key key)
      then (err Error.invalid_idempotency_key, db)
      else if not (valid_adjustment req)
      then (err Error.invalid_adjustment, db)
      else if is_zero admin_id
      then (err Error.invalid_adjustment, db)
      else run_as env race admin_id key req (resolve_role env.roles admin_id) db
