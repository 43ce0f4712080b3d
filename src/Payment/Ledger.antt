-- ===== src/Payment/Ledger.antt =====
-- internal/payment/repository.go and ledger.go: the points_ledger rows and their constraints.
use shop_mall.Common.Base.{
  ℕ, ◌+◌, leb, Bool, true, false, not, ◌&&◌, ◌||◌, Option, some, ◌∷◌, ◌==◌, if◌then◌else◌, is_some,
}
use shop_mall.Common.Int.{ℤ, pos, ltb_ℤ, leb_ℤ}
use shop_mall.Common.Table.{find, any}
use shop_mall.Common.Text.{Text, rune_count, is_blank}
use shop_mall.Database.Rows.{
  LedgerType, order_pay, order_refund, signup_bonus, admin_adjust, EventKey, order_pay_key,
  order_refund_key, signup_key, admin_adjust_key, event_key_eq, PointsLedger,
}
use shop_mall.Database.Store.{Error, ok, err, Action, or_raise}

abbrev pub is_type : LedgerType → LedgerType → Bool
is_type order_pay order_pay = true
is_type order_refund order_refund = true
is_type signup_bonus signup_bonus = true
is_type admin_adjust admin_adjust = true
is_type _ _ = false

-- Whether the printed event key fits its column, VARCHAR(96): the key of an adjustment is
-- "admin_adjust:", an identifier of 36 characters, ":" and the idempotency key, and the other keys
-- have at most 49 characters.
abbrev pub event_key_fits : EventKey → Bool
event_key_fits (admin_adjust_key id key) = leb (50 + rune_count key) 96
event_key_fits (order_pay_key id) = true
event_key_fits (order_refund_key id) = true
event_key_fits (signup_key id) = true

-- Equality of two nullable identifiers in an index: NULLs are never equal.
abbrev pub same_id : Option ℕ → Option ℕ → Bool
same_id (some a) (some b) = a == b
same_id _ _ = false

module _ {H : Type 0} where
  -- The unique indexes of points_ledger: the key, event_key, uq_signup_bonus_user, uq_order_pay
  -- and uq_order_refund.
  unfoldable pub collides : PointsLedger H → PointsLedger H → Bool
  collides new old =
      old.id == new.id
      || event_key_eq old.event_key new.event_key
      || (is_type old.kind signup_bonus
          && is_type new.kind signup_bonus
          && old.user_id == new.user_id)
      || (is_type old.kind order_pay
          && is_type new.kind order_pay
          && same_id old.order_id new.order_id)
      || (is_type old.kind order_refund
          && is_type new.kind order_refund
          && same_id old.order_id new.order_id)

  -- points_ledger_direction_valid
  unfoldable pub direction_valid : LedgerType → PointsLedger H → Bool
  direction_valid order_pay r =
      is_some r.order_id && ltb_ℤ r.delta (pos 0) && not (is_some r.created_by_admin_id)
  direction_valid order_refund r =
      is_some r.order_id && ltb_ℤ (pos 0) r.delta && is_some r.created_by_admin_id
  direction_valid signup_bonus r =
      not (is_some r.order_id) && ltb_ℤ (pos 0) r.delta && not (is_some r.created_by_admin_id)
  direction_valid admin_adjust r = not (is_some r.order_id) && is_some r.created_by_admin_id

  -- The other CHECK constraints: delta_nonzero, admin_remark_not_blank (the remarks are trimmed
  -- before they get here) and admin_request_hash_required.
  unfoldable pub checks_pass : PointsLedger H → Bool
  unfolding direction_valid
  checks_pass r =
      not (leb_ℤ r.delta (pos 0) && leb_ℤ (pos 0) r.delta)
      && direction_valid r.kind r
      && (not (is_type r.kind admin_adjust) || not (is_blank r.remark))
      && (if is_type r.kind admin_adjust
          then is_some r.request_hash
          else not (is_some r.request_hash))

  -- `Create`: INSERT INTO points_ledger.
  unfoldable pub create_entry : PointsLedger H → Action H (Unit {0})
  unfolding collides checks_pass
  create_entry r db =
      if not (event_key_fits r.event_key)
      then (err Error.value_too_long, db)
      else if not (checks_pass r)
      then (err Error.check_violation, db)
      else if any (collides r) db.ledger
      then (err Error.unique_violation, db)
      else (ok tt, record db { ledger = r ∷ db.ledger })

  -- `FindByEventKey`, and `LockByEventKey` with the row lock.
  unfoldable pub find_by_event_key : EventKey → Action H (PointsLedger H)
  find_by_event_key key db =
      or_raise (find (λ r. event_key_eq r.event_key key) db.ledger) Error.ledger_entry_not_found db

-- `LedgerEntry` and `ToLedgerEntry`: the projection that the usecases return.
pub record LedgerEntry : Type 0 where
  pub id : ℕ
  pub user_id : ℕ
  pub order_id : Option ℕ
  pub kind : LedgerType
  pub delta : ℤ
  pub balance_after : ℕ
  pub remark : Text
  pub created_at : ℕ

unfoldable pub to_ledger_entry : {H : Type 0} → PointsLedger H → LedgerEntry
to_ledger_entry row = record {
  id = row.id;
  user_id = row.user_id;
  order_id = row.order_id;
  kind = row.kind;
  delta = row.delta;
  balance_after = row.balance_after;
  remark = row.remark;
  created_at = row.created_at;
}
