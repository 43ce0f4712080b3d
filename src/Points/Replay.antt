-- ===== src/Points/Replay.antt =====
-- The Idempotency-Key of an adjustment.
use shop_mall.Common.Base.{ℕ, ◌≡◌, refl, ◌∙◌, inl, inr, true, false, some, arith}
use shop_mall.Common.Text.{Text, text_eq_refl}
use shop_mall.Database.Rows.{is_zero, PointsLedger}
use shop_mall.Database.Store.{Db, Result, ok, err}
use shop_mall.Payment.Ledger.{LedgerEntry, to_ledger_entry}
use shop_mall.Digest.{Digest}
use shop_mall.Audit.{resolve_role}
use shop_mall.Points.{
  PointsAdjustment, Env, valid_idempotency_key, valid_adjustment, compute_adjust_hash, same_hash,
  adjustment_row, find_key, adjust_points,
}
use shop_mall.Points.Effect.{Settles, adjust_points-Outcome}

module _ {H : Type 0} (digest : Digest H) (env : Env) (admin_id : ℕ) (key : Text)
    (req : PointsAdjustment) where
  -- After a success there is a row to replay.
  abbrev IsRecorded : LedgerEntry → Db H → Type 0
  IsRecorded entry db =
      (row : PointsLedger H) × (find_key digest admin_id key db ≡ some row)
      × (same_hash digest row.request_hash (compute_adjust_hash digest req) ≡ true)
      × (entry ≡ to_ledger_entry row)

  Settles-IsRecorded :
      (db db' : Db H) (entry : LedgerEntry)
      → Settles digest env admin_id key req db (ok entry, db')
      → IsRecorded entry db'
  unfolding adjustment_row same_hash
  Settles-IsRecorded db db' entry (inr (row, found, hit, same, still)) =
      (row, rw still found, hit, same)
  Settles-IsRecorded db db' entry (inl (u, n, found, sum, fits, users, ledger, same, _, _)) = (
    adjustment_row digest env admin_id key req n,
    rw ledger (ground (arith, text_eq_refl key)),
    (digest.same_iff _ _).1 refl,
    same,
  )

  adjust_points-passed :
      (race : Db H → Db H) (db db' : Db H) (entry : LedgerEntry)
      → adjust_points digest env race admin_id key req db ≡ (ok entry, db')
      → (role : Text) × (valid_idempotency_key key ≡ true)
        × (valid_adjustment req ≡ true)
        × (is_zero admin_id ≡ false)
        × (resolve_role env.roles admin_id ≡ ok role)
  unfolding adjust_points
  adjust_points-passed race db db' entry h = go (resolve_role env.roles admin_id) refl
    where
      go :
          (who : Result Text)
          → resolve_role env.roles admin_id ≡ who
          → (role : Text) × (valid_idempotency_key key ≡ true)
            × (valid_adjustment req ≡ true)
            × (is_zero admin_id ≡ false)
            × (resolve_role env.roles admin_id ≡ ok role)
      go (ok role) e = (role, ground arith, ground arith, ground arith, e)
      go (err x) e = absurd (ground arith)

  adjust_points-IsRecorded :
      (race : Db H → Db H) (db db' : Db H) (entry : LedgerEntry)
      → adjust_points digest env race admin_id key req db ≡ (ok entry, db')
      → IsRecorded entry db'
  adjust_points-IsRecorded race db db' entry h =
      elim (rw h at (adjust_points-Outcome digest env admin_id key req race db)) [
        | inl s ↦ Settles-IsRecorded db db' entry s
        | inr s ↦ Settles-IsRecorded (race db) db' entry s
      ]

  -- A call that succeeded can be repeated with the same key and request on any later tables whose
  -- ledger still has the row of its event key: the repeat gives the same ledger entry and changes
  -- no table, whatever the clock and the new identifiers are, with the same role resolver.
  pub adjust_points-replay :
      (race race' : Db H → Db H) (env' : Env) (db db' later : Db H) (entry : LedgerEntry)
      → env'.roles ≡ env.roles
      → adjust_points digest env race admin_id key req db ≡ (ok entry, db')
      → find_key digest admin_id key later ≡ find_key digest admin_id key db'
      → adjust_points digest env' race' admin_id key req later ≡ (ok entry, later)
  unfolding adjust_points
  adjust_points-replay race race' env' db db' later entry roles h kept =
      let (role, good, fit, given, who) = adjust_points-passed race db db' entry h in
      let (row, found, hit, same) = adjust_points-IsRecorded race db db' entry h in
      let there : find_key digest admin_id key later ≡ some row = kept ∙ found in
      rw (good, fit, given, roles, who, there, hit, same) refl
