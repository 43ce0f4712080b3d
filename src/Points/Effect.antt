-- ===== src/Points/Effect.antt =====
-- What an adjustment does to the balances and the ledger on every path.
use shop_mall.Common.Base.{
  ℕ, ◌≤◌, ◌≡◌, refl, sym, ◌⊎◌, inl, inr, true, Option, none, some, ◌∷◌, arith, Bool-cases,
}
use shop_mall.Common.Int.{pos, ◌+ℤ◌}
use shop_mall.Common.Int64.{max_int64}
use shop_mall.Common.Table.{find_by, update_by}
use shop_mall.Common.Text.{Text}
use shop_mall.Database.Rows.{is_zero, User, PointsLedger}
use shop_mall.Database.Store.{
  Db, Error, Result, ok, err, commit, Result-cases, commit-eq-ok, commit-eq-err,
}
use shop_mall.Payment.Balance.{user_key, set_balance, lock_user, adjust_balance}
use shop_mall.Payment.Ledger.{create_entry, LedgerEntry, to_ledger_entry}
use shop_mall.Payment.Accounts.{
  IsBalanced, settle-Accounts, adjust_balance-eq-ok, lock_user-eq-ok, create_entry-eq-ok,
}
use mathlib.Core.Path.{subst}
use shop_mall.Digest.{Digest}
use shop_mall.Audit.{write, resolve_role, record_failure}
use shop_mall.Points.{
  PointsAdjustment, Env, valid_idempotency_key, valid_adjustment, compute_adjust_hash, same_hash,
  adjustment_row, apply_adjustment, resolve_existing, serve_winner, find_key, handle_error,
  finish_adjustment, run_adjustment, run_as, adjust_points,
}

module _ {H : Type 0} (digest : Digest H) (env : Env) (admin_id : ℕ) (key : Text)
    (req : PointsAdjustment) where
  -- The adjustment was applied to `db`: one new ledger row, and the balance that it says.
  abbrev pub Applied : LedgerEntry → Db H → Db H → Type 0
  Applied entry db db' =
      (u : User) × (n : ℕ) × (find_by user_key req.user_id db.users ≡ some u)
      × (pos n ≡ pos u.points_balance +ℤ req.delta)
      × (n ≤ max_int64)
      × (db'.users ≡ update_by user_key req.user_id (set_balance n) db.users)
      × (db'.ledger ≡ adjustment_row digest env admin_id key req n ∷ db.ledger)
      × (entry ≡ to_ledger_entry (adjustment_row digest env admin_id key req n))
      × (db'.products ≡ db.products)
      × (db'.orders ≡ db.orders)

  -- The entry of an earlier row with the same event key was served again.
  abbrev pub Replayed : LedgerEntry → Db H → Db H → Type 0
  Replayed entry db db' =
      (row : PointsLedger H) × (find_key digest admin_id key db ≡ some row)
      × (same_hash digest row.request_hash (compute_adjust_hash digest req) ≡ true)
      × (entry ≡ to_ledger_entry row)
      × (db' ≡ db)

  -- How a call that began on `db` ended.
  abbrev pub Settles : Db H → Result LedgerEntry × Db H → Type 0
  Settles db (ok entry, db') = Applied entry db db' ⊎ Replayed entry db db'
  Settles db (err e, db') =
      (db'.users ≡ db.users)
      × (db'.ledger ≡ db.ledger)
      × (db'.products ≡ db.products)
      × (db'.orders ≡ db.orders)

  apply_adjustment-eq-ok :
      (role : Text) (db db' : Db H) (entry : LedgerEntry)
      → apply_adjustment digest env admin_id key role req db ≡ (ok entry, db')
      → Applied entry db db'
  unfolding apply_adjustment write
  apply_adjustment-eq-ok role db db' entry h = elim (Result-cases (lock_user req.user_id db)) [
    | inr (e, d1, failed) ↦ absurd (ground arith)
    | inl (_, d1, locked) ↦ elim (Result-cases (adjust_balance req.user_id req.delta d1)) [
      | inr (e, d2, failed) ↦ absurd (ground arith)
      | inl (n, d2, moved) ↦
          elim (Result-cases (create_entry (adjustment_row digest env admin_id key req n) d2)) [
            | inr (e, d3, failed) ↦ absurd (ground arith)
            | inl (_, d3, logged) ↦
                let (u, found, same) = lock_user-eq-ok req.user_id db d1 locked in
                let found1 : find_by user_key req.user_id d1.users ≡ some u = rw same found in
                let (sum, d2_lem, fits) =
                  adjust_balance-eq-ok req.user_id req.delta d1 u n d2 found1 moved in
                let (d3_lem, _, _) =
                  create_entry-eq-ok (adjustment_row digest env admin_id key req n) d2 d3 logged in
                (
                  u,
                  n,
                  found,
                  sum,
                  fits,
                  ground arith,
                  ground arith,
                  ground arith,
                  ground arith,
                  ground arith,
                )
          ]
    ]
  ]

  resolve_existing-Settles :
      (role : Text) (row : PointsLedger H) (db : Db H)
      → find_key digest admin_id key db ≡ some row
      → Settles db (resolve_existing digest admin_id role req row db)
  unfolding resolve_existing record_failure
  resolve_existing-Settles role row db found =
      elim (Bool-cases (same_hash digest row.request_hash (compute_adjust_hash digest req))) [
        | inl hit ↦ rw (hit, Settles) (inr (row, found, hit, refl, refl))
        | inr miss ↦ rw (miss, Settles) (refl, refl, refl, refl)
      ]

  serve_winner-Settles :
      (role : Text) (o : Option (PointsLedger H)) (db : Db H)
      → find_key digest admin_id key db ≡ o
      → Settles db (serve_winner digest admin_id role req o db)
  unfolding serve_winner
  serve_winner-Settles role none db found = (refl, refl, refl, refl)
  serve_winner-Settles role (some row) db found = resolve_existing-Settles role row db found

  handle_error-Settles :
      (role : Text) (e : Error) (db : Db H)
      → Settles db (handle_error digest admin_id key role req e db)
  unfolding handle_error record_failure
  handle_error-Settles role Error.unique_violation db =
      serve_winner-Settles role (find_key digest admin_id key db) db refl
  handle_error-Settles role e db = (refl, refl, refl, refl)

  finish_adjustment-Settles :
      (role : Text) (db : Db H) (out : Result LedgerEntry × Db H)
      → commit (apply_adjustment digest env admin_id key role req) db ≡ out
      → Settles db (finish_adjustment digest admin_id key role req out)
  unfolding finish_adjustment
  finish_adjustment-Settles role db (ok entry, db') done = inl (
      apply_adjustment-eq-ok role db db' entry
        (commit-eq-ok (apply_adjustment digest env admin_id key role req) db entry db' done))
  finish_adjustment-Settles role db (err e, db') failed =
      let same =
        commit-eq-err (apply_adjustment digest env admin_id key role req) db e db' failed in
      subst (λ d. Settles db (handle_error digest admin_id key role req e d)) (sym same)
        (handle_error-Settles role e db)

  -- How the whole call ended: on `db`, or on the tables that other transactions left of it.
  abbrev pub Outcome : (Db H → Db H) → Db H → Result LedgerEntry × Db H → Type 0
  Outcome race db out = Settles db out ⊎ Settles (race db) out

  run_adjustment-Outcome :
      (race : Db H → Db H) (role : Text) (o : Option (PointsLedger H)) (db : Db H)
      → find_key digest admin_id key db ≡ o
      → Outcome race db (run_adjustment digest env race admin_id key role req o db)
  unfolding run_adjustment
  run_adjustment-Outcome race role none db found = inr (
      finish_adjustment-Settles role (race db)
        (commit (apply_adjustment digest env admin_id key role req) (race db)) refl)
  run_adjustment-Outcome race role (some row) db found =
      inl (resolve_existing-Settles role row db found)

  run_as-Outcome :
      (race : Db H → Db H) (who : Result Text) (db : Db H)
      → Outcome race db (run_as digest env race admin_id key req who db)
  unfolding run_as
  run_as-Outcome race (err e) db = inl (refl, refl, refl, refl)
  run_as-Outcome race (ok role) db =
      run_adjustment-Outcome race role (find_key digest admin_id key db) db refl

  -- Every call of `Execute` ends in one of three ways, whatever other transactions commit while
  -- it runs: the adjustment is applied once, with one new ledger row and the balance that the row
  -- states; or the entry of an earlier call with the same key and request is served and nothing
  -- changes; or it fails, and no balance, no stock, no order and no ledger row changes.
  pub adjust_points-Outcome :
      (race : Db H → Db H) (db : Db H)
      → Outcome race db (adjust_points digest env race admin_id key req db)
  unfolding adjust_points
  adjust_points-Outcome race db = elim (Bool-cases (valid_idempotency_key key)) [
    | inr bad ↦ rw (bad, Settles) (inl (refl, refl, refl, refl))
    | inl good ↦ elim (Bool-cases (valid_adjustment req)) [
      | inr bad ↦ rw (good, bad, Settles) (inl (refl, refl, refl, refl))
      | inl fit ↦ elim (Bool-cases (is_zero admin_id)) [
        | inl zero_id ↦ rw (good, fit, zero_id, Settles) (inl (refl, refl, refl, refl))
        | inr given ↦
            rw (good, fit, given) (run_as-Outcome race (resolve_role env.roles admin_id) db)
      ]
    ]
  ]

  Settles-IsBalanced :
      (db : Db H) (out : Result LedgerEntry × Db H)
      → Settles db out
      → IsBalanced db
      → IsBalanced out.1
  unfolding adjustment_row
  Settles-IsBalanced db (err e, db') s h = rw (s.0, s.1) h
  Settles-IsBalanced db (ok entry, db') (inr (row, found, hit, same, still)) h = rw still h
  Settles-IsBalanced db (ok entry, db')
        (inl (u, n, found, sum, fits, users, ledger, entry_lem, _, _)) h =
      rw (users, ledger)
        (settle-Accounts db.users db.ledger (adjustment_row digest env admin_id key req n) n u h
          found sum)

  -- An adjustment keeps each buyer's balance the sum of the buyer's ledger rows, on every path, if
  -- what other transactions commit meanwhile keeps it.
  pub adjust_points-IsBalanced :
      (race : Db H → Db H) (db : Db H)
      → IsBalanced db
      → IsBalanced (race db)
      → IsBalanced (adjust_points digest env race admin_id key req db).1
  adjust_points-IsBalanced race db h k = elim (adjust_points-Outcome race db) [
    | inl s ↦ Settles-IsBalanced db (adjust_points digest env race admin_id key req db) s h
    | inr s ↦ Settles-IsBalanced (race db) (adjust_points digest env race admin_id key req db) s k
  ]
