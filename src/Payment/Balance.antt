-- ===== src/Payment/Balance.antt =====
-- internal/payment/balance.go: `LockUser` and `AdjustBalance`.
use shop_mall.Common.Base.{ℕ, none, some, ltb, if◌then◌else◌}
use shop_mall.Common.Int.{ℤ, pos, negsuc, ◌+ℤ◌, leb_ℤ}
use shop_mall.Common.Int64.{max_int64, neg64}
use shop_mall.Common.Table.{find_by, update_by}
use shop_mall.Database.Rows.{User}
use shop_mall.Database.Store.{Error, ok, err, Action}

abbrev pub user_key : User → ℕ
user_key u = u.id

abbrev pub set_balance : ℕ → User → User
set_balance n u = record u { points_balance = n }

module _ {H : Type 0} where
  -- `LockUser`: SELECT … FROM users WHERE id = … FOR UPDATE.
  unfoldable pub lock_user : ℕ → Action H (Unit {0})
  lock_user user_id db = elim (find_by user_key user_id db.users) [
    | none ↦ (err Error.payment_user_not_found, db)
    | some u ↦ (ok tt, db)
  ]

  -- SET points_balance = n: PostgreSQL refuses a bigint out of range, and the CHECK constraint
  -- refuses a balance below zero.
  unfoldable pub store_balance : ℕ → ℤ → Action H ℕ
  store_balance user_id (pos n) db =
      if ltb max_int64 n
      then (err Error.out_of_range, db)
      else (ok n, record db { users = update_by user_key user_id (set_balance n) db.users })
  store_balance user_id (negsuc n) db = (err Error.check_violation, db)

  -- `AdjustBalance`. A missing row is no error where the delta is not negative; the scanned
  -- balance is then Go's zero value.
  unfoldable pub adjust_balance : ℕ → ℤ → Action H ℕ
  unfolding store_balance neg64
  adjust_balance user_id delta db =
      if leb_ℤ (pos 0) delta
      then elim (find_by user_key user_id db.users) [
        | none ↦ (ok 0, db)
        | some u ↦ store_balance user_id (pos u.points_balance +ℤ delta) db
      ]
      else elim (find_by user_key user_id db.users) [
        | none ↦ (err Error.insufficient_balance, db)
        | some u ↦
            if leb_ℤ (neg64 delta) (pos u.points_balance)
            then store_balance user_id (pos u.points_balance +ℤ delta) db
            else (err Error.insufficient_balance, db)
      ]
