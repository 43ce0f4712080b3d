-- ===== src/Payment/Accounts.antt =====
-- The ledger explains the balances: the invariant that relates users.points_balance with the
-- points_ledger rows, and what balance.go and repository.go do to the two sides of it.
use shop_mall.Common.Base.{
  ℕ, ◌≤◌, ◌≡◌, refl, inl, inr, true, false, Option, none, some, List, [], ◌∷◌, arith, ◌==◌,
  if◌then◌else◌, Bool-cases, ==_iff,
}
use shop_mall.Common.Int.{ℤ, pos, ◌+ℤ◌, eq_of_parts, int_laws}
use shop_mall.Common.Int64.{max_int64}
use shop_mall.Common.Table.{any, find_by, update_by, find_by-update_by}
use shop_mall.Database.Rows.{User, PointsLedger}
use shop_mall.Database.Store.{Db, ok}
use shop_mall.Payment.Balance.{user_key, set_balance, lock_user, adjust_balance}
use shop_mall.Payment.Ledger.{collides, checks_pass, create_entry}

-- The deltas of a buyer's ledger rows, added up.
abbrev pub delta_sum : {H : Type 0} → ℕ → List (PointsLedger H) → ℤ
delta_sum id [] = pos 0
delta_sum id (r ∷ rs) =
    let rest = delta_sum id rs in if id == r.user_id then r.delta +ℤ rest else rest

-- A balance is the sum of the deltas; a missing row has nothing to explain.
abbrev pub Explains : ℤ → Option User → Type 0
Explains sum none = Unit
Explains sum (some u) = pos u.points_balance ≡ sum

-- Each buyer's balance is the sum of the buyer's ledger rows.
abbrev pub Accounts : {H : Type 0} → List User → List (PointsLedger H) → Type 0
Accounts users ledger = (id : ℕ) → Explains (delta_sum id ledger) (find_by user_key id users)

abbrev pub IsBalanced : {H : Type 0} → Db H → Type 0
IsBalanced db = Accounts db.users db.ledger

+ℤ-swap : (a b c : ℤ) → a ≡ b +ℤ c → a ≡ c +ℤ b
+ℤ-swap a b c h = rw h (eq_of_parts _ _ (omega int_laws))

-- A balance that moves by the delta of a new row keeps the accounts.
pub settle-Accounts :
    {H : Type 0} (users : List User) (ledger : List (PointsLedger H)) (row : PointsLedger H) (n : ℕ)
    (u : User)
    → Accounts users ledger
    → find_by user_key row.user_id users ≡ some u
    → pos n ≡ pos u.points_balance +ℤ row.delta
    → Accounts (update_by user_key row.user_id (set_balance n) users) (row ∷ ledger)
settle-Accounts users ledger row n u acc found moved id =
    let law = find_by-update_by user_key id row.user_id (set_balance n) users (λ r. refl) in
    elim (Bool-cases (id == row.user_id)) [
      | inl same ↦
          let e : id ≡ row.user_id = (==_iff id row.user_id).0 same in
          let there : find_by user_key id users ≡ some u = rw e found in
          let old : pos u.points_balance ≡ delta_sum id ledger = rw there at (acc id) in
          rw (law, same, there)
            (ground (arith, moved, old, +ℤ-swap (pos n) (pos u.points_balance) row.delta moved))
      | inr other ↦ rw (law, other) (acc id)
    ]

pub adjust_balance-eq-ok :
    {H : Type 0} (user_id : ℕ) (delta : ℤ) (db : Db H) (u : User) (n : ℕ) (db' : Db H)
    → find_by user_key user_id db.users ≡ some u
    → adjust_balance user_id delta db ≡ (ok n, db')
    → (pos n ≡ pos u.points_balance +ℤ delta)
      × (db' ≡ record db { users = update_by user_key user_id (set_balance n) db.users })
      × (n ≤ max_int64)
unfolding adjust_balance
adjust_balance-eq-ok user_id delta db u n db' found done = ground arith

pub lock_user-eq-ok :
    {H : Type 0} (user_id : ℕ) (db db' : Db H)
    → lock_user user_id db ≡ (ok tt, db')
    → (u : User) × (find_by user_key user_id db.users ≡ some u) × (db' ≡ db)
unfolding lock_user
lock_user-eq-ok user_id db db' h = ground arith

pub create_entry-eq-ok :
    {H : Type 0} (r : PointsLedger H) (db db' : Db H)
    → create_entry r db ≡ (ok tt, db')
    → (db' ≡ record db { ledger = r ∷ db.ledger })
      × (checks_pass r ≡ true)
      × (any (collides r) db.ledger ≡ false)
unfolding create_entry
create_entry-eq-ok r db db' h = ground arith
