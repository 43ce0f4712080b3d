-- ===== src/Buyers/Bonus.antt =====
-- What the login of internal/user/service.go does to the accounts.
use shop_mall.Common.Base.{
  ℕ, ◌≡◌, ◌⊎◌, refl, ap, sym, inl, inr, Bool, true, false, Option, none, some, List, [], ◌∷◌, arith,
  ◌==◌, Bool-cases, Option-cases, ==_iff,
}
use shop_mall.Common.Int.{ℤ, pos, negsuc, ◌+ℤ◌, eq_of_parts, int_laws}
use shop_mall.Common.Table.{find, any, find_by, update_by}
use shop_mall.Common.Text.{Text, trim_space, is_blank}
use shop_mall.Database.Rows.{User, PointsLedger}
use shop_mall.Database.Store.{Db, Error, ok, err, commit_over-keeps, Result-cases}
use shop_mall.Payment.Balance.{user_key, set_balance}
use shop_mall.Payment.Ledger.{collides}
use shop_mall.Payment.Accounts.{delta_sum, IsBalanced, Accounts, settle-Accounts}
use shop_mall.Buyers.Account.{
  Buyer, to_buyer, Env, same_buyer, new_user, insert_or_read, upsert_user, bonus_row,
  award_signup_bonus, is_due, award_if_due, read_user, upsert_buyer, upsert_by_openid,
}
use shop_mall.Buyers.Keys.{has_openid, UniqueIds, has_openid-find, UniqueIds-find}

-- No ledger row is of the buyer.
abbrev pub Unbooked : {H : Type 0} → ℕ → List (PointsLedger H) → Type 0
Unbooked id ledger = any (λ r. id == r.user_id) ledger ≡ false

pub delta_sum-Unbooked :
    {H : Type 0} (id : ℕ) (ledger : List (PointsLedger H))
    → Unbooked id ledger
    → delta_sum id ledger ≡ pos 0
delta_sum-Unbooked id [] h = refl
delta_sum-Unbooked id (r ∷ rs) h = ground (arith, delta_sum-Unbooked id rs)

module _ {H : Type 0} where
  -- The row that `insert_or_read` gives was there, or is new.
  pub insert_or_read-eq-ok :
      (env : Env) (openid : Text) (nickname : Option Text) (db : Db H) (u : User) (db' : Db H)
      → insert_or_read env openid nickname db ≡ (ok u, db')
      → ((find (has_openid openid) db.users ≡ some u) × (db' ≡ db))
        ⊎ ((u ≡ new_user env.user_id openid nickname)
            × (db' ≡ record db { users = u ∷ db.users })
            × (any (same_buyer env.user_id openid) db.users ≡ false))
  unfolding insert_or_read
  insert_or_read-eq-ok env openid nickname db u db' h = ground arith

  pub upsert_user-eq-ok :
      (env : Env) (openid : Text) (nickname : Option Text) (db : Db H) (u : User) (db' : Db H)
      → upsert_user env openid nickname db ≡ (ok u, db')
      → insert_or_read env (trim_space openid) nickname db ≡ (ok u, db')
  unfolding upsert_user
  upsert_user-eq-ok env openid nickname db u db' h = ground arith

  -- Nothing is awarded, or the bonus is, to a buyer read without a balance and without a row.
  pub award_if_due-eq-ok :
      (env : Env) (u : User) (bonus : ℕ) (db : Db H) (b : Bool) (db' : Db H)
      → award_if_due env u (pos bonus) db ≡ (ok b, db')
      → ((db' ≡ db)
          × (is_due u bonus ≡ true → any (collides (bonus_row env u.id bonus)) db.ledger ≡ true))
        ⊎ ((u.points_balance ≡ 0)
            × (any (collides (bonus_row env u.id bonus)) db.ledger ≡ false)
            × (db' ≡ record db {
              users = update_by user_key u.id (set_balance bonus) db.users;
              ledger = bonus_row env u.id bonus ∷ db.ledger;
            }))
  unfolding award_if_due award_signup_bonus
  award_if_due-eq-ok env u bonus db b db' h = ground arith

  read_found :
      (id : ℕ) (e : Error) (db : Db H) (row : User)
      → find_by user_key id db.users ≡ some row
      → read_user id e db ≡ (ok row, db)
  unfolding read_user
  read_found id e db row h = rw h refl

  read_missing :
      (id : ℕ) (e : Error) (db : Db H)
      → find_by user_key id db.users ≡ none
      → read_user id e db ≡ (err e, db)
  unfolding read_user
  read_missing id e db h = rw h refl

  -- The steps of a login that ended well.
  pub upsert_buyer-eq-ok :
      (env : Env) (race : Db H → Db H) (openid union_id : Text) (bonus : ℕ) (nickname : Option Text)
      (db : Db H) (out : Buyer) (db' : Db H)
      → upsert_buyer env race openid union_id (pos bonus) nickname db ≡ (ok out, db')
      → (u : User) × (mid : Db H) × (b : Bool) × (row : User) × (insert_or_read env
            (trim_space openid)
            nickname
            db
          ≡ (ok u, mid))
        × (award_if_due env u (pos bonus) (race mid) ≡ (ok b, db'))
        × (find_by user_key u.id db'.users ≡ some row)
        × (out ≡ to_buyer union_id row)
  unfolding upsert_buyer
  upsert_buyer-eq-ok env race openid union_id bonus nickname db out db' h =
      elim (Result-cases (upsert_user env openid nickname db)) [
        | inl (u, mid, first) ↦ elim (Result-cases (award_if_due env u (pos bonus) (race mid))) [
          | inl (b, d, second) ↦ elim (Option-cases (find_by user_key u.id d.users)) [
            | inl missing ↦
                let gone = read_missing u.id Error.record_not_found d missing in
                absurd (ground arith)
            | inr (row, found) ↦
                let read = read_found u.id Error.record_not_found d row found in
                let kept : d ≡ db' = ground arith in
                let told : out ≡ to_buyer union_id row = ground arith in
                (
                  u,
                  mid,
                  b,
                  row,
                  upsert_user-eq-ok env openid nickname db u mid first,
                  rw (sym kept) second,
                  rw (sym kept) found,
                  told,
                )
          ]
          | inr (e, d, second) ↦ absurd (ground arith)
        ]
        | inr (e, mid, first) ↦ absurd (ground arith)
      ]

-- The buyer inserted without points has nothing to explain.
insert-Accounts :
    {H : Type 0} (users : List User) (ledger : List (PointsLedger H)) (u : User)
    → Accounts users ledger
    → Unbooked u.id ledger
    → u.points_balance ≡ 0
    → Accounts (u ∷ users) ledger
insert-Accounts users ledger u acc unbooked empty id = elim (Bool-cases (id == u.id)) [
  | inl same ↦
      let e : id ≡ u.id = (==_iff id u.id).0 same in
      rw (same, e, delta_sum-Unbooked u.id ledger unbooked) (ap pos empty)
  | inr other ↦ rw other (acc id)
]

module _ {H : Type 0} where
  -- The award keeps the accounts, if the row that was read is still there.
  award_if_due-IsBalanced :
      (env : Env) (u : User) (bonus : ℕ) (db : Db H) (b : Bool) (db' : Db H)
      → IsBalanced db
      → find_by user_key u.id db.users ≡ some u
      → award_if_due env u (pos bonus) db ≡ (ok b, db')
      → IsBalanced db'
  unfolding bonus_row
  award_if_due-IsBalanced env u bonus db b db' acc found h =
      elim (award_if_due-eq-ok env u bonus db b db' h) [
        | inl (kept, due) ↦ rw kept acc
        | inr (empty, apart, left) ↦
            let moved : pos bonus ≡ pos u.points_balance +ℤ pos bonus =
              rw empty (eq_of_parts _ _ (omega int_laws)) in
            rw left (
              settle-Accounts db.users db.ledger (bonus_row env u.id bonus) bonus u acc found moved)
      ]

  -- The row that the login has read or made is in the tables, which keep the accounts.
  insert_or_read-IsBalanced :
      (env : Env) (openid : Text) (nickname : Option Text) (db : Db H) (u : User) (mid : Db H)
      → IsBalanced db
      → UniqueIds db.users
      → Unbooked env.user_id db.ledger
      → insert_or_read env openid nickname db ≡ (ok u, mid)
      → (IsBalanced mid) × (u.openid ≡ openid) × (find_by user_key u.id mid.users ≡ some u)
  unfolding new_user
  insert_or_read-IsBalanced env openid nickname db u mid acc ids unbooked h =
      elim (insert_or_read-eq-ok env openid nickname db u mid h) [
        | inl (found, kept) ↦ rw kept (
          acc,
          has_openid-find openid db.users u found,
          UniqueIds-find (has_openid openid) db.users u ids found,
        )
        | inr (made, left, fresh) ↦
            let named : u.id ≡ env.user_id = rw made refl in
            rw left (
              insert-Accounts db.users db.ledger u acc (rw named unbooked) (rw made refl),
              rw made refl,
              ground arith,
            )
      ]

  upsert_buyer-IsBalanced :
      (env : Env) (race : Db H → Db H) (openid union_id : Text) (bonus : ℕ) (nickname : Option Text)
      (db : Db H)
      → IsBalanced db
      → UniqueIds db.users
      → Unbooked env.user_id db.ledger
      → ((mid : Db H) → IsBalanced mid → IsBalanced (race mid))
      → ((mid : Db H) (u : User)
          → u.openid ≡ trim_space openid
          → find_by user_key u.id mid.users ≡ some u
          → find_by user_key u.id (race mid).users ≡ some u)
      → (out : Buyer) (db' : Db H)
      → upsert_buyer env race openid union_id (pos bonus) nickname db ≡ (ok out, db')
      → IsBalanced db'
  upsert_buyer-IsBalanced env race openid union_id bonus nickname db acc ids unbooked fair apart out
        db' h =
      let (u, mid, b, row, first, second, found, told) =
        upsert_buyer-eq-ok env race openid union_id bonus nickname db out db' h in
      let (balanced, named, there) =
        insert_or_read-IsBalanced env (trim_space openid) nickname db u mid acc ids unbooked
          first in
      award_if_due-IsBalanced env u bonus (race mid) b db' (fair mid balanced)
        (apart mid u named there) second

  -- A login, whatever its outcome, keeps the accounts, with or without a bonus: if no two buyers
  -- have one identifier, no ledger row has the identifier made for a new buyer, and what other
  -- calls commit meanwhile keeps the accounts and leaves the row of this buyer as it was.
  pub upsert_by_openid-IsBalanced :
      (env : Env) (race : Db H → Db H) (openid union_id : Text) (bonus : ℤ) (nickname : Option Text)
      (db : Db H)
      → IsBalanced db
      → UniqueIds db.users
      → Unbooked env.user_id db.ledger
      → ((mid : Db H) → IsBalanced mid → IsBalanced (race mid))
      → ((mid : Db H) (u : User)
          → u.openid ≡ trim_space openid
          → find_by user_key u.id mid.users ≡ some u
          → find_by user_key u.id (race mid).users ≡ some u)
      → IsBalanced (upsert_by_openid env race openid union_id bonus nickname db).1
  unfolding upsert_by_openid
  upsert_by_openid-IsBalanced env race openid union_id (negsuc n) nickname db acc ids unbooked fair
        apart =
      ground arith
  upsert_by_openid-IsBalanced env race openid union_id (pos bonus) nickname db acc ids unbooked fair
        apart =
      elim (Bool-cases (is_blank (trim_space openid))) [
        | inl blank ↦ rw blank acc
        | inr filled ↦ rw filled (
            commit_over-keeps IsBalanced race
              (upsert_buyer env race openid union_id (pos bonus) nickname) db
              (upsert_buyer-IsBalanced env race openid union_id bonus nickname db acc ids unbooked
                fair apart)
              (fair db acc))
      ]
