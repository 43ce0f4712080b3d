-- ===== src/Buyers/Once.antt =====
-- The bonus of internal/user/service.go is paid once: a second login finds what the first has left.
-- And what becomes of points that are credited while the bonus is awarded.
use shop_mall.Common.Base.{
  ℕ, ◌≡◌, refl, sym, inl, inr, Bool, true, false, Option, some, List, [], ◌∷◌, arith, ◌==◌,
  Bool-cases, ltb, ◌∙◌,
}
use shop_mall.Common.Int.{pos}
use shop_mall.Common.Table.{find, any, find_by, update_by, find_by-update_by}
use shop_mall.Common.Text.{Text, rune_count, trim_space, is_blank, text_eq, text_eq_refl}
use shop_mall.Database.Rows.{User, PointsLedger}
use shop_mall.Database.Store.{Db, Error, Result, ok}
use shop_mall.Payment.Balance.{user_key, set_balance}
use shop_mall.Payment.Ledger.{collides, checks_pass}
use shop_mall.Buyers.Account.{
  Buyer, to_buyer, Env, insert_or_read, upsert_user, bonus_row, award_signup_bonus, is_due,
  award_if_due, read_user, upsert_buyer, upsert_by_openid, optional_string, new_user,
}
use shop_mall.Buyers.Keys.{
  has_openid, UniqueIds, UniqueIds-find, find-update_by, any-same_buyer, any-same_id,
  UniqueIds-update_by,
}
use shop_mall.Buyers.Bonus.{insert_or_read-eq-ok, upsert_buyer-eq-ok, award_if_due-eq-ok}

same_row : {u v : User} → some u ≡ some v → u ≡ v
same_row h = ground arith

module _ {H : Type 0} where
  -- A row of the bonus keeps a second one out.
  collides_again :
      (env env' : Env) (id id' bonus bonus' : ℕ) (ledger : List (PointsLedger H))
      → id' ≡ id
      → any (collides (bonus_row env' id' bonus')) (bonus_row env id bonus ∷ ledger) ≡ true
  unfolding collides bonus_row
  collides_again env env' id id' bonus bonus' ledger same = ground arith

  -- What kept the bonus out, other than its identifier, keeps another one out.
  collides_still :
      (env env' : Env) (id bonus : ℕ) (ledger : List (PointsLedger H))
      → any (λ r. r.id == env.entry_id) ledger ≡ false
      → any (collides (bonus_row env id bonus)) ledger ≡ true
      → any (collides (bonus_row env' id bonus)) ledger ≡ true
  unfolding collides bonus_row
  collides_still env env' id bonus [] fresh h = cc
  collides_still env env' id bonus (r ∷ rs) fresh h =
      ground (arith, collides_still env env' id bonus rs)

  -- A buyer whose bonus is paid, or not due, is served as the tables have it.
  award_if_due-idle :
      (env : Env) (u : User) (bonus : ℕ) (db : Db H)
      → (is_due u bonus ≡ true → any (collides (bonus_row env u.id bonus)) db.ledger ≡ true)
      → award_if_due env u (pos bonus) db ≡ (ok false, db)
  unfolding award_if_due award_signup_bonus checks_pass bonus_row
  award_if_due-idle env u bonus db h = elim (Bool-cases (is_due u bonus)) [
    | inl due ↦ let paid = h due in ground arith
    | inr idle ↦ rw idle refl
  ]

  -- The row of a known openid is read, where no column is too long.
  pub insert_or_read-known :
      (env : Env) (openid : Text) (nickname : Option Text) (db : Db H) (u : User)
      → ltb 64 (rune_count openid) ≡ false
      → ltb 64 (rune_count (optional_string nickname)) ≡ false
      → find (has_openid openid) db.users ≡ some u
      → insert_or_read env openid nickname db ≡ (ok u, db)
  unfolding insert_or_read
  insert_or_read-known env openid nickname db u short fits found =
      rw (short, fits, any-same_buyer env.user_id openid db.users u found, found) refl

  pub upsert_user-known :
      (env : Env) (openid : Text) (nickname : Option Text) (db : Db H) (out : Result User × Db H)
      → is_blank (trim_space openid) ≡ false
      → insert_or_read env (trim_space openid) nickname db ≡ out
      → upsert_user env openid nickname db ≡ out
  unfolding upsert_user
  upsert_user-known env openid nickname db out filled e = rw filled e

  pub read_user-known :
      (id : ℕ) (e : Error) (db : Db H) (u : User)
      → find_by user_key id db.users ≡ some u
      → read_user id e db ≡ (ok u, db)
  unfolding read_user
  read_user-known id e db u found = rw found refl

  -- A buyer who is in the tables, and is not owed the bonus, is served with no change.
  upsert_buyer-settled :
      (env : Env) (openid union_id : Text) (bonus : ℕ) (nickname : Option Text) (db : Db H)
      (u : User)
      → is_blank (trim_space openid) ≡ false
      → ltb 64 (rune_count (trim_space openid)) ≡ false
      → ltb 64 (rune_count (optional_string nickname)) ≡ false
      → UniqueIds db.users
      → find (has_openid (trim_space openid)) db.users ≡ some u
      → (is_due u bonus ≡ true → any (collides (bonus_row env u.id bonus)) db.ledger ≡ true)
      → upsert_buyer env (λ d. d) openid union_id (pos bonus) nickname db
        ≡ (ok (to_buyer union_id u), db)
  unfolding upsert_buyer
  upsert_buyer-settled env openid union_id bonus nickname db u filled short fits ids found paid =
      let key = trim_space openid in
      let first =
        upsert_user-known env openid nickname db (ok u, db) filled
          (insert_or_read-known env key nickname db u short fits found) in
      let second = award_if_due-idle env u bonus db paid in
      let third =
        read_user-known u.id Error.record_not_found db u
          (UniqueIds-find (has_openid key) db.users u ids found) in
      ground (arith, first, second, third)

  insert_or_read-leaves :
      (env : Env) (openid : Text) (nickname : Option Text) (db : Db H) (u : User) (mid : Db H)
      → UniqueIds db.users
      → insert_or_read env openid nickname db ≡ (ok u, mid)
      → (find (has_openid openid) mid.users ≡ some u)
        × (UniqueIds mid.users)
        × (mid.ledger ≡ db.ledger)
  unfolding new_user
  insert_or_read-leaves env openid nickname db u mid ids h =
      elim (insert_or_read-eq-ok env openid nickname db u mid h) [
        | inl (found, kept) ↦ rw kept (found, ids, refl)
        | inr (made, left, apart) ↦
            let e : u.openid ≡ openid = rw made refl in
            let named : u.id ≡ env.user_id = rw made refl in
            let same : text_eq u.openid openid ≡ true = rw e (text_eq_refl openid) in
            rw (left, same)
              (refl, (rw named (any-same_id env.user_id openid db.users apart), ids), refl)
      ]

  -- What the award leaves to a later login.
  award_if_due-leaves :
      (env env' : Env) (openid : Text) (bonus : ℕ) (mid : Db H) (u row : User) (b : Bool)
      (db' : Db H)
      → find (has_openid openid) mid.users ≡ some u
      → UniqueIds mid.users
      → any (λ r. r.id == env.entry_id) mid.ledger ≡ false
      → award_if_due env u (pos bonus) mid ≡ (ok b, db')
      → find_by user_key u.id db'.users ≡ some row
      → (find (has_openid openid) db'.users ≡ some row)
        × (UniqueIds db'.users)
        × (is_due row bonus ≡ true → any (collides (bonus_row env' row.id bonus)) db'.ledger ≡ true)
  award_if_due-leaves env env' openid bonus mid u row b db' there unique fresh award found =
      let e = UniqueIds-find (has_openid openid) mid.users u unique there in
      elim (award_if_due-eq-ok env u bonus mid b db' award) [
        | inl (kept, paid) ↦
            let same : u ≡ row = same_row (sym e ∙ rw kept at found) in
            rw (kept, sym same)
              (
                there,
                unique,
                λ due. (collides_still env env' u.id bonus mid.ledger fresh (paid due)),
              )
        | inr (empty, apart, left) ↦
            let law =
              find_by-update_by user_key u.id u.id (set_balance bonus) mid.users (λ r. refl) in
            let now : find_by user_key u.id (update_by user_key u.id (set_balance bonus) mid.users)
                ≡ some (set_balance bonus u) =
              ground (arith, law, e) in
            let same : set_balance bonus u ≡ row = same_row (sym now ∙ rw left at found) in
            let id_same : row.id ≡ u.id = rw (sym same) refl in
            let paid : any (collides (bonus_row env' row.id bonus))
                  (bonus_row env u.id bonus ∷ mid.ledger)
                ≡ true =
              collides_again env env' u.id row.id bonus bonus mid.ledger id_same in
            (
              rw (left, sym same)
                  (find-update_by openid (set_balance bonus) mid.users u (λ v. refl) unique there),
              rw left (UniqueIds-update_by u.id (set_balance bonus) mid.users (λ v. refl) unique),
              λ due. (rw left paid),
            )
      ]

  -- What a login without interference leaves: the buyer's row, found by the openid, is what the
  -- login gave, no two rows have one identifier, and the bonus is not due or its row is there.
  upsert_buyer-leaves :
      (env env' : Env) (openid union_id : Text) (bonus : ℕ) (nickname : Option Text) (db : Db H)
      (out : Buyer) (db' : Db H)
      → UniqueIds db.users
      → any (λ r. r.id == env.entry_id) db.ledger ≡ false
      → upsert_buyer env (λ d. d) openid union_id (pos bonus) nickname db ≡ (ok out, db')
      → (row : User) × (out ≡ to_buyer union_id row)
        × (find (has_openid (trim_space openid)) db'.users ≡ some row)
        × (UniqueIds db'.users)
        × (is_due row bonus ≡ true → any (collides (bonus_row env' row.id bonus)) db'.ledger ≡ true)
  upsert_buyer-leaves env env' openid union_id bonus nickname db out db' ids fresh h =
      let (u, mid, b, row, first, second, found, told) =
        upsert_buyer-eq-ok env (λ d. d) openid union_id bonus nickname db out db' h in
      let key = trim_space openid in
      let (there, unique, same) = insert_or_read-leaves env key nickname db u mid ids first in
      let unused : any (λ r. r.id == env.entry_id) mid.ledger ≡ false = rw same fresh in
      let (last, one, paid) =
        award_if_due-leaves env env' key bonus mid u row b db' there unique unused second found in
      (row, told, last, one, paid)

  insert_or_read-short :
      (env : Env) (openid : Text) (nickname : Option Text) (db : Db H) (u : User) (mid : Db H)
      → insert_or_read env openid nickname db ≡ (ok u, mid)
      → ltb 64 (rune_count openid) ≡ false
  unfolding insert_or_read
  insert_or_read-short env openid nickname db u mid h = ground arith

  upsert_by_openid-eq-ok :
      (env : Env) (openid union_id : Text) (bonus : ℕ) (nickname : Option Text) (db : Db H)
      (out : Buyer) (db' : Db H)
      → upsert_by_openid env (λ d. d) openid union_id (pos bonus) nickname db ≡ (ok out, db')
      → (is_blank (trim_space openid) ≡ false)
        × (upsert_buyer env (λ d. d) openid union_id (pos bonus) nickname db ≡ (ok out, db'))
  unfolding upsert_by_openid
  upsert_by_openid-eq-ok env openid union_id bonus nickname db out db' h = ground arith

  -- A login without interference that succeeded, with an unused identifier for the ledger row,
  -- leaves the bonus paid if it was due: the next login of the same openid and bonus, with whatever
  -- identifiers, time, union identifier and nickname of at most 64 characters, succeeds with the
  -- same row and changes no table.
  pub upsert_by_openid-again :
      (env env' : Env) (openid union_id union_id' : Text) (bonus : ℕ)
      (nickname nickname' : Option Text) (db : Db H) (out : Buyer) (db' : Db H)
      → UniqueIds db.users
      → any (λ r. r.id == env.entry_id) db.ledger ≡ false
      → upsert_by_openid env (λ d. d) openid union_id (pos bonus) nickname db ≡ (ok out, db')
      → ltb 64 (rune_count (optional_string nickname')) ≡ false
      → upsert_by_openid env' (λ d. d) openid union_id' (pos bonus) nickname' db'
        ≡ (ok (record out { union_id = union_id' }), db')
  unfolding upsert_by_openid to_buyer
  upsert_by_openid-again env env' openid union_id union_id' bonus nickname nickname' db out db' ids
        fresh h fits =
      let (filled, run) = upsert_by_openid-eq-ok env openid union_id bonus nickname db out db' h in
      let key = trim_space openid in
      let (u, mid, b, r, first, second, found, told) =
        upsert_buyer-eq-ok env (λ d. d) openid union_id bonus nickname db out db' run in
      let short = insert_or_read-short env key nickname db u mid first in
      let (row, same, there, unique, paid) =
        upsert_buyer-leaves env env' openid union_id bonus nickname db out db' ids fresh run in
      let again =
        upsert_buyer-settled env' openid union_id' bonus nickname' db' row filled short fits unique
          there paid in
      rw (filled, same) (ground (arith, again))
