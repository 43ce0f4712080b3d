-- ===== src/Buyers/Account.antt =====
-- internal/user/service.go: the service of the buyers' rows. What other calls commit between the
-- read of the buyer's row and the award of the bonus is a function on the tables, `race`; it is
-- the identity where nobody interferes. A time of a row is left out.
use shop_mall.Common.Base.{
  ℕ, Bool, true, false, not, ◌&&◌, ◌||◌, ◌==◌, Option, none, some, [], ◌∷◌, ltb, if◌then◌else◌,
  is_some, option,
}
use shop_mall.Common.Int.{ℤ, pos, negsuc}
use shop_mall.Common.Table.{find, any, find_by, update_by}
use shop_mall.Common.Text.{Text, rune_count, trim_space, is_blank, text_eq}
use shop_mall.Database.Rows.{is_zero, User, signup_bonus, signup_key, PointsLedger}
use shop_mall.Database.Store.{
  Db, Error, ok, err, Action, or_raise, modify, raise, pure, ◌>>=◌, ◌>>◌, commit_over,
}
use shop_mall.Payment.Balance.{user_key, set_balance}
use shop_mall.Payment.Ledger.{collides, checks_pass}

-- `User`, the projection.
pub record Buyer : Type 0 where
  pub id : ℕ
  pub openid : Text
  pub union_id : Text
  pub nickname : Text
  pub avatar_url : Text
  pub points_balance : ℕ

-- `Subject`, before it is printed: "" or "buyer:" with the identifier.
pub data Subject : Type 0 where
  no_subject : Subject
  buyer_subject : ℕ → Subject

unfoldable pub subject : Buyer → Subject
subject u = if is_zero u.id then no_subject else buyer_subject u.id

-- `toUserProjection`, with the union identifier of the login.
unfoldable pub to_buyer : Text → User → Buyer
to_buyer union_id row = record {
  id = row.id;
  openid = row.openid;
  union_id = union_id;
  nickname = row.nickname;
  avatar_url = row.avatar_url;
  points_balance = row.points_balance;
}

-- `optionalString`
unfoldable pub optional_string : Option Text → Text
optional_string none = []
optional_string (some s) = s

-- The identifiers made for the new rows, and the clock.
pub record Env : Type 0 where
  pub user_id : ℕ
  pub entry_id : ℕ
  pub now : ℕ

-- Whether a row keeps a new one from being inserted: the key, and the unique openid.
abbrev pub same_buyer : ℕ → Text → User → Bool
same_buyer id openid u = u.id == id || text_eq u.openid openid

-- The row that `upsertUser` inserts.
unfoldable pub new_user : ℕ → Text → Option Text → User
unfolding optional_string
new_user id openid nickname = record {
  id = id;
  openid = openid;
  nickname = optional_string nickname;
  avatar_url = [];
  points_balance = 0;
}

-- The row after the update of the fields that are given.
unfoldable pub set_profile : Option Text → Option Text → User → User
set_profile nickname avatar_url u = record u {
  nickname = option u.nickname (λ s. s) nickname;
  avatar_url = option u.avatar_url (λ s. s) avatar_url;
}

-- Whether the row that was read asks for the bonus.
abbrev pub is_due : User → ℕ → Bool
is_due u bonus = u.points_balance == 0 && ltb 0 bonus && not (is_zero u.id)

module _ {H : Type 0} where
  -- INSERT … ON CONFLICT DO NOTHING, and the reload where the row was there. PostgreSQL refuses
  -- an openid or a nickname of more than 64 characters first.
  unfoldable pub insert_or_read : Env → Text → Option Text → Action H User
  unfolding new_user optional_string
  insert_or_read env openid nickname db =
      if ltb 64 (rune_count openid) || ltb 64 (rune_count (optional_string nickname))
      then (err Error.value_too_long, db)
      else if any (same_buyer env.user_id openid) db.users
      then or_raise (find (λ u. text_eq u.openid openid) db.users) Error.record_not_found db
      else (
        ok (new_user env.user_id openid nickname),
        record db { users = new_user env.user_id openid nickname ∷ db.users },
      )

  -- `upsertUser`
  unfoldable pub upsert_user : Env → Text → Option Text → Action H User
  upsert_user env openid nickname db =
      if is_blank (trim_space openid)
      then (err Error.openid_required, db)
      else insert_or_read env (trim_space openid) nickname db

  -- The ledger row of the bonus.
  unfoldable pub bonus_row : Env → ℕ → ℕ → PointsLedger H
  bonus_row env user_id bonus = record {
    id = env.entry_id;
    user_id = user_id;
    order_id = none;
    event_key = signup_key user_id;
    request_hash = none;
    kind = signup_bonus;
    delta = pos bonus;
    balance_after = bonus;
    created_by_admin_id = none;
    remark = [];
    created_at = env.now;
  }

  -- `awardSignupBonus`: the row is inserted ON CONFLICT DO NOTHING, and the balance set if it was.
  unfoldable pub award_signup_bonus : Env → ℕ → ℕ → Action H Bool
  unfolding bonus_row
  award_signup_bonus env user_id bonus db =
      if not (checks_pass {H = H} (bonus_row env user_id bonus))
      then (err Error.check_violation, db)
      else if any (collides (bonus_row env user_id bonus)) db.ledger
      then (ok false, db)
      else (
        ok true,
        record db {
          users = update_by user_key user_id (set_balance bonus) db.users;
          ledger = bonus_row env user_id bonus ∷ db.ledger;
        },
      )

  -- The award, where the row that was read asks for it.
  unfoldable pub award_if_due : Env → User → ℤ → Action H Bool
  award_if_due env u (pos bonus) db =
      if is_due u bonus then award_signup_bonus env u.id bonus db else (ok false, db)
  award_if_due env u (negsuc n) db = (ok false, db)

  -- SELECT … FROM users WHERE id = …
  unfoldable pub read_user : ℕ → Error → Action H User
  read_user id missing db = or_raise (find_by user_key id db.users) missing db

  -- The body of the transaction.
  unfoldable pub upsert_buyer : Env → (Db H → Db H) → Text → Text → ℤ → Option Text → Action H Buyer
  upsert_buyer env race openid union_id bonus nickname = do
    u ← upsert_user env openid nickname
    modify race
    award_if_due env u bonus
    row ← read_user u.id Error.record_not_found
    pure (to_buyer union_id row)

  -- `UpsertByOpenID`
  unfoldable pub upsert_by_openid :
      Env → (Db H → Db H) → Text → Text → ℤ → Option Text → Action H Buyer
  unfolding upsert_buyer
  upsert_by_openid env race openid union_id (negsuc n) nickname =
      if is_blank (trim_space openid)
      then raise Error.openid_required
      else raise Error.negative_bonus
  upsert_by_openid env race openid union_id (pos bonus) nickname =
      if is_blank (trim_space openid)
      then raise Error.openid_required
      else commit_over race (upsert_buyer env race openid union_id (pos bonus) nickname)

  -- `GetByID`
  unfoldable pub get_by_id : ℕ → Action H Buyer
  unfolding read_user
  get_by_id id =
      if is_zero id
      then raise Error.user_id_required
      else (read_user id Error.user_not_found >>= λ row. pure (to_buyer [] row))

  -- UPDATE users SET … WHERE id = …: a nickname of more than 64 characters is refused where there
  -- is a row to write it to.
  unfoldable pub store_profile : ℕ → Option Text → Option Text → Action H (Unit {0})
  unfolding set_profile
  store_profile id nickname avatar_url db =
      if is_some (find_by user_key id db.users) && ltb 64 (rune_count (option [] (λ s. s) nickname))
      then (err Error.value_too_long, db)
      else (
        ok tt,
        record db { users = update_by user_key id (set_profile nickname avatar_url) db.users },
      )

  -- `UpdateProfile`
  unfoldable pub update_profile : ℕ → Option Text → Option Text → Action H Buyer
  unfolding store_profile get_by_id
  update_profile id nickname avatar_url =
      if is_zero id
      then raise Error.user_id_required
      else if is_some nickname || is_some avatar_url
      then (store_profile id nickname avatar_url >> get_by_id id)
      else get_by_id id
