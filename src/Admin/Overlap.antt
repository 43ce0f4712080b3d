-- ===== src/Admin/Overlap.antt =====
-- `Logout` of internal/admin/service.go while other calls supersede tokens of the same account.
use shop_mall.Common.Base.{ℕ, ◌+◌, ◌<◌, ◌≡◌, refl, true, false, arith, some, ltb, ◌==◌}
use shop_mall.Common.Int64.{max_int64}
use shop_mall.Common.Table.{find_by, update_by, key-find_by, find_by-update_by}
use shop_mall.Common.Text.{Text}
use shop_mall.Database.Rows.{is_zero, AdminUser}
use shop_mall.Database.Store.{Db, ok}
use shop_mall.Audit.{write}
use shop_mall.Admin.Accounts.{
  admin_key, read_admin, store_admin, close_sessions, logout, is_token_version_current,
}

module _ {H : Type 0} where
  version_told :
      (id v : ℕ) (db : Db H) (b : AdminUser)
      → is_zero id ≡ false
      → find_by admin_key id db.admin_users ≡ some b
      → (is_token_version_current id v db).0 ≡ ok (b.token_version == v)
  unfolding is_token_version_current read_admin
  version_told id v db b given found = ground (arith, given, found)

  -- The logout writes the version after the one that it read, whatever the row has become.
  logout-runs :
      (race : Db H → Db H) (subject : Text) (id : ℕ) (db : Db H) (a : AdminUser)
      → find_by admin_key id db.admin_users ≡ some a
      → ltb max_int64 (a.token_version + 1) ≡ false
      → ((logout race subject id db).0 ≡ ok tt)
        × ((logout race subject id db).1.admin_users
            ≡ update_by admin_key a.id
                (λ old. (record old { token_version = a.token_version + 1 }))
                (race db).admin_users)
  unfolding logout close_sessions read_admin store_admin write
  logout-runs race subject id db a found fits = ground (arith, found, fits)

  -- A superseded token comes back where calls overlap: if, between the read of a logout and its
  -- write, other calls have raised the version of the account past the next one, then the next
  -- version is not current on what they committed, and the logout succeeds and makes it current
  -- again.
  pub logout-revives :
      (race : Db H → Db H) (subject : Text) (id : ℕ) (db : Db H) (a b : AdminUser)
      → is_zero id ≡ false
      → find_by admin_key id db.admin_users ≡ some a
      → find_by admin_key id (race db).admin_users ≡ some b
      → ltb max_int64 (a.token_version + 1) ≡ false
      → a.token_version + 1 < b.token_version
      → let out = logout race subject id db in
        let v = a.token_version + 1 in
        ((is_token_version_current id v (race db)).0 ≡ ok false)
        × (out.0 ≡ ok tt)
        × ((is_token_version_current id v out.1).0 ≡ ok true)
  logout-revives race subject id db a b given found later fits past =
      let v = a.token_version + 1 in
      let f = λ (old : AdminUser). record old { token_version = a.token_version + 1 } in
      let (done, left) = logout-runs race subject id db a found fits in
      let named = key-find_by admin_key id {r = a} db.admin_users found in
      let law = find_by-update_by admin_key id id f (race db).admin_users (λ r. refl) in
      let there : find_by admin_key id (logout race subject id db).1.admin_users ≡ some (f b) =
        rw (left, named) (ground (arith, law, later)) in
      let before = version_told id v (race db) b given later in
      let after = version_told id v (logout race subject id db).1 (f b) given there in
      (ground (arith, before, past), done, ground (arith, after))
