-- ===== src/Admin/Versions.antt =====
-- The token versions of internal/admin/service.go: what each call makes of the accounts.
use shop_mall.Common.Base.{
  ℕ, ◌+◌, ◌≤◌, ◌≡◌, sym, ◌∙◌, inl, inr, true, false, some, List, ◌∷◌, arith, ◌==◌, Bool-cases,
  ==_iff, Option-cases,
}
use shop_mall.Common.Table.{find, any, find_by, update_by, find_by-update_by}
use shop_mall.Common.Text.{Text, trim_space, text_eq}
use shop_mall.Database.Rows.{AdminUser, Role}
use shop_mall.Database.Store.{Db, ok, undisturbed}
use shop_mall.Audit.{write}
use shop_mall.Admin.Hashing.{Argon, verify_password}
use shop_mall.Admin.Permissions.{ensure_all_seeded}
use shop_mall.Admin.Accounts.{
  admin_key, Env, AccountResult, BootstrapInput, ChangePasswordInput, UpdateAdminInput,
  UpdateAdminResult, AssignRoleInput, AssignRoleResult, same_admin, new_admin, write_enabled,
  read_admin, store_admin, insert_admin, read_role_named, create_admin, close_sessions,
  update_account, assign_role_in, store_password,
}
use shop_mall.Admin.Login.{
  AuthenticateInput, SignedIn, check_credentials, read_admin_named, note_login,
}

-- The rows of one version or another: each account of the one list is in the other, under the same
-- identifier, and its token version is no lower there.
abbrev pub VersionsGrow : List AdminUser → List AdminUser → Type 0
VersionsGrow before later =
    (id : ℕ) (a : AdminUser)
    → find_by admin_key id before ≡ some a
    → (b : AdminUser) × (find_by admin_key id later ≡ some b) × (a.token_version ≤ b.token_version)

pub VersionsGrow-refl : (rows : List AdminUser) → VersionsGrow rows rows
VersionsGrow-refl rows id a h = (a, h, ground arith)

pub VersionsGrow-trans :
    (xs ys zs : List AdminUser) → VersionsGrow xs ys → VersionsGrow ys zs → VersionsGrow xs zs
VersionsGrow-trans xs ys zs first second id a h =
    let (b, found, le) = first id a h in
    let (c, there, le') = second id b found in (c, there, omega (arith, le, le'))

pub same_admin_row : {a b : AdminUser} → some a ≡ some b → a ≡ b
same_admin_row h = ground arith

-- A rewrite of one row that does not lower its version.
pub update_by-VersionsGrow :
    (id : ℕ) (f : AdminUser → AdminUser) (rows : List AdminUser) (a : AdminUser)
    → find_by admin_key id rows ≡ some a
    → a.token_version ≤ (f a).token_version
    → ((r : AdminUser) → (f r).id ≡ r.id)
    → VersionsGrow rows (update_by admin_key id f rows)
update_by-VersionsGrow id f rows a found le keeps j b h =
    let law = find_by-update_by admin_key j id f rows keeps in
    elim (Bool-cases (j == id)) [
      | inl same ↦
          let e = (==_iff j id).0 same in
          let here : find_by admin_key j rows ≡ some a = rw e found in
          let who : b ≡ a = same_admin_row (sym h ∙ here) in
          (f a, ground (arith, law, same, here), rw who le)
      | inr other ↦ (b, ground (arith, law, other, h), ground arith)
    ]

-- A rewrite that lowers no version.
pub update_by-VersionsGrow_any :
    (id : ℕ) (f : AdminUser → AdminUser) (rows : List AdminUser)
    → ((r : AdminUser) → r.token_version ≤ (f r).token_version)
    → ((r : AdminUser) → (f r).id ≡ r.id)
    → VersionsGrow rows (update_by admin_key id f rows)
update_by-VersionsGrow_any id f rows le keeps j b h =
    let law = find_by-update_by admin_key j id f rows keeps in
    elim (Bool-cases (j == id)) [
      | inl same ↦ (f b, ground (arith, law, same, h), le b)
      | inr other ↦ (b, ground (arith, law, other, h), ground arith)
    ]

module _ {H : Type 0} where
  pub close_sessions-eq-ok :
      (subject : Text) (id : ℕ) (db : Db H) (db' : Db H)
      → close_sessions undisturbed subject id db ≡ (ok tt, db')
      → (a : AdminUser) × (find_by admin_key id db.admin_users ≡ some a)
        × (db'.admin_users
            ≡ update_by admin_key a.id
                (λ old. (record old { token_version = a.token_version + 1 }))
                db.admin_users)
  unfolding close_sessions read_admin store_admin write
  close_sessions-eq-ok subject id db db' h = ground arith

  pub update_account-eq-ok :
      (input : UpdateAdminInput) (db : Db H) (out : UpdateAdminResult) (db' : Db H)
      → update_account undisturbed input db ≡ (ok out, db')
      → (a : AdminUser) × (find_by admin_key input.target_id db.admin_users ≡ some a)
        × (db'.admin_users
            ≡ update_by admin_key a.id (write_enabled input.enabled a) db.admin_users)
  unfolding update_account read_admin store_admin write
  update_account-eq-ok input db out db' h = ground arith

  pub assign_role_in-eq-ok :
      (input : AssignRoleInput) (db : Db H) (out : AssignRoleResult) (db' : Db H)
      → assign_role_in input db ≡ (ok out, db')
      → (a : AdminUser) × (role : Role) × (find_by admin_key input.target_id db.admin_users
          ≡ some a)
        × (db'.admin_users
            ≡ update_by admin_key a.id (λ old. (record old { role_id = role.id })) db.admin_users)
  unfolding assign_role_in read_admin read_role_named ensure_all_seeded store_admin write
  assign_role_in-eq-ok input db out db' h =
      elim (Option-cases (find (λ r. text_eq r.name input.new_role_name) db.roles)) [
        | inl missing ↦ absurd (ground arith)
        | inr (role, named) ↦
            elim (Option-cases (find_by admin_key input.target_id db.admin_users)) [
              | inl gone ↦ absurd (ground arith)
              | inr (a, found) ↦ (a, role, found, ground arith)
            ]
      ]

  pub store_password-eq-ok :
      (input : ChangePasswordInput) (a : AdminUser) (hash : Text) (db : Db H) (out : AccountResult)
      (db' : Db H)
      → store_password input a hash db ≡ (ok out, db')
      → db'.admin_users
        ≡ update_by admin_key a.id
            (λ old. (record old { password_hash = hash; token_version = a.token_version + 1 }))
            db.admin_users
  unfolding store_password store_admin write
  store_password-eq-ok input a hash db out db' h = ground arith

  pub create_admin-eq-ok :
      (env : Env) (input : BootstrapInput) (hash : Text) (role : Role) (db : Db H)
      (out : AccountResult) (db' : Db H)
      → create_admin env input hash role db ≡ (ok out, db')
      → (db'.admin_users
          ≡ new_admin env.id (trim_space input.username) hash role.id ∷ db.admin_users)
        × (any (same_admin env.id (trim_space input.username)) db.admin_users ≡ false)
  unfolding create_admin insert_admin write new_admin
  create_admin-eq-ok env input hash role db out db' h = ground arith

  pub check_credentials-eq-ok :
      (argon : Argon) (now : ℕ) (input : AuthenticateInput) (db : Db H) (s : SignedIn) (db' : Db H)
      → check_credentials argon now input db ≡ (ok s, db')
      → (find (λ a. text_eq a.username (trim_space input.username)) db.admin_users ≡ some s.account)
        × (s.account.enabled ≡ true)
        × (verify_password argon input.password s.account.password_hash ≡ true)
        × (db'.admin_users
            ≡ update_by admin_key s.account.id
                (λ old. (record old { last_login_at = some now }))
                db.admin_users)
  unfolding check_credentials read_admin_named store_admin note_login write
  check_credentials-eq-ok argon now input db s db' h = ground arith
