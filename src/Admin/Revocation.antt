-- ===== src/Admin/Revocation.antt =====
-- The calls of internal/admin/service.go on the accounts keep the token versions from falling.
use shop_mall.Common.Base.{
  ℕ, ◌+◌, ◌≡◌, refl, inl, inr, true, false, ◌||◌, Option, none, some, List, [], ◌∷◌, arith, ◌==◌,
  Bool-cases, ==_iff, Option-cases,
}
use shop_mall.Common.Table.{find, any, find_by}
use shop_mall.Common.Text.{Text, trim_space, is_blank, text_eq}
use shop_mall.Database.Rows.{is_zero, AdminUser}
use shop_mall.Database.Store.{Db, Result, ok, err, commit, undisturbed, Result-cases}
use Prim.Native.String.{String}
use shop_mall.Audit.{write}
use shop_mall.Limits.Login.{LoginRateLimiter}
use shop_mall.Admin.Names.{Classes, valid_password, valid_username}
use shop_mall.Admin.Hashing.{Argon, verify_password}
use shop_mall.Admin.Permissions.{role_permissions_of, ensure_all_seeded}
use shop_mall.Admin.Accounts.{
  admin_key, Env, AccountResult, BootstrapInput, ChangePasswordInput, same_admin, new_admin,
  read_admin, read_role_named, create_admin, hash_new, bootstrap_in, change_password_in,
  bootstrap_administrator, store_password, change_password,
}
use shop_mall.Admin.Login.{
  AuthenticateInput, Signer, SignedIn, record_failed_login, check_credentials, finish_login,
  authenticate, issue_token, failure_reason, allow_attempt,
}
use shop_mall.Admin.Versions.{
  VersionsGrow, VersionsGrow-refl, update_by-VersionsGrow_any, store_password-eq-ok,
  create_admin-eq-ok, check_credentials-eq-ok,
}
use shop_mall.Admin.Steps.{commit-Grows, written-Grows}

taken_id :
    (id : ℕ) (username : Text) (rows : List AdminUser) (b : AdminUser) (j : ℕ)
    → find_by admin_key j rows ≡ some b
    → j ≡ id
    → any (same_admin id username) rows ≡ true
taken_id id username [] b j h e = cc
taken_id id username (r ∷ rows) b j h e = ground (arith, taken_id id username rows b j)

-- A new row, of an identifier that no row has.
insert-Grows :
    (a : AdminUser) (rows : List AdminUser) (username : Text)
    → any (same_admin a.id username) rows ≡ false
    → VersionsGrow rows (a ∷ rows)
insert-Grows a rows username fresh id b h = elim (Bool-cases (id == a.id)) [
  | inl same ↦
      let taken = taken_id a.id username rows b id h ((==_iff id a.id).0 same) in
      absurd (ground arith)
  | inr other ↦ (b, rw other h, ground arith)
]

failed_login-same :
    {H : Type 0} (input : AuthenticateInput) (reason : Option String) (db : Db H)
    → (record_failed_login input reason db).admin_users ≡ db.admin_users
unfolding record_failed_login write
failed_login-same input none db = refl
failed_login-same input (some reason) db = refl

module _ {H : Type 0} (argon : Argon) where
  hash_new-eq-ok :
      (salt : Option Text) (password : Text) (db : Db H) (hash : Text) (d : Db H)
      → hash_new argon salt password db ≡ (ok hash, d)
      → d ≡ db
  unfolding hash_new
  hash_new-eq-ok none password db hash d h = cc
  hash_new-eq-ok (some s) password db hash d h = ground arith

  bootstrap_in-Grows :
      (env : Env) (input : BootstrapInput) (db : Db H) (out : AccountResult) (db' : Db H)
      → bootstrap_in argon env input db ≡ (ok out, db')
      → VersionsGrow db.admin_users db'.admin_users
  unfolding bootstrap_in read_role_named ensure_all_seeded new_admin
  bootstrap_in-Grows env input db out db' h =
      elim (Option-cases (find (λ r. text_eq r.name input.role_name) db.roles)) [
        | inl missing ↦ absurd (ground arith)
        | inr (role, named) ↦ elim (Result-cases (hash_new argon env.salt input.password db)) [
          | inl (hash, d, made) ↦
              let same : d ≡ db = hash_new-eq-ok env.salt input.password db hash d made in
              let run : create_admin env input hash role db ≡ (ok out, db') = ground arith in
              let (left, fresh) = create_admin-eq-ok env input hash role db out db' run in
              rw left (
                insert-Grows (new_admin env.id (trim_space input.username) hash role.id)
                  db.admin_users (trim_space input.username) fresh)
          | inr (e, d, failed) ↦ absurd (ground arith)
        ]
      ]

  pub change_password_in-eq-ok :
      (env : Env) (input : ChangePasswordInput) (db : Db H) (out : AccountResult) (db' : Db H)
      → change_password_in argon env undisturbed input db ≡ (ok out, db')
      → (a : AdminUser) × (hash : Text) × (find_by admin_key input.actor_admin_id db.admin_users
          ≡ some a)
        × (a.enabled ≡ true)
        × (verify_password argon input.old_password a.password_hash ≡ true)
        × (store_password input a hash db ≡ (ok out, db'))
  unfolding change_password_in read_admin
  change_password_in-eq-ok env input db out db' h =
      elim (Option-cases (find_by admin_key input.actor_admin_id db.admin_users)) [
        | inl missing ↦ absurd (ground arith)
        | inr (a, found) ↦ elim (Result-cases (hash_new argon env.salt input.new_password db)) [
          | inl (hash, d, made) ↦
              let same : d ≡ db = hash_new-eq-ok env.salt input.new_password db hash d made in
              (a, hash, found, ground arith, ground arith, ground arith)
          | inr (e, d, failed) ↦ absurd (ground arith)
        ]
      ]

  finish_login-same :
      (issue : Signer) (now : ℕ) (input : AuthenticateInput) (out : Result SignedIn × Db H)
      → (finish_login issue now input out).1.admin_users ≡ out.1.admin_users
  unfolding finish_login record_failed_login write role_permissions_of issue_token
  finish_login-same issue now input (ok s, db) = ground arith
  finish_login-same issue now input (err e, db) = failed_login-same input (failure_reason e) db

  pub authenticate-Grows :
      (to_lower : Text → Text) (issue : Signer) (now : ℕ) (limiter : Option LoginRateLimiter)
      (input : AuthenticateInput) (db : Db H)
      → VersionsGrow db.admin_users
          (authenticate to_lower argon issue now limiter input db).0.1.admin_users
  unfolding authenticate
  authenticate-Grows to_lower issue now limiter input db =
      let tried = allow_attempt to_lower limiter (trim_space input.username) input.ip now in
      elim (Bool-cases (is_blank (trim_space input.username) || is_blank input.password)) [
        | inl blank ↦ rw blank (VersionsGrow-refl db.admin_users)
        | inr given ↦ elim (Bool-cases tried.0) [
          | inl allowed ↦
              let body = check_credentials argon now input in
              rw (given, allowed, finish_login-same issue now input (commit body db))
                (commit-Grows body db (λ s d done.
                  (let (found, on, right, left) =
                      check_credentials-eq-ok argon now input db s d done in
                    rw left (
                      update_by-VersionsGrow_any s.account.id
                        (λ old. (record old { last_login_at = some now })) db.admin_users
                        (λ r. (ground arith)) (λ r. refl)))))
          | inr refused ↦ rw (given, refused) (VersionsGrow-refl db.admin_users)
        ]
      ]

module _ {H : Type 0} (argon : Argon) (classes : Classes) where
  pub bootstrap-Grows :
      (env : Env) (input : BootstrapInput) (db : Db H)
      → VersionsGrow db.admin_users
          (bootstrap_administrator argon classes env input db).1.admin_users
  unfolding bootstrap_administrator
  bootstrap-Grows env input db =
      let body =
        commit-Grows (bootstrap_in argon env input) db (bootstrap_in-Grows argon env input db) in
      elim (Bool-cases (valid_username classes input.username)) [
        | inl named ↦ elim (Bool-cases (valid_password classes input.password)) [
          | inl strong ↦ elim (Bool-cases (is_blank (trim_space input.role_name))) [
            | inl blank ↦ rw (named, strong, blank) (VersionsGrow-refl db.admin_users)
            | inr filled ↦ rw (named, strong, filled) body
          ]
          | inr weak ↦ rw (named, weak) (VersionsGrow-refl db.admin_users)
        ]
        | inr bad ↦ rw bad (VersionsGrow-refl db.admin_users)
      ]

  pub change_password-Grows :
      (env : Env) (input : ChangePasswordInput) (db : Db H)
      → VersionsGrow db.admin_users
          (change_password argon classes env undisturbed input db).1.admin_users
  unfolding change_password
  change_password-Grows env input db =
      let body = commit-Grows (change_password_in argon env undisturbed input) db (λ out d done.
        (let (a, hash, found, on, right, run) =
            change_password_in-eq-ok argon env input db out d done in
          written-Grows input.actor_admin_id
            (λ old. (record old { password_hash = hash; token_version = a.token_version + 1 }))
            db.admin_users d.admin_users a found (ground arith) (λ r. refl)
            (store_password-eq-ok input a hash db out d run))) in
      elim (Bool-cases (valid_password classes input.new_password)) [
        | inl strong ↦ elim (Bool-cases (is_blank input.old_password)) [
          | inl blank ↦ rw (strong, blank) (VersionsGrow-refl db.admin_users)
          | inr filled ↦ elim (Bool-cases (is_zero input.actor_admin_id)) [
            | inl bad ↦ rw (strong, filled, bad) (VersionsGrow-refl db.admin_users)
            | inr good ↦ rw (strong, filled, good) body
          ]
        ]
        | inr weak ↦ rw weak (VersionsGrow-refl db.admin_users)
      ]
