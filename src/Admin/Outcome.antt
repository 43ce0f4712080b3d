-- ===== src/Admin/Outcome.antt =====
-- How `Authenticate` of internal/admin/service.go ends.
use shop_mall.Common.Base.{
  ℕ, ◌≡◌, refl, ◌⊎◌, inl, inr, true, ◌||◌, Option, none, some, List, [], arith, Bool-cases,
}
use shop_mall.Common.Table.{find, update_by}
use shop_mall.Common.Text.{Text, trim_space, is_blank, text_eq}
use shop_mall.Database.Rows.{AdminUser}
use shop_mall.Database.Store.{Db, Error, Result, ok, err, ◌>>=◌, commit, Result-cases}
use Prim.Native.String.{String}
use shop_mall.Audit.{write}
use shop_mall.Limits.Login.{LoginRateLimiter}
use shop_mall.Admin.Hashing.{Argon, verify_password}
use shop_mall.Admin.Permissions.{role_permissions_of}
use shop_mall.Admin.Accounts.{admin_key, store_admin}
use shop_mall.Admin.Login.{
  AuthenticateInput, AuthenticateResult, Signer, SignedIn, record_failed_login, check_credentials,
  finish_login, authenticate, read_admin_named, note_login, issue_token, failure_reason,
  allow_attempt,
}
use shop_mall.Admin.Permissions.{distinct_codes, codes_of_role}

-- Nothing but the audit log has changed.
abbrev pub OnlyLogs : {H : Type 0} → Db H → Db H → Type 0
OnlyLogs before later = later ≡ record before { audit_logs = later.audit_logs }

-- The account has the trimmed name, is enabled, and its hash verifies the password; but for the audit
-- log, only the time of its last login has changed.
abbrev pub Verified :
    {H : Type 0} → Argon → ℕ → AuthenticateInput → Db H → AdminUser → Db H → Type 0
Verified argon now input db a db' =
    (find (λ r. text_eq r.username (trim_space input.username)) db.admin_users ≡ some a)
    × (a.enabled ≡ true)
    × (verify_password argon input.password a.password_hash ≡ true)
    × (db' ≡ record db {
      admin_users =
          update_by admin_key a.id (λ old. (record old { last_login_at = some now }))
            db.admin_users;
      audit_logs = db'.audit_logs;
    })

-- How an authentication ends: an error, before an account is verified or after it; or a token that
-- the signer has given for a verified account, at the version of its row.
abbrev pub Login :
    {H : Type 0}
    → Argon
    → Signer
    → ℕ
    → AuthenticateInput
    → Db H
    → Result AuthenticateResult × Db H
    → Type 0
Login argon issue now input db (err e, db') =
    (OnlyLogs db db') ⊎ ((a : AdminUser) × Verified argon now input db a db')
Login argon issue now input db (ok out, db') =
    (a : AdminUser) × (Verified argon now input db a db')
    × (out.admin_id ≡ a.id)
    × (out.token_version ≡ a.token_version)
    × (issue a.id a.token_version now ≡ ok out.token)

-- What a login answers.
abbrev login_result : SignedIn → List Text → Text → AuthenticateResult
login_result s codes token = record {
  admin_id = s.account.id;
  username = s.account.username;
  role_id = s.account.role_id;
  role_name = s.role_name;
  permissions = codes;
  token_version = s.account.token_version;
  token = token;
}

module _ {H : Type 0} (argon : Argon) (issue : Signer) (now : ℕ) (input : AuthenticateInput) where
  check_credentials-Verified :
      (db : Db H) (s : SignedIn) (db' : Db H)
      → check_credentials argon now input db ≡ (ok s, db')
      → Verified argon now input db s.account db'
  unfolding check_credentials read_admin_named store_admin note_login write
  check_credentials-Verified db s db' h = ground arith

  record_failed_login-OnlyLogs :
      (reason : Option String) (db : Db H) → OnlyLogs db (record_failed_login input reason db)
  unfolding record_failed_login write
  record_failed_login-OnlyLogs none db = refl
  record_failed_login-OnlyLogs (some reason) db = refl

  issue_token-err :
      (s : SignedIn) (codes : List Text) (db : Db H) (e : Error)
      → issue s.account.id s.account.token_version now ≡ err e
      → issue_token issue now s codes db ≡ (err e, db)
  unfolding issue_token
  issue_token-err s codes db e h = ground arith

  issue_token-ok :
      (s : SignedIn) (codes : List Text) (db : Db H) (token : Text)
      → issue s.account.id s.account.token_version now ≡ ok token
      → issue_token issue now s codes db ≡ (ok (login_result s codes token), db)
  unfolding issue_token
  issue_token-ok s codes db token h = ground arith

  -- What follows the transaction of an account that was verified.
  signed-Login :
      (db mid : Db H) (s : SignedIn)
      → Verified argon now input db s.account mid
      → Login argon issue now input db
          ((role_permissions_of s.account.role_id >>= issue_token issue now s) mid)
  unfolding role_permissions_of
  signed-Login db mid s verified =
      go (distinct_codes (codes_of_role mid s.account.role_id) []) refl
        (issue s.account.id s.account.token_version now) refl
    where
      go :
          (codes : Result (List Text))
          → distinct_codes (codes_of_role mid s.account.role_id) [] ≡ codes
          → (token : Result Text) → issue s.account.id s.account.token_version now ≡ token
          → Login argon issue now input db
              ((role_permissions_of s.account.role_id >>= issue_token issue now s) mid)
      go (err e) h token k =
          let step : (role_permissions_of s.account.role_id >>= issue_token issue now s) mid
              ≡ (err e, mid) =
            ground (arith, h) in
          rw step (inr (s.account, verified))
      go (ok codes) h (err e) k =
          let step : (role_permissions_of s.account.role_id >>= issue_token issue now s) mid
              ≡ (err e, mid) =
            ground (arith, h, issue_token-err s codes mid e k) in
          rw step (inr (s.account, verified))
      go (ok codes) h (ok token) k =
          let step : (role_permissions_of s.account.role_id >>= issue_token issue now s) mid
              ≡ (ok (login_result s codes token), mid) =
            ground (arith, h, issue_token-ok s codes mid token k) in
          rw step (s.account, verified, refl, refl, k)

  -- Every authentication ends so, whatever the limiter.
  pub authenticate-Login :
      (to_lower : Text → Text) (limiter : Option LoginRateLimiter) (db : Db H)
      → Login argon issue now input db (authenticate to_lower argon issue now limiter input db).0
  unfolding authenticate finish_login
  authenticate-Login to_lower limiter db =
      let tried = allow_attempt to_lower limiter (trim_space input.username) input.ip now in
      elim (Bool-cases (is_blank (trim_space input.username) || is_blank input.password)) [
        | inl blank ↦ rw blank (inl refl)
        | inr given ↦ elim (Bool-cases tried.0) [
          | inr refused ↦ rw (given, refused) (inl refl)
          | inl allowed ↦ elim (Result-cases (check_credentials argon now input db)) [
            | inl (s, mid, done) ↦
                let step : commit (check_credentials argon now input) db ≡ (ok s, mid) =
                  ground arith in
                rw (given, allowed, step)
                  (signed-Login db mid s (check_credentials-Verified db s mid done))
            | inr (e, mid, failed) ↦
                let step : commit (check_credentials argon now input) db ≡ (err e, db) =
                  ground arith in
                rw (given, allowed, step) (inl (record_failed_login-OnlyLogs (failure_reason e) db))
          ]
        ]
      ]
