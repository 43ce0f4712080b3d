-- ===== src/Admin/Login.antt =====
-- internal/admin/service.go: `Authenticate`. The signer of the tokens is a parameter, the metrics
-- are left out, and a subject is the identifier that it is printed from.
use shop_mall.Common.Base.{ℕ, Bool, true, ◌||◌, Option, none, some, List, [], ◌∷◌, if◌then◌else◌}
use shop_mall.Common.Int.{pos}
use shop_mall.Common.Table.{find, find_by}
use shop_mall.Common.Text.{Text, trim_space, is_blank, text_eq}
use shop_mall.Database.Rows.{num, str, text, AdminUser}
use shop_mall.Database.Store.{
  Db, Error, Result, ok, err, Action, pure, gets, or_raise, guard, ◌>>=◌, ◌>>◌, commit,
}
use Prim.Native.String.{String}
use shop_mall.Audit.{write}
use shop_mall.Limits.Login.{LoginRateLimiter, allow_login}
use shop_mall.Admin.Hashing.{Argon, verify_password}
use shop_mall.Admin.Permissions.{role_key, role_permissions_of}
use shop_mall.Admin.Accounts.{admin_audit, name_of, admin_role_name, store_admin}

-- `AuthenticateInput`
pub record AuthenticateInput : Type 0 where
  pub username : Text
  pub password : Text
  pub ip : Text

-- `AuthenticateResult`
pub record AuthenticateResult : Type 0 where
  pub admin_id : ℕ
  pub username : Text
  pub role_id : ℕ
  pub role_name : Text
  pub permissions : List Text
  pub token_version : ℕ
  pub token : Text

-- `signer.Issue`: the subject, the version and the time.
abbrev pub Signer : Type 0
Signer = ℕ → ℕ → ℕ → Result Text

-- "anonymous"
abbrev anonymous : Text
anonymous = 97 ∷ 110 ∷ 111 ∷ 110 ∷ 121 ∷ 109 ∷ 111 ∷ 117 ∷ 115 ∷ []

-- The failure reason of an error that is recorded.
abbrev pub failure_reason : Error → Option String
failure_reason Error.admin_disabled = some "account_disabled"
failure_reason Error.invalid_credentials = some "invalid_credentials"
failure_reason _ = none

-- The limiter, where there is one, before and after an attempt.
unfoldable pub allow_attempt :
    (Text → Text) → Option LoginRateLimiter → Text → Text → ℕ → Bool × Option LoginRateLimiter
allow_attempt to_lower none username ip now = (true, none)
allow_attempt to_lower (some l) username ip now =
    let out = allow_login to_lower l username ip now in (out.0, some out.1)

-- The name of the role that was read with the row, or else is looked up.
unfoldable pub login_role_name : {H : Type 0} → Db H → ℕ → Text
login_role_name db role_id =
    let preloaded = name_of (find_by role_key role_id db.roles) in
    if is_blank preloaded then admin_role_name db role_id else preloaded

-- What the transaction of a login gives to the rest of it.
pub record SignedIn : Type 0 where
  pub account : AdminUser
  pub role_name : Text

module _ {H : Type 0} where
  -- SELECT … FROM admin_users WHERE username = …
  unfoldable pub read_admin_named : Text → Action H AdminUser
  read_admin_named username db =
      or_raise (find (λ a. text_eq a.username username) db.admin_users) Error.invalid_credentials db

  -- `recordFailedLogin`
  unfoldable pub record_failed_login : AuthenticateInput → Option String → Db H → Db H
  record_failed_login input none db = db
  record_failed_login input (some reason) db =
      (commit
        (write (record {
          actor_admin_id = none;
          actor_role = anonymous;
          action = "admin.login";
          target_type = "admin";
          target_id = none;
          result = "failure";
          before_data = [];
          after_data =
              ("username", text input.username)
              ∷ ("ip", text input.ip)
              ∷ ("reason", str reason)
              ∷ [];
        }))
        db).1

  -- The audit row of a login, and what it gives.
  unfoldable pub note_login : AuthenticateInput → AdminUser → Action H SignedIn
  note_login input a = do
    role ← gets (λ db. login_role_name db a.role_id)
    write (
        admin_audit (some a.id) role "admin.login" "admin" (some a.id) [] (
          ("username", text a.username)
          ∷ ("role_name", text role)
          ∷ ("ip", text input.ip)
          ∷ ("token_ver", num (pos a.token_version))
          ∷ []))
    pure (record { account = a; role_name = role })

  -- The transaction of `Authenticate`.
  unfoldable pub check_credentials : Argon → ℕ → AuthenticateInput → Action H SignedIn
  check_credentials argon now input = do
    a ← read_admin_named (trim_space input.username)
    guard a.enabled Error.admin_disabled
    guard (verify_password argon input.password a.password_hash) Error.invalid_credentials
    store_admin a.id 0 (λ old. record old { last_login_at = some now })
    note_login input a

  -- The token, signed after the transaction.
  unfoldable pub issue_token : Signer → ℕ → SignedIn → List Text → Action H AuthenticateResult
  issue_token issue now s permissions db = elim (issue s.account.id s.account.token_version now) [
    | err e ↦ (err e, db)
    | ok token ↦ (
      ok (record {
        admin_id = s.account.id;
        username = s.account.username;
        role_id = s.account.role_id;
        role_name = s.role_name;
        permissions = permissions;
        token_version = s.account.token_version;
        token = token;
      }),
      db,
    )
  ]

  -- What follows the transaction.
  unfoldable pub finish_login :
      Signer → ℕ → AuthenticateInput → Result SignedIn × Db H → Result AuthenticateResult × Db H
  finish_login issue now input (err e, db) =
      (err e, record_failed_login input (failure_reason e) db)
  finish_login issue now input (ok s, db) =
      (role_permissions_of s.account.role_id >>= issue_token issue now s) db

  -- `Authenticate`, with the limiter after it.
  unfoldable pub authenticate :
      (Text → Text)
      → Argon
      → Signer
      → ℕ
      → Option LoginRateLimiter
      → AuthenticateInput
      → Db H
      → (Result AuthenticateResult × Db H) × Option LoginRateLimiter
  authenticate to_lower argon issue now limiter input db =
      if is_blank (trim_space input.username) || is_blank input.password
      then ((err Error.invalid_credentials, db), limiter)
      else let out = allow_attempt to_lower limiter (trim_space input.username) input.ip now in
        if out.0
        then (finish_login issue now input (commit (check_credentials argon now input) db), out.1)
        else ((err Error.rate_limited, db), out.1)
