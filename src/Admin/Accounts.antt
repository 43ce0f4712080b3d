-- ===== src/Admin/Accounts.antt =====
-- internal/admin/service.go: the accounts of the administrators and their token versions.
use shop_mall.Common.Base.{
  ℕ, ◌+◌, Bool, true, false, not, ◌||◌, Option, none, some, List, [], ◌∷◌, ◌++◌, ltb, ◌==◌,
  if◌then◌else◌,
}
use shop_mall.Common.Int.{pos}
use shop_mall.Common.Int64.{max_int64}
use shop_mall.Common.Table.{find, any, find_by, update_by}
use shop_mall.Common.Text.{Text, trim_space, is_blank, text_eq}
use shop_mall.Database.Rows.{is_zero, Json, num, text, flag, AuditLog, AdminUser, Role}
use shop_mall.Database.Store.{
  Db, Error, ok, err, Action, pure, raise, gets, modify, or_raise, guard, ◌>>=◌, ◌>>◌, commit,
  commit_over,
}
use Prim.Native.String.{String}
use shop_mall.Audit.{write}
use shop_mall.Admin.Names.{Classes, valid_password, valid_username}
use shop_mall.Admin.Hashing.{Argon, hash_password, verify_password}
use shop_mall.Admin.Permissions.{role_key, role_permissions_of, ensure_all_seeded}

abbrev pub admin_key : AdminUser → ℕ
admin_key a = a.id

-- What the calls take from their surroundings: the identifier of a new row, the salt that rand.Read
-- gives, if it does, and the clock.
pub record Env : Type 0 where
  pub id : ℕ
  pub salt : Option Text
  pub now : ℕ

-- `BootstrapInput`
pub record BootstrapInput : Type 0 where
  pub username : Text
  pub password : Text
  pub role_name : Text
  pub actor_name : Text

-- `BootstrapResult` and `ChangePasswordResult`, which have the same fields.
pub record AccountResult : Type 0 where
  pub admin_id : ℕ
  pub username : Text
  pub role_name : Text
  pub token_version : ℕ

-- `ChangePasswordInput`
pub record ChangePasswordInput : Type 0 where
  pub actor_admin_id : ℕ
  pub actor_role : Text
  pub old_password : Text
  pub new_password : Text

-- `UpdateAdminInput`
pub record UpdateAdminInput : Type 0 where
  pub actor_admin_id : ℕ
  pub actor_role : Text
  pub target_id : ℕ
  pub enabled : Option Bool

-- `UpdateAdminResult`
pub record UpdateAdminResult : Type 0 where
  pub admin_id : ℕ
  pub username : Text
  pub enabled : Bool
  pub role_name : Text
  pub token_version : ℕ

-- `AssignRoleInput`
pub record AssignRoleInput : Type 0 where
  pub actor_admin_id : ℕ
  pub actor_role : Text
  pub target_id : ℕ
  pub new_role_name : Text

-- `AssignRoleResult`
pub record AssignRoleResult : Type 0 where
  pub admin_id : ℕ
  pub username : Text
  pub role_name : Text

-- `middleware.AdminState`
pub record AdminState : Type 0 where
  pub enabled : Bool
  pub token_version : ℕ

-- "system"
abbrev system_role : Text
system_role = 115 ∷ 121 ∷ 115 ∷ 116 ∷ 101 ∷ 109 ∷ []

-- An audit row of this service.
unfoldable pub admin_audit :
    Option ℕ
    → Text
    → String
    → String
    → Option ℕ
    → List (String × Json)
    → List (String × Json)
    → AuditLog
admin_audit actor role action target_type target before after = record {
  actor_admin_id = actor;
  actor_role = role;
  action = action;
  target_type = target_type;
  target_id = target;
  result = "success";
  before_data = before;
  after_data = after;
}

-- The name of a role that may be missing.
abbrev pub name_of : Option Role → Text
name_of none = []
name_of (some r) = r.name

-- `adminRoleName` and `lookupRoleName`
unfoldable pub admin_role_name : {H : Type 0} → Db H → ℕ → Text
admin_role_name db role_id =
    if is_zero role_id then [] else name_of (find_by role_key role_id db.roles)

-- Whether a row keeps a new account from being inserted: the key, and the unique name.
abbrev pub same_admin : ℕ → Text → AdminUser → Bool
same_admin id username a = a.id == id || text_eq a.username username

-- The row of a new account.
unfoldable pub new_admin : ℕ → Text → Text → ℕ → AdminUser
new_admin id username hash role_id = record {
  id = id;
  username = username;
  password_hash = hash;
  token_version = 1;
  role_id = role_id;
  enabled = true;
  last_login_at = none;
}

-- The row with `enabled` as asked for; switching off takes the next version.
unfoldable pub set_enabled : Option Bool → AdminUser → AdminUser
set_enabled none a = a
set_enabled (some true) a = record a { enabled = true }
set_enabled (some false) a =
    if a.enabled then record a { enabled = false; token_version = a.token_version + 1 } else a

-- The columns that `UpdateAdmin` writes into the row that it finds, for the row `a` that it read:
-- none where `enabled` stays.
unfoldable pub write_enabled : Option Bool → AdminUser → AdminUser → AdminUser
write_enabled none a old = old
write_enabled (some true) a old = if a.enabled then old else record old { enabled = true }
write_enabled (some false) a old =
    if a.enabled then record old { enabled = false; token_version = a.token_version + 1 } else old

-- The images of the audit row of an update.
unfoldable pub state_data : AdminUser → List (String × Json)
state_data a = ("enabled", flag a.enabled) ∷ ("token_ver", num (pos a.token_version)) ∷ []

module _ {H : Type 0} where
  -- SELECT … FROM admin_users WHERE id = …
  unfoldable pub read_admin : ℕ → Action H AdminUser
  read_admin id db = or_raise (find_by admin_key id db.admin_users) Error.admin_not_found db

  -- UPDATE admin_users SET … WHERE id = …, with the version that it writes: one that has left int64
  -- is negative there, and admin_users_token_version_positive refuses it.
  unfoldable pub store_admin : ℕ → ℕ → (AdminUser → AdminUser) → Action H (Unit {0})
  store_admin id version f db =
      if ltb max_int64 version
      then (err Error.check_violation, db)
      else (ok tt, record db { admin_users = update_by admin_key id f db.admin_users })

  -- INSERT INTO admin_users.
  unfoldable pub insert_admin : AdminUser → Action H (Unit {0})
  insert_admin a db =
      if any (same_admin a.id a.username) db.admin_users
      then (err Error.administrator_exists, db)
      else (ok tt, record db { admin_users = a ∷ db.admin_users })

  -- SELECT … FROM roles WHERE name = …
  unfoldable pub read_role_named : Text → Action H Role
  read_role_named name db =
      or_raise (find (λ r. text_eq r.name name) db.roles) Error.unknown_role db

  -- The account that the bootstrap creates, under a hash.
  unfoldable pub create_admin : Env → BootstrapInput → Text → Role → Action H AccountResult
  create_admin env input hash role = do
    let a = new_admin env.id (trim_space input.username) hash role.id
    insert_admin a
    write (
        admin_audit none system_role "admin.bootstrap" "admin" (some a.id) [] (
          ("username", text a.username)
          ∷ ("role_name", text role.name)
          ∷ ("actor", text input.actor_name)
          ∷ []))
    pure (record {
      admin_id = a.id;
      username = a.username;
      role_name = role.name;
      token_version = a.token_version;
    })

  -- The transaction of `Logout`: the row is read without a lock, so that other calls may commit
  -- before the version is written.
  unfoldable pub close_sessions : (Db H → Db H) → Text → ℕ → Action H (Unit {0})
  close_sessions race subject actor_id = do
    a ← read_admin actor_id
    modify race
    store_admin a.id (a.token_version + 1)
        (λ old. record old { token_version = a.token_version + 1 })
    role ← gets (λ db. admin_role_name db a.role_id)
    write (
        admin_audit (some a.id) role "admin.logout" "admin" (some a.id) [] (
          ("username", text a.username)
          ∷ ("token_ver", num (pos (a.token_version + 1)))
          ∷ ("subject", text subject)
          ∷ []))

  -- `Logout`
  unfoldable pub logout : (Db H → Db H) → Text → ℕ → Action H (Unit {0})
  unfolding close_sessions
  logout race subject actor_id = commit_over race (close_sessions race subject actor_id)

  -- The transaction of `UpdateAdmin`.
  unfoldable pub update_account : (Db H → Db H) → UpdateAdminInput → Action H UpdateAdminResult
  unfolding write_enabled
  update_account race input = do
    a ← read_admin input.target_id
    modify race
    let new = set_enabled input.enabled a
    store_admin a.id new.token_version (write_enabled input.enabled a)
    role ← gets (λ db. admin_role_name db a.role_id)
    write (
        admin_audit (some input.actor_admin_id) input.actor_role "admin.update" "admin" (some a.id)
          (state_data a)
          (state_data new ++ ("role_name", text role) ∷ ("actor", text input.actor_role) ∷ []))
    pure (record {
      admin_id = a.id;
      username = a.username;
      enabled = new.enabled;
      role_name = role;
      token_version = new.token_version;
    })

  -- `UpdateAdmin`
  unfoldable pub update_admin : (Db H → Db H) → UpdateAdminInput → Action H UpdateAdminResult
  update_admin race input =
      if is_zero input.actor_admin_id || is_zero input.target_id
      then raise Error.admin_not_found
      else commit_over race (update_account race input)

  -- The transaction of `AssignRole`.
  unfoldable pub assign_role_in : AssignRoleInput → Action H AssignRoleResult
  assign_role_in input = do
    a ← read_admin input.target_id
    old_role ← gets (λ db. admin_role_name db a.role_id)
    role ← read_role_named input.new_role_name
    ensure_all_seeded role.id
    store_admin a.id 0 (λ old. record old { role_id = role.id })
    write (
        admin_audit (some input.actor_admin_id) input.actor_role "admin.role.change" "admin"
          (some a.id) (("role_name", text old_role) ∷ [])
          (("role_name", text role.name) ∷ ("actor", text input.actor_role) ∷ []))
    pure (record { admin_id = a.id; username = a.username; role_name = role.name })

  -- `AssignRole`
  unfoldable pub assign_role : AssignRoleInput → Action H AssignRoleResult
  assign_role input =
      if is_zero input.actor_admin_id || is_zero input.target_id
      then raise Error.admin_not_found
      else if is_blank (trim_space input.new_role_name)
      then raise Error.unknown_role
      else commit (assign_role_in input)

  -- The rest of `ChangePassword`, once the old password is verified.
  unfoldable pub store_password : ChangePasswordInput → AdminUser → Text → Action H AccountResult
  store_password input a hash = do
    store_admin a.id (a.token_version + 1)
        (λ old. record old { password_hash = hash; token_version = a.token_version + 1 })
    role ← gets (λ db. admin_role_name db a.role_id)
    write (
        admin_audit (some a.id) role "admin.password.change" "admin" (some a.id) [] (
          ("username", text a.username)
          ∷ ("role_name", text role)
          ∷ ("token_ver", num (pos (a.token_version + 1)))
          ∷ ("actor", text input.actor_role)
          ∷ []))
    pure (record {
      admin_id = a.id;
      username = a.username;
      role_name = role;
      token_version = a.token_version + 1;
    })

  -- `AdminState`
  unfoldable pub admin_state : ℕ → Action H AdminState
  admin_state id =
      if is_zero id
      then raise Error.admin_not_found
      else (read_admin id >>= λ a.
          pure (record { enabled = a.enabled; token_version = a.token_version }))

  -- `IsTokenVersionCurrent`
  unfoldable pub is_token_version_current : ℕ → ℕ → Action H Bool
  is_token_version_current id version =
      if is_zero id
      then raise Error.admin_not_found
      else (read_admin id >>= λ a. pure (a.token_version == version))

  -- `PermissionsForAdmin`
  unfoldable pub permissions_for_admin : ℕ → Action H (List Text)
  permissions_for_admin id =
      if is_zero id
      then raise Error.admin_not_found
      else (read_admin id >>= λ a. role_permissions_of a.role_id)

module _ {H : Type 0} (argon : Argon) where
  -- `hashPassword` with the salt that there is.
  unfoldable pub hash_new : Option Text → Text → Action H Text
  hash_new none password db = (err (Error.other 0), db)
  hash_new (some salt) password db = (ok (hash_password argon salt password), db)

  -- The transaction of `BootstrapAdministrator`.
  unfoldable pub bootstrap_in : Env → BootstrapInput → Action H AccountResult
  bootstrap_in env input = do
    role ← read_role_named input.role_name
    ensure_all_seeded role.id
    hash ← hash_new env.salt input.password
    create_admin env input hash role

  -- The transaction of `ChangePassword`.
  unfoldable pub change_password_in :
      Env → (Db H → Db H) → ChangePasswordInput → Action H AccountResult
  change_password_in env race input = do
    a ← read_admin input.actor_admin_id
    modify race
    guard a.enabled Error.admin_disabled
    guard (verify_password argon input.old_password a.password_hash) Error.invalid_credentials
    hash ← hash_new env.salt input.new_password
    store_password input a hash

module _ {H : Type 0} (argon : Argon) (classes : Classes) where
  -- `BootstrapAdministrator`
  unfoldable pub bootstrap_administrator : Env → BootstrapInput → Action H AccountResult
  bootstrap_administrator env input =
      if not (valid_username classes input.username)
      then raise Error.invalid_username
      else if not (valid_password classes input.password)
      then raise Error.weak_password
      else if is_blank (trim_space input.role_name)
      then raise Error.unknown_role
      else commit (bootstrap_in argon env input)

  -- `ChangePassword`
  unfoldable pub change_password :
      Env → (Db H → Db H) → ChangePasswordInput → Action H AccountResult
  change_password env race input =
      if not (valid_password classes input.new_password)
      then raise Error.weak_password
      else if is_blank input.old_password
      then raise Error.invalid_credentials
      else if is_zero input.actor_admin_id
      then raise Error.admin_not_found
      else commit_over race (change_password_in argon env race input)
