-- ===== src/Admin/Roles.antt =====
-- internal/admin/service.go: `CreateRole`, `UpdateRole` and `RoleNameByID`.
use shop_mall.Common.Base.{
  ℕ, Bool, not, ◌&&◌, ◌||◌, Option, none, some, List, [], ◌∷◌, ltb, ◌==◌, if◌then◌else◌, is_some,
}
use shop_mall.Common.Table.{any, find_by, update_by}
use shop_mall.Common.Text.{Text, byte_len, trim_space, is_blank, text_eq}
use shop_mall.Database.Rows.{is_zero, Json, text, texts, Role}
use shop_mall.Database.Store.{
  Error, Result, ok, err, Action, pure, raise, or_raise, ◌>>=◌, ◌>>◌, commit,
}
use Prim.Native.String.{String}
use shop_mall.Audit.{write}
use shop_mall.Admin.Permissions.{
  role_key, lift, role_permissions_of, normalize_permission_codes, replace_role_permissions,
}
use shop_mall.Admin.Accounts.{admin_audit}

-- `CreateRoleInput`
pub record CreateRoleInput : Type 0 where
  pub actor_admin_id : ℕ
  pub actor_role : Text
  pub name : Text
  pub permissions : List Text

-- `CreateRoleResult` and `UpdateRoleResult`, which have the same fields.
pub record RoleResult : Type 0 where
  pub id : ℕ
  pub name : Text
  pub permissions : List Text

-- `UpdateRoleInput`
pub record UpdateRoleInput : Type 0 where
  pub actor_admin_id : ℕ
  pub actor_role : Text
  pub role_id : ℕ
  pub name : Option Text
  pub permissions : Option (List Text)

-- A trimmed name of 1 to 32 bytes.
unfoldable pub valid_role_name : Text → Bool
valid_role_name name = not (is_blank name || ltb 32 (byte_len name))

-- The images of an audit row.
unfoldable pub role_data : Text → List Text → List (String × Json)
role_data name permissions = ("name", text name) ∷ ("permissions", texts permissions) ∷ []

-- The permissions that an update is to leave.
unfoldable pub target_permissions : Option (List Text) → List Text → Result (List Text)
target_permissions none before = ok before
target_permissions (some codes) before = normalize_permission_codes codes

module _ {H : Type 0} where
  -- INSERT INTO roles.
  unfoldable pub insert_role : ℕ → Text → Action H (Unit {0})
  insert_role id name db =
      if any (λ r. r.id == id || text_eq r.name name) db.roles
      then (err Error.role_exists, db)
      else (ok tt, record db { roles = record { id = id; name = name; remark = [] } ∷ db.roles })

  -- The transaction of `CreateRole`.
  unfoldable pub plant_role : ℕ → CreateRoleInput → Text → List Text → Action H RoleResult
  plant_role id input name permissions = do
    insert_role id name
    replace_role_permissions id permissions
    write (
        admin_audit (some input.actor_admin_id) input.actor_role "role.create" "role" (some id) []
          (role_data name permissions))
    pure (record { id = id; name = name; permissions = permissions })

  -- `CreateRole`, with the identifier of the new row.
  unfoldable pub create_role : ℕ → CreateRoleInput → Action H RoleResult
  create_role id input =
      if not (valid_role_name (trim_space input.name))
      then raise Error.invalid_role_name
      else elim (normalize_permission_codes input.permissions) [
        | err e ↦ raise e
        | ok permissions ↦ commit (plant_role id input (trim_space input.name) permissions)
      ]

  -- SELECT … FROM roles WHERE id = …
  unfoldable pub read_role : ℕ → Error → Action H Role
  read_role id missing db = or_raise (find_by role_key id db.roles) missing db

  -- The name that an update is to leave, tested against the other roles.
  unfoldable pub target_name : Option Text → Role → Action H Text
  target_name none role db = (ok role.name, db)
  target_name (some given) role db =
      let name = trim_space given in
      if not (valid_role_name name)
      then (err Error.invalid_role_name, db)
      else if any (λ r. text_eq r.name name && not (r.id == role.id)) db.roles
      then (err Error.role_exists, db)
      else (ok name, db)

  -- UPDATE roles SET name = …, where the name is another one.
  unfoldable pub rename_role : Role → Text → Action H (Unit {0})
  rename_role role name db = if text_eq name role.name then (ok tt, db) else (
    ok tt,
    record db { roles = update_by role_key role.id (λ r. record r { name = name }) db.roles },
  )

  -- The new permissions, where they are given.
  unfoldable pub replace_if_given : Option (List Text) → ℕ → List Text → Action H (Unit {0})
  replace_if_given none id codes db = (ok tt, db)
  replace_if_given (some given) id codes db = replace_role_permissions id codes db

  -- The transaction of `UpdateRole`.
  unfoldable pub change_role : UpdateRoleInput → Action H RoleResult
  change_role input = do
    role ← read_role input.role_id Error.role_not_found
    before ← role_permissions_of role.id
    name ← target_name input.name role
    permissions ← lift (target_permissions input.permissions before)
    rename_role role name
    replace_if_given input.permissions role.id permissions
    write (
        admin_audit (some input.actor_admin_id) input.actor_role "role.update" "role" (some role.id)
          (role_data role.name before) (role_data name permissions))
    pure (record { id = role.id; name = name; permissions = permissions })

  -- `UpdateRole`
  unfoldable pub update_role : UpdateRoleInput → Action H RoleResult
  update_role input =
      if not (is_some input.name || is_some input.permissions)
      then raise Error.role_update_empty
      else if is_zero input.role_id
      then raise Error.role_not_found
      else commit (change_role input)

  -- `RoleNameByID`
  unfoldable pub role_name_by_id : ℕ → Action H Text
  role_name_by_id id =
      if is_zero id
      then raise Error.unknown_role
      else (read_role id Error.unknown_role >>= λ r. pure r.name)
