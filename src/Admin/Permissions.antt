-- ===== src/Admin/Permissions.antt =====
-- internal/admin/service.go: the permission codes of a role, and what may become of them.
use shop_mall.Common.Base.{
  ℕ, Bool, true, false, not, ◌&&◌, ◌||◌, Option, none, some, List, [], ◌∷◌, ◌++◌, ◌==◌,
  if◌then◌else◌,
}
use shop_mall.Common.Table.{find, delete_where, any, order_by}
use shop_mall.Common.Text.{Text, trim_space, is_blank, text_eq}
use shop_mall.Database.Rows.{Role, Permission, RolePermission}
use shop_mall.Database.Store.{Db, Error, Result, ok, err, Action, guard}

-- "product:read"
abbrev pub product_read : Text
product_read = 112 ∷ 114 ∷ 111 ∷ 100 ∷ 117 ∷ 99 ∷ 116 ∷ 58 ∷ 114 ∷ 101 ∷ 97 ∷ 100 ∷ []

-- "product:write"
abbrev pub product_write : Text
product_write = 112 ∷ 114 ∷ 111 ∷ 100 ∷ 117 ∷ 99 ∷ 116 ∷ 58 ∷ 119 ∷ 114 ∷ 105 ∷ 116 ∷ 101 ∷ []

-- "image:write"
abbrev pub image_write : Text
image_write = 105 ∷ 109 ∷ 97 ∷ 103 ∷ 101 ∷ 58 ∷ 119 ∷ 114 ∷ 105 ∷ 116 ∷ 101 ∷ []

-- "order:read"
abbrev pub order_read : Text
order_read = 111 ∷ 114 ∷ 100 ∷ 101 ∷ 114 ∷ 58 ∷ 114 ∷ 101 ∷ 97 ∷ 100 ∷ []

-- "order:ship"
abbrev pub order_ship : Text
order_ship = 111 ∷ 114 ∷ 100 ∷ 101 ∷ 114 ∷ 58 ∷ 115 ∷ 104 ∷ 105 ∷ 112 ∷ []

-- "refund:read"
abbrev pub refund_read : Text
refund_read = 114 ∷ 101 ∷ 102 ∷ 117 ∷ 110 ∷ 100 ∷ 58 ∷ 114 ∷ 101 ∷ 97 ∷ 100 ∷ []

-- "refund:approve"
abbrev pub refund_approve : Text
refund_approve =
    114 ∷ 101 ∷ 102 ∷ 117 ∷ 110 ∷ 100 ∷ 58 ∷ 97 ∷ 112 ∷ 112 ∷ 114 ∷ 111 ∷ 118 ∷ 101 ∷ []

-- "points:adjust"
abbrev pub points_adjust : Text
points_adjust = 112 ∷ 111 ∷ 105 ∷ 110 ∷ 116 ∷ 115 ∷ 58 ∷ 97 ∷ 100 ∷ 106 ∷ 117 ∷ 115 ∷ 116 ∷ []

-- "role:manage"
abbrev pub role_manage : Text
role_manage = 114 ∷ 111 ∷ 108 ∷ 101 ∷ 58 ∷ 109 ∷ 97 ∷ 110 ∷ 97 ∷ 103 ∷ 101 ∷ []

-- "admin:self"
abbrev pub admin_self : Text
admin_self = 97 ∷ 100 ∷ 109 ∷ 105 ∷ 110 ∷ 58 ∷ 115 ∷ 101 ∷ 108 ∷ 102 ∷ []

-- "user:read"
abbrev pub user_read : Text
user_read = 117 ∷ 115 ∷ 101 ∷ 114 ∷ 58 ∷ 114 ∷ 101 ∷ 97 ∷ 100 ∷ []

-- "audit:read"
abbrev pub audit_read : Text
audit_read = 97 ∷ 117 ∷ 100 ∷ 105 ∷ 116 ∷ 58 ∷ 114 ∷ 101 ∷ 97 ∷ 100 ∷ []

-- "coupon:read"
abbrev pub coupon_read : Text
coupon_read = 99 ∷ 111 ∷ 117 ∷ 112 ∷ 111 ∷ 110 ∷ 58 ∷ 114 ∷ 101 ∷ 97 ∷ 100 ∷ []

-- "coupon:write"
abbrev pub coupon_write : Text
coupon_write = 99 ∷ 111 ∷ 117 ∷ 112 ∷ 111 ∷ 110 ∷ 58 ∷ 119 ∷ 114 ∷ 105 ∷ 116 ∷ 101 ∷ []

-- `seededPermissions`
abbrev pub seeded_permissions : List Text
seeded_permissions =
    product_read ∷ product_write ∷ image_write ∷ order_read ∷ order_ship ∷ refund_read
    ∷ refund_approve ∷ points_adjust ∷ role_manage ∷ admin_self ∷ user_read ∷ audit_read
    ∷ coupon_read ∷ coupon_write ∷ []

-- Membership in a set of strings.
abbrev pub has_text : Text → List Text → Bool
has_text s [] = false
has_text s (t ∷ ts) = text_eq s t || has_text s ts

unfoldable pub is_seeded : Text → Bool
is_seeded code = has_text code seeded_permissions

abbrev pub role_key : Role → ℕ
role_key r = r.id

abbrev pub permission_key : Permission → ℕ
permission_key p = p.id

-- Whether a role has a permission.
abbrev pub grants : ℕ → ℕ → RolePermission → Bool
grants role_id permission_id rp = rp.role_id == role_id && rp.permission_id == permission_id

-- Whether each code is seeded.
unfoldable pub all_seeded : List Text → Bool
unfolding is_seeded
all_seeded [] = true
all_seeded (code ∷ codes) = is_seeded code && all_seeded codes

-- The codes of the permissions that the join finds.
abbrev pub joined_codes : ℕ → List RolePermission → List Permission → List Text
joined_codes role_id rps [] = []
joined_codes role_id rps (p ∷ ps) =
    let rest = joined_codes role_id rps ps in
    if any (grants role_id p.id) rps then p.code ∷ rest else rest

-- SELECT p.code FROM permissions p JOIN role_permissions rp … WHERE rp.role_id = … ORDER BY p.id
unfoldable pub codes_of_role : {H : Type 0} → Db H → ℕ → List Text
codes_of_role db role_id =
    joined_codes role_id db.role_permissions (order_by permission_key db.permissions)

-- The loop of `rolePermissions`: the codes seen before are dropped, one that is not seeded is an
-- error.
unfoldable pub distinct_codes : List Text → List Text → Result (List Text)
unfolding is_seeded
distinct_codes [] seen = ok []
distinct_codes (code ∷ codes) seen = elim (is_seeded code) [
  | false ↦ err Error.unknown_permission
  | true ↦ elim (has_text code seen) [
    | true ↦ distinct_codes codes seen
    | false ↦ elim (distinct_codes codes (code ∷ seen)) [ ok out ↦ ok (code ∷ out) | err e ↦ err e ]
  ]
]

-- The loop of `normalizePermissionCodes`, which trims first and refuses a blank code.
unfoldable pub normalize_codes : List Text → List Text → Result (List Text)
unfolding is_seeded
normalize_codes [] seen = ok []
normalize_codes (raw ∷ codes) seen =
    let code = trim_space raw in
    elim (is_blank code || not (is_seeded code)) [
      | true ↦ err Error.unknown_permission
      | false ↦ elim (has_text code seen) [
        | true ↦ normalize_codes codes seen
        | false ↦ elim (normalize_codes codes (code ∷ seen)) [
          | ok out ↦ ok (code ∷ out)
          | err e ↦ err e
        ]
      ]
    ]

-- `normalizePermissionCodes`
unfoldable pub normalize_permission_codes : List Text → Result (List Text)
unfolding normalize_codes
normalize_permission_codes codes = normalize_codes codes []

-- The rows that `replaceRolePermissions` plants: `byCode`, for each code in turn.
unfoldable pub planted : ℕ → List Permission → List Text → Option (List RolePermission)
planted role_id permissions [] = some []
planted role_id permissions (code ∷ codes) = elim (find (λ p. text_eq p.code code) permissions) [
  | none ↦ none
  | some p ↦ elim (planted role_id permissions codes) [
    | none ↦ none
    | some rows ↦ some (record { role_id = role_id; permission_id = p.id } ∷ rows)
  ]
]

-- The primary key of role_permissions: no row twice.
abbrev pub no_duplicates : List RolePermission → Bool
no_duplicates [] = true
no_duplicates (rp ∷ rps) = not (any (grants rp.role_id rp.permission_id) rps) && no_duplicates rps

module _ {H : Type 0} where
  -- The answer of a loop that may fail, as an action.
  abbrev pub lift : {A : Type 0} → Result A → Action H A
  lift out db = (out, db)

  -- `rolePermissions`
  unfoldable pub role_permissions_of : ℕ → Action H (List Text)
  unfolding distinct_codes codes_of_role
  role_permissions_of role_id db = (distinct_codes (codes_of_role db role_id) [], db)

  -- `ensureAllPermissionsAreSeeded`
  unfoldable pub ensure_all_seeded : ℕ → Action H (Unit {0})
  unfolding codes_of_role all_seeded
  ensure_all_seeded role_id db =
      guard (all_seeded (codes_of_role db role_id)) Error.unknown_permission db

  -- The insert of the rows planted.
  unfoldable pub insert_rows : Option (List RolePermission) → Action H (Unit {0})
  insert_rows none db = (err Error.unknown_permission, db)
  insert_rows (some rows) db =
      if no_duplicates rows
      then (ok tt, record db { role_permissions = rows ++ db.role_permissions })
      else (err Error.unique_violation, db)

  -- `replaceRolePermissions`
  unfoldable pub replace_role_permissions : ℕ → List Text → Action H (Unit {0})
  unfolding insert_rows planted
  replace_role_permissions role_id codes db =
      insert_rows (planted role_id db.permissions codes) (record db {
        role_permissions = delete_where (λ rp. rp.role_id == role_id) db.role_permissions;
      })
