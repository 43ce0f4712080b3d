-- ===== src/Admin/Steps.antt =====
-- The roles of internal/admin/service.go leave the accounts alone, and each call on the accounts
-- keeps their versions from falling.
use shop_mall.Common.Base.{
  ℕ, ◌+◌, ◌≤◌, ◌≡◌, refl, ap, ◌∙◌, ◌⊎◌, inl, inr, Bool, true, false, ◌||◌, Option, none, some, List,
  arith, Bool-cases, is_some,
}
use shop_mall.Common.Table.{find_by, update_by, key-find_by}
use shop_mall.Common.Text.{Text, trim_space, is_blank}
use shop_mall.Database.Rows.{is_zero, AdminUser}
use shop_mall.Database.Store.{Db, Error, Result, ok, err, Action, commit, undisturbed}
use shop_mall.Audit.{write}
use shop_mall.Admin.Permissions.{
  role_permissions_of, normalize_permission_codes, replace_role_permissions,
}
use shop_mall.Admin.Accounts.{
  admin_key, UpdateAdminInput, AssignRoleInput, write_enabled, close_sessions, logout,
  update_account, update_admin, assign_role_in, assign_role,
}
use shop_mall.Database.Store.{commit-keeps}
use shop_mall.Admin.Permissions.{insert_rows}
use shop_mall.Admin.Roles.{
  CreateRoleInput, UpdateRoleInput, RoleResult, insert_role, plant_role, create_role, read_role,
  target_name, rename_role, replace_if_given, change_role, update_role, valid_role_name,
}
use shop_mall.Admin.Versions.{
  VersionsGrow, VersionsGrow-refl, update_by-VersionsGrow, close_sessions-eq-ok,
  update_account-eq-ok, assign_role_in-eq-ok,
}

write_enabled_grows :
    (given : Option Bool) (a : AdminUser)
    → a.token_version ≤ (write_enabled given a a).token_version
unfolding write_enabled
write_enabled_grows none a = ground arith
write_enabled_grows (some true) a = ground arith
write_enabled_grows (some false) a = ground arith

pub write_enabled_id :
    (given : Option Bool) (a old : AdminUser) → (write_enabled given a old).id ≡ old.id
unfolding write_enabled
write_enabled_id none a old = refl
write_enabled_id (some true) a old = ground arith
write_enabled_id (some false) a old = ground arith

normalized :
    (out : Result (List Text))
    → ((e : Error) × (out ≡ err e)) ⊎ ((codes : List Text) × (out ≡ ok codes))
normalized (ok codes) = inr (codes, refl)
normalized (err e) = inl (e, refl)

-- Rows that are as they were, or as a rewrite of the row that was read has left them.
pub kept-Grows : {before later : List AdminUser} → later ≡ before → VersionsGrow before later
kept-Grows {before} e = rw e (VersionsGrow-refl before)

pub written-Grows :
    (id : ℕ) (f : AdminUser → AdminUser) (before later : List AdminUser) (a : AdminUser)
    → find_by admin_key id before ≡ some a
    → a.token_version ≤ (f a).token_version
    → ((r : AdminUser) → (f r).id ≡ r.id)
    → later ≡ update_by admin_key a.id f before
    → VersionsGrow before later
written-Grows id f before later a found le keeps e =
    let named : a.id ≡ id = key-find_by admin_key id before found in
    let moved : later ≡ update_by admin_key id f before =
      e ∙ ap (λ k. update_by admin_key k f before) named in
    rw moved (update_by-VersionsGrow id f before a found le keeps)

module _ {H : Type 0} where
  replace-eq-ok :
      (id : ℕ) (codes : List Text) (db : Db H) (db' : Db H)
      → replace_role_permissions id codes db ≡ (ok tt, db')
      → db'.admin_users ≡ db.admin_users
  unfolding replace_role_permissions insert_rows
  replace-eq-ok id codes db db' h = ground arith

  plant_role-eq-ok :
      (id : ℕ) (input : CreateRoleInput) (name : Text) (codes : List Text) (db : Db H)
      (out : RoleResult) (db' : Db H)
      → plant_role id input name codes db ≡ (ok out, db')
      → db'.admin_users ≡ db.admin_users
  unfolding plant_role insert_role write replace_role_permissions insert_rows
  plant_role-eq-ok id input name codes db out db' h = ground arith

  change_role-eq-ok :
      (input : UpdateRoleInput) (db : Db H) (out : RoleResult) (db' : Db H)
      → change_role input db ≡ (ok out, db')
      → db'.admin_users ≡ db.admin_users
  unfolding change_role read_role role_permissions_of target_name rename_role replace_if_given
      replace_role_permissions insert_rows write
  change_role-eq-ok input db out db' h = ground arith

  -- A transaction that, where it ends well, lets the versions grow.
  pub commit-Grows :
      {A : Type 0} (body : Action H A) (db : Db H)
      → ((a : A) (d : Db H) → body db ≡ (ok a, d) → VersionsGrow db.admin_users d.admin_users)
      → VersionsGrow db.admin_users (commit body db).1.admin_users
  commit-Grows body db grows =
      commit-keeps (λ d. VersionsGrow db.admin_users d.admin_users) body db grows
        (VersionsGrow-refl db.admin_users)

  pub logout-Grows :
      (subject : Text) (id : ℕ) (db : Db H)
      → VersionsGrow db.admin_users (logout undisturbed subject id db).1.admin_users
  unfolding logout
  logout-Grows subject id db = commit-Grows (close_sessions undisturbed subject id) db (λ u d done.
      (let (a, found, left) = close_sessions-eq-ok subject id db d done in
        written-Grows id (λ old. (record old { token_version = a.token_version + 1 }))
          db.admin_users d.admin_users a found (ground arith) (λ r. refl) left))

  pub update_admin-Grows :
      (input : UpdateAdminInput) (db : Db H)
      → VersionsGrow db.admin_users (update_admin undisturbed input db).1.admin_users
  unfolding update_admin
  update_admin-Grows input db =
      elim (Bool-cases (is_zero input.actor_admin_id || is_zero input.target_id)) [
        | inl bad ↦ rw bad (VersionsGrow-refl db.admin_users)
        | inr good ↦ rw good (
            commit-Grows (update_account undisturbed input) db (λ out d done.
              (let (a, found, left) = update_account-eq-ok input db out d done in
                written-Grows input.target_id (write_enabled input.enabled a) db.admin_users
                  d.admin_users a found (write_enabled_grows input.enabled a)
                  (write_enabled_id input.enabled a) left)))
      ]

  pub assign_role-Grows :
      (input : AssignRoleInput) (db : Db H)
      → VersionsGrow db.admin_users (assign_role input db).1.admin_users
  unfolding assign_role
  assign_role-Grows input db =
      elim (Bool-cases (is_zero input.actor_admin_id || is_zero input.target_id)) [
        | inl bad ↦ rw bad (VersionsGrow-refl db.admin_users)
        | inr good ↦ elim (Bool-cases (is_blank (trim_space input.new_role_name))) [
          | inl blank ↦ rw (good, blank) (VersionsGrow-refl db.admin_users)
          | inr filled ↦
              rw (good, filled)
                (commit-Grows (assign_role_in input) db (λ out d done.
                  (let (a, role, found, left) = assign_role_in-eq-ok input db out d done in
                    written-Grows input.target_id (λ old. (record old { role_id = role.id }))
                      db.admin_users d.admin_users a found (ground arith) (λ r. refl) left)))
        ]
      ]

  pub create_role-Grows :
      (id : ℕ) (input : CreateRoleInput) (db : Db H)
      → VersionsGrow db.admin_users (create_role id input db).1.admin_users
  unfolding create_role
  create_role-Grows id input db = elim (Bool-cases (valid_role_name (trim_space input.name))) [
    | inl good ↦ elim (normalized (normalize_permission_codes input.permissions)) [
      | inl (e, refused) ↦ rw (good, refused) (VersionsGrow-refl db.admin_users)
      | inr (codes, known) ↦
          rw (good, known)
            (commit-Grows (plant_role id input (trim_space input.name) codes) db (λ out d done.
              (kept-Grows (plant_role-eq-ok id input (trim_space input.name) codes db out d done))))
    ]
    | inr bad ↦ rw bad (VersionsGrow-refl db.admin_users)
  ]

  pub update_role-Grows :
      (input : UpdateRoleInput) (db : Db H)
      → VersionsGrow db.admin_users (update_role input db).1.admin_users
  unfolding update_role
  update_role-Grows input db = elim (Bool-cases (is_some input.name || is_some input.permissions)) [
    | inl given ↦ elim (Bool-cases (is_zero input.role_id)) [
      | inl bad ↦ rw (given, bad) (VersionsGrow-refl db.admin_users)
      | inr good ↦
          rw (given, good)
            (commit-Grows (change_role input) db
              (λ out d done. (kept-Grows (change_role-eq-ok input db out d done))))
    ]
    | inr empty ↦ rw empty (VersionsGrow-refl db.admin_users)
  ]
