-- ===== src/Admin/Tokens.antt =====
-- Runs of the calls of internal/admin/service.go, and the tokens that they supersede.
use shop_mall.Common.Base.{
  ℕ, ◌+◌, ◌≤◌, ◌<◌, ◌≡◌, refl, sym, ap, ◌∙◌, ◌≢◌, Bool, true, false, Option, some, List, arith,
}
use shop_mall.Common.Table.{find_by, update_by, key-find_by, find_by-update_by}
use shop_mall.Common.Text.{Text}
use shop_mall.Database.Rows.{AdminUser}
use shop_mall.Database.Store.{Db, ok, undisturbed, commit-eq-ok}
use shop_mall.Limits.Login.{LoginRateLimiter}
use shop_mall.Admin.Names.{Classes}
use shop_mall.Admin.Hashing.{Argon}
use shop_mall.Admin.Accounts.{
  admin_key, Env, AccountResult, BootstrapInput, ChangePasswordInput, UpdateAdminInput,
  UpdateAdminResult, AssignRoleInput, write_enabled, read_admin, close_sessions, logout,
  update_account, update_admin, assign_role, is_token_version_current, change_password_in,
  bootstrap_administrator, change_password,
}
use shop_mall.Admin.Login.{AuthenticateInput, Signer, authenticate}
use shop_mall.Admin.Roles.{CreateRoleInput, UpdateRoleInput, create_role, update_role}
use shop_mall.Admin.Versions.{
  VersionsGrow, VersionsGrow-refl, VersionsGrow-trans, same_admin_row, close_sessions-eq-ok,
  update_account-eq-ok, store_password-eq-ok,
}
use shop_mall.Admin.Steps.{
  logout-Grows, update_admin-Grows, assign_role-Grows, write_enabled_id, create_role-Grows,
  update_role-Grows,
}
use shop_mall.Admin.Revocation.{
  bootstrap-Grows, authenticate-Grows, change_password-Grows, change_password_in-eq-ok,
}

-- The row that was read, rewritten with a later version.
raised :
    (id : ℕ) (f : AdminUser → AdminUser) (before later : List AdminUser) (a r : AdminUser)
    → find_by admin_key id before ≡ some a
    → find_by admin_key id before ≡ some r
    → r.token_version < (f r).token_version
    → ((x : AdminUser) → (f x).id ≡ x.id)
    → later ≡ update_by admin_key r.id f before
    → (b : AdminUser) × (find_by admin_key id later ≡ some b) × (a.token_version < b.token_version)
raised id f before later a r found there lt keeps e =
    let named : r.id ≡ id = key-find_by admin_key id before there in
    let moved : later ≡ update_by admin_key id f before =
      e ∙ ap (λ k. update_by admin_key k f before) named in
    let law = find_by-update_by admin_key id id f before keeps in
    let who : a ≡ r = same_admin_row (sym found ∙ there) in
    let now : find_by admin_key id (update_by admin_key id f before) ≡ some (f r) =
      ground (arith, law, there) in
    (f r, rw moved now, rw who lt)

write_enabled_later :
    (given : Option Bool) (a r : AdminUser)
    → given ≡ some false
    → a ≡ r
    → a.enabled ≡ true
    → r.token_version < (write_enabled given r r).token_version
unfolding write_enabled
write_enabled_later given a r off same on =
    let still : r.enabled ≡ true = ap (λ x. x.enabled) (sym same) ∙ on in rw off (ground arith)

-- A token of an earlier version than the row's is not current.
stale :
    {H : Type 0} (id w : ℕ) (db : Db H) (b : AdminUser)
    → find_by admin_key id db.admin_users ≡ some b
    → w < b.token_version
    → (is_token_version_current id w db).0 ≢ ok true
unfolding is_token_version_current read_admin
stale id w db b found lt h = ground arith

module _ {H : Type 0} (argon : Argon) (classes : Classes) where
  -- What the administrators can do, one call after another, with whatever outcomes: each call ends
  -- before the next begins.
  pub data AdminSteps : Db H → Db H → Type 0 where
    unchanged : {db : Db H} → AdminSteps db db
    bootstraps :
        {db mid : Db H} (env : Env) (input : BootstrapInput)
        → AdminSteps db mid
        → AdminSteps db (bootstrap_administrator argon classes env input mid).1
    logs_in :
        {db mid : Db H} (to_lower : Text → Text) (issue : Signer) (now : ℕ)
        (limiter : Option LoginRateLimiter) (input : AuthenticateInput)
        → AdminSteps db mid
        → AdminSteps db (authenticate to_lower argon issue now limiter input mid).0.1
    logs_out :
        {db mid : Db H} (subject : Text) (id : ℕ)
        → AdminSteps db mid
        → AdminSteps db (logout undisturbed subject id mid).1
    changes_password :
        {db mid : Db H} (env : Env) (input : ChangePasswordInput)
        → AdminSteps db mid
        → AdminSteps db (change_password argon classes env undisturbed input mid).1
    updates_admin :
        {db mid : Db H} (input : UpdateAdminInput)
        → AdminSteps db mid
        → AdminSteps db (update_admin undisturbed input mid).1
    assigns_role :
        {db mid : Db H} (input : AssignRoleInput)
        → AdminSteps db mid
        → AdminSteps db (assign_role input mid).1
    creates_role :
        {db mid : Db H} (id : ℕ) (input : CreateRoleInput)
        → AdminSteps db mid
        → AdminSteps db (create_role id input mid).1
    updates_role :
        {db mid : Db H} (input : UpdateRoleInput)
        → AdminSteps db mid
        → AdminSteps db (update_role input mid).1

  grown :
      (db mid last : Db H)
      → VersionsGrow db.admin_users mid.admin_users
      → VersionsGrow mid.admin_users last.admin_users
      → VersionsGrow db.admin_users last.admin_users
  grown db mid last = VersionsGrow-trans db.admin_users mid.admin_users last.admin_users

  pub AdminSteps-VersionsGrow :
      (db db' : Db H) → AdminSteps db db' → VersionsGrow db.admin_users db'.admin_users
  AdminSteps-VersionsGrow db _ unchanged = VersionsGrow-refl db.admin_users
  AdminSteps-VersionsGrow db _ (bootstraps {mid = mid} env input steps) =
      grown db mid (bootstrap_administrator argon classes env input mid).1
        (AdminSteps-VersionsGrow db mid steps) (bootstrap-Grows argon classes env input mid)
  AdminSteps-VersionsGrow db _ (logs_in {mid = mid} to_lower issue now limiter input steps) =
      grown db mid (authenticate to_lower argon issue now limiter input mid).0.1
        (AdminSteps-VersionsGrow db mid steps)
        (authenticate-Grows argon to_lower issue now limiter input mid)
  AdminSteps-VersionsGrow db _ (logs_out {mid = mid} subject id steps) =
      grown db mid (logout undisturbed subject id mid).1 (AdminSteps-VersionsGrow db mid steps)
        (logout-Grows subject id mid)
  AdminSteps-VersionsGrow db _ (changes_password {mid = mid} env input steps) =
      grown db mid (change_password argon classes env undisturbed input mid).1
        (AdminSteps-VersionsGrow db mid steps) (change_password-Grows argon classes env input mid)
  AdminSteps-VersionsGrow db _ (updates_admin {mid = mid} input steps) =
      grown db mid (update_admin undisturbed input mid).1 (AdminSteps-VersionsGrow db mid steps)
        (update_admin-Grows input mid)
  AdminSteps-VersionsGrow db _ (assigns_role {mid = mid} input steps) =
      grown db mid (assign_role input mid).1 (AdminSteps-VersionsGrow db mid steps)
        (assign_role-Grows input mid)
  AdminSteps-VersionsGrow db _ (creates_role {mid = mid} id input steps) =
      grown db mid (create_role id input mid).1 (AdminSteps-VersionsGrow db mid steps)
        (create_role-Grows id input mid)
  AdminSteps-VersionsGrow db _ (updates_role {mid = mid} input steps) =
      grown db mid (update_role input mid).1 (AdminSteps-VersionsGrow db mid steps)
        (update_role-Grows input mid)

  -- The calls that supersede the tokens of an account, each ended well, with the version that the
  -- account had before.
  pub data Supersedes : ℕ → ℕ → Db H → Db H → Type 0 where
    by_logout :
        {db mid : Db H} {a : AdminUser} (subject : Text) (id : ℕ)
        → find_by admin_key id db.admin_users ≡ some a
        → logout undisturbed subject id db ≡ (ok tt, mid)
        → Supersedes id a.token_version db mid
    by_password :
        {db mid : Db H} {a : AdminUser} (env : Env) (input : ChangePasswordInput)
        (out : AccountResult)
        → find_by admin_key input.actor_admin_id db.admin_users ≡ some a
        → change_password argon classes env undisturbed input db ≡ (ok out, mid)
        → Supersedes input.actor_admin_id a.token_version db mid
    by_disabling :
        {db mid : Db H} {a : AdminUser} (input : UpdateAdminInput) (out : UpdateAdminResult)
        → find_by admin_key input.target_id db.admin_users ≡ some a
        → input.enabled ≡ some false
        → a.enabled ≡ true
        → update_admin undisturbed input db ≡ (ok out, mid)
        → Supersedes input.target_id a.token_version db mid

  update_admin-run :
      (input : UpdateAdminInput) (db : Db H) (out : UpdateAdminResult) (mid : Db H)
      → update_admin undisturbed input db ≡ (ok out, mid)
      → update_account undisturbed input db ≡ (ok out, mid)
  unfolding update_admin
  update_admin-run input db out mid h = ground arith

  change_password-run :
      (env : Env) (input : ChangePasswordInput) (db : Db H) (out : AccountResult) (mid : Db H)
      → change_password argon classes env undisturbed input db ≡ (ok out, mid)
      → change_password_in argon env undisturbed input db ≡ (ok out, mid)
  unfolding change_password
  change_password-run env input db out mid h = ground arith

  logout-run :
      (subject : Text) (id : ℕ) (db mid : Db H)
      → logout undisturbed subject id db ≡ (ok tt, mid)
      → close_sessions undisturbed subject id db ≡ (ok tt, mid)
  unfolding logout
  logout-run subject id db mid h = commit-eq-ok (close_sessions undisturbed subject id) db tt mid h

  -- The account then has a later version.
  Supersedes-later :
      (id v : ℕ) (db mid : Db H)
      → Supersedes id v db mid
      → (b : AdminUser) × (find_by admin_key id mid.admin_users ≡ some b) × (v < b.token_version)
  Supersedes-later _ _ db mid (by_logout {a = a} subject id found done) =
      let (r, there, left) =
        close_sessions-eq-ok subject id db mid (logout-run subject id db mid done) in
      raised id (λ old. (record old { token_version = r.token_version + 1 })) db.admin_users
        mid.admin_users a r found there (ground arith) (λ x. refl) left
  Supersedes-later _ _ db mid (by_password {a = a} env input out found done) =
      let (r, hash, there, on, right, run) =
        change_password_in-eq-ok argon env input db out mid
          (change_password-run env input db out mid done) in
      raised input.actor_admin_id
        (λ old. (record old { password_hash = hash; token_version = r.token_version + 1 }))
        db.admin_users mid.admin_users a r found there (ground arith) (λ x. refl)
        (store_password-eq-ok input r hash db out mid run)
  Supersedes-later _ _ db mid (by_disabling {a = a} input out found given on done) =
      let (r, there, left) =
        update_account-eq-ok input db out mid (update_admin-run input db out mid done) in
      raised input.target_id (write_enabled input.enabled r) db.admin_users mid.admin_users a r
        found there
        (write_enabled_later input.enabled a r given (same_admin_row (sym found ∙ there)) on)
        (write_enabled_id input.enabled r) left

  -- A token does not come back where no two calls overlap: once a logout, a password change or the
  -- disabling of an account has ended well and undisturbed, no version up to the one that the
  -- account had before is current, after whatever undisturbed calls of the administrators follow,
  -- one after another, with whatever outcomes.
  pub superseded_is_stale :
      (id v w : ℕ) (db mid last : Db H)
      → Supersedes id v db mid
      → AdminSteps mid last
      → w ≤ v
      → (is_token_version_current id w last).0 ≢ ok true
  superseded_is_stale id v w db mid last ended steps le =
      let (b, found, later) = Supersedes-later id v db mid ended in
      let (c, there, grew) = AdminSteps-VersionsGrow mid last steps id b found in
      stale id w last c there (omega (arith, le, later, grew))
