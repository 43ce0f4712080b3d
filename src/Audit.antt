-- ===== src/Audit.antt =====
-- internal/platform/audit/audit.go, and the two helpers that every usecase repeats around it:
-- `resolveRole` and `recordFailure`.
use shop_mall.Common.Base.{ℕ, ◌≡◌, Option, none, some, List, [], ◌∷◌, arith, if◌then◌else◌}
use Prim.Native.String.{String}
use shop_mall.Common.Text.{Text, trim_space, is_blank}
use shop_mall.Database.Rows.{Json, AuditLog}
use shop_mall.Database.Store.{Db, Error, Result, ok, err, Action, commit}

-- `Write`: the row goes to the end of the append-only table; its payloads always marshal.
unfoldable pub write : {H : Type 0} → AuditLog → Action H (Unit {0})
write entry db = (ok tt, record db { audit_logs = entry ∷ db.audit_logs })

-- A `RoleResolver`: nil, or the role name that `FindByID` of the admin service gives.
abbrev pub RoleResolver : Type 0
RoleResolver = Option (ℕ → Result Text)

-- "admin"
abbrev pub default_role : Text
default_role = 97 ∷ 100 ∷ 109 ∷ 105 ∷ 110 ∷ []

-- `sameOr`
unfoldable pub same_or : Text → Text → Text
same_or value fallback = if is_blank (trim_space value) then fallback else value

-- The role name that `resolveRole` gives for what `FindByID` returned.
unfoldable pub named_role : Result Text → Result Text
unfolding same_or
named_role (ok name) = ok (same_or name default_role)
named_role (err e) = err e

-- `resolveRole`
unfoldable pub resolve_role : RoleResolver → ℕ → Result Text
unfolding named_role
resolve_role none admin_id = ok default_role
resolve_role (some find_by_id) admin_id = named_role (find_by_id admin_id)

-- `Error()`, of the errors that a failure row names.
abbrev pub error_text : Error → String
error_text Error.insufficient_points = "insufficient points"
error_text Error.user_not_found = "user not found"
error_text Error.idempotency_conflict = "idempotency key replay conflict"
error_text Error.order_state_conflict = "order is not in the required state"
error_text _ = ""

-- The part of a usecase that may fail with an error of another package, with the error renamed.
abbrev pub map_err : {H A : Type 0} → (Error → Error) → Action H A → Action H A
map_err f m db = let (r, db') = m db in elim r [ ok a ↦ (ok a, db') | err e ↦ (err (f e), db') ]

-- `recordFailure`: a row in a transaction of its own, whose error is only logged.
unfoldable pub record_failure :
    {H : Type 0} → ℕ → Text → String → String → ℕ → List (String × Json) → Db H → Db H
unfolding write same_or
record_failure admin_id role action target_type target_id after db =
    (commit
      (write (record {
        actor_admin_id = some admin_id;
        actor_role = same_or role default_role;
        action = action;
        target_type = target_type;
        target_id = some target_id;
        result = "failure";
        before_data = [];
        after_data = after;
      }))
      db).1

pub map_err-eq-ok :
    {H A : Type 0} (f : Error → Error) (m : Action H A) (db : Db H) (a : A) (db' : Db H)
    → map_err f m db ≡ (ok a, db')
    → m db ≡ (ok a, db')
map_err-eq-ok f m db a db' h = ground arith
