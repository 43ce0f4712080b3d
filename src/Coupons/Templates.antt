-- ===== src/Coupons/Templates.antt =====
-- internal/coupon/service.go: the creation of a template and the switch of its status. The times of
-- an audit row are numbers, before they are printed.
use shop_mall.Common.Base.{
  ℕ, Bool, not, ◌&&◌, Option, none, some, List, [], ◌∷◌, ltb, ◌==◌, if◌then◌else◌,
}
use shop_mall.Common.Int.{ℤ, pos, pos_part, ltb_ℤ}
use shop_mall.Common.Table.{any, find_by, update_by}
use shop_mall.Common.Text.{Text, rune_count, trim_space, text_eq}
use shop_mall.Database.Rows.{
  is_zero, Json, num, str, text, AuditLog, CouponTemplateStatus, active, halted, CouponTemplate,
}
use shop_mall.Database.Store.{
  Error, ok, err, Action, pure, raise, modify, or_raise, ◌>>=◌, ◌>>◌, commit,
}
use Prim.Native.String.{String}
use shop_mall.Audit.{write}

-- `Actor`
pub record Actor : Type 0 where
  pub admin_id : ℕ
  pub role_name : Text

-- `TemplateInput`
pub record TemplateInput : Type 0 where
  pub name : Text
  pub threshold_points : ℤ
  pub discount_points : ℤ
  pub total_count : ℤ
  pub per_user_limit : ℤ
  pub valid_from : ℕ
  pub valid_until : ℕ

-- `TemplateView`
pub record TemplateView : Type 0 where
  pub id : ℕ
  pub name : Text
  pub threshold_points : ℕ
  pub discount_points : ℕ
  pub total_count : ℕ
  pub per_user_limit : ℕ
  pub received_count : ℕ
  pub valid_from : ℕ
  pub valid_until : ℕ
  pub status : CouponTemplateStatus

abbrev pub template_key : CouponTemplate → ℕ
template_key t = t.id

-- `toTemplateView`
unfoldable pub to_template_view : CouponTemplate → TemplateView
to_template_view t = record {
  id = t.id;
  name = t.name;
  threshold_points = t.threshold_points;
  discount_points = t.discount_points;
  total_count = t.total_count;
  per_user_limit = t.per_user_limit;
  received_count = t.received_count;
  valid_from = t.valid_from;
  valid_until = t.valid_until;
  status = t.status;
}

-- `validateTemplateRules`
unfoldable pub valid_template_rules : TemplateInput → Bool
valid_template_rules input =
    ltb_ℤ (pos 0) input.threshold_points
    && ltb_ℤ (pos 0) input.discount_points
    && ltb_ℤ input.discount_points input.threshold_points
    && ltb_ℤ (pos 0) input.total_count
    && ltb_ℤ (pos 0) input.per_user_limit
    && ltb input.valid_from input.valid_until

abbrev pub template_status_text : CouponTemplateStatus → String
template_status_text active = "active"
template_status_text halted = "halted"

-- `isIssuanceStatus`, of the text of a status.
unfoldable pub issuance_status : Text → Option CouponTemplateStatus
issuance_status status =
    if text_eq status (97 ∷ 99 ∷ 116 ∷ 105 ∷ 118 ∷ 101 ∷ [])
    then some active
    else if text_eq status (104 ∷ 97 ∷ 108 ∷ 116 ∷ 101 ∷ 100 ∷ [])
    then some halted
    else none

-- `templateAuditData`
unfoldable pub template_audit_data : CouponTemplate → List (String × Json)
template_audit_data t =
    ("name", text t.name)
    ∷ ("threshold_points", num (pos t.threshold_points))
    ∷ ("discount_points", num (pos t.discount_points))
    ∷ ("total_count", num (pos t.total_count))
    ∷ ("per_user_limit", num (pos t.per_user_limit))
    ∷ ("valid_from", num (pos t.valid_from))
    ∷ ("valid_until", num (pos t.valid_until))
    ∷ ("status", str (template_status_text t.status))
    ∷ []

-- The row of a new template; the rules have been tested, so that no number is negative.
unfoldable pub template_row : ℕ → TemplateInput → CouponTemplate
template_row id input = record {
  id = id;
  name = trim_space input.name;
  threshold_points = pos_part input.threshold_points;
  discount_points = pos_part input.discount_points;
  total_count = pos_part input.total_count;
  per_user_limit = pos_part input.per_user_limit;
  received_count = 0;
  valid_from = input.valid_from;
  valid_until = input.valid_until;
  status = active;
}

abbrev pub set_template_state : CouponTemplateStatus → CouponTemplate → CouponTemplate
set_template_state s t = record t { status = s }

-- The audit row of a write.
unfoldable pub template_audit :
    Actor → String → ℕ → List (String × Json) → List (String × Json) → AuditLog
template_audit actor action id before after = record {
  actor_admin_id = some actor.admin_id;
  actor_role = actor.role_name;
  action = action;
  target_type = "coupon_template";
  target_id = some id;
  result = "success";
  before_data = before;
  after_data = after;
}

module _ {H : Type 0} where
  -- INSERT INTO coupon_templates: a name of more than 64 characters is refused.
  unfoldable pub insert_template : CouponTemplate → Action H (Unit {0})
  insert_template t db =
      if ltb 64 (rune_count t.name)
      then (err Error.value_too_long, db)
      else if any (λ r. r.id == t.id) db.coupon_templates
      then (err Error.unique_violation, db)
      else (ok tt, record db { coupon_templates = t ∷ db.coupon_templates })

  -- The transaction of `CreateTemplate`.
  unfoldable pub add_template : Actor → CouponTemplate → Action H TemplateView
  add_template actor t = do
    insert_template t
    write (template_audit actor "coupon_template.create" t.id [] (template_audit_data t))
    pure (to_template_view t)

  -- `CreateTemplate`, with the identifier of the new row.
  unfoldable pub create_template : ℕ → Actor → TemplateInput → Action H TemplateView
  create_template id actor input =
      if not (valid_template_rules input)
      then raise Error.invalid_template
      else commit (add_template actor (template_row id input))

  -- SELECT … FROM coupon_templates WHERE id = …
  unfoldable pub read_template : ℕ → Error → Action H CouponTemplate
  read_template id missing db = or_raise (find_by template_key id db.coupon_templates) missing db

  -- UPDATE coupon_templates SET status = … WHERE id = …
  unfoldable pub store_status : ℕ → CouponTemplateStatus → Action H (Unit {0})
  store_status id s = modify (λ db. record db {
    coupon_templates = update_by template_key id (set_template_state s) db.coupon_templates;
  })

  -- The transaction of `SetTemplateStatus`.
  unfoldable pub switch_status : Actor → ℕ → CouponTemplateStatus → Action H TemplateView
  switch_status actor id s = do
    current ← read_template id Error.template_not_found
    store_status id s
    updated ← read_template id Error.record_not_found
    write (
        template_audit actor "coupon_template.status_change" id (template_audit_data current)
          (template_audit_data updated))
    pure (to_template_view updated)

  -- The switch to a status that a template may hold.
  unfoldable pub switch_to : Actor → ℕ → Option CouponTemplateStatus → Action H TemplateView
  switch_to actor id none = raise Error.invalid_template
  switch_to actor id (some s) = commit (switch_status actor id s)

  -- `SetTemplateStatus`
  unfoldable pub set_template_status : Actor → ℕ → Text → Action H TemplateView
  set_template_status actor id status =
      if is_zero id
      then raise Error.template_not_found
      else switch_to actor id (issuance_status status)
