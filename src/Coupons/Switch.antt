-- ===== src/Coupons/Switch.antt =====
-- The switch of a template's status in internal/coupon/service.go, with its audit row.
use shop_mall.Common.Base.{ℕ, ◌≡◌, refl, inl, inr, none, some, ◌∷◌, arith, Bool-cases, Option-cases}
use shop_mall.Common.Table.{find_by, update_by, find_by-update_by}
use shop_mall.Common.Text.{Text}
use shop_mall.Database.Rows.{is_zero, CouponTemplateStatus, CouponTemplate}
use shop_mall.Database.Store.{Db, Error, Result, ok, err, commit}
use shop_mall.Audit.{write}
use shop_mall.Coupons.Templates.{
  Actor, TemplateView, template_key, to_template_view, template_audit, template_audit_data,
  issuance_status, set_template_state, read_template, store_status, switch_status, switch_to,
  set_template_status,
}

-- How a switch ends: an error with no change, or the row with the status that the text names, and one
-- audit row with its image before and after.
abbrev pub Switched : {H : Type 0} → Db H → Actor → ℕ → Text → Result TemplateView × Db H → Type 0
Switched db actor id status (err e, db') = db' ≡ db
Switched db actor id status (ok view, db') =
    (t : CouponTemplate) × (s : CouponTemplateStatus) × (find_by template_key id db.coupon_templates
      ≡ some t)
    × (issuance_status status ≡ some s)
    × (view ≡ to_template_view (set_template_state s t))
    × (db' ≡ record db {
      coupon_templates = update_by template_key id (set_template_state s) db.coupon_templates;
      audit_logs =
          template_audit actor "coupon_template.status_change" id (template_audit_data t)
            (template_audit_data (set_template_state s t))
          ∷ db.audit_logs;
    })

module _ {H : Type 0} where
  switch_status-missing :
      (actor : Actor) (id : ℕ) (s : CouponTemplateStatus) (db : Db H)
      → find_by template_key id db.coupon_templates ≡ none
      → commit (switch_status actor id s) db ≡ (err Error.template_not_found, db)
  unfolding switch_status read_template
  switch_status-missing actor id s db h = ground arith

  switch_status-found :
      (actor : Actor) (id : ℕ) (s : CouponTemplateStatus) (db : Db H) (t : CouponTemplate)
      → find_by template_key id db.coupon_templates ≡ some t
      → commit (switch_status actor id s) db ≡ (
        ok (to_template_view (set_template_state s t)),
        record db {
          coupon_templates = update_by template_key id (set_template_state s) db.coupon_templates;
          audit_logs =
              template_audit actor "coupon_template.status_change" id
                (template_audit_data t)
                (template_audit_data (set_template_state s t))
              ∷ db.audit_logs;
        },
      )
  unfolding switch_status read_template store_status write
  switch_status-found actor id s db t h =
      let law =
        find_by-update_by template_key id id (set_template_state s) db.coupon_templates
          (λ r. refl) in
      let now : find_by template_key id
            (update_by template_key id (set_template_state s) db.coupon_templates)
          ≡ some (set_template_state s t) =
        ground (arith, law, h) in
      ground (arith, h, now)

  -- Every switch of a status either fails and changes no table, or finds the template and rewrites
  -- exactly the status of exactly that row, to the one that the text names, tells the row as it then
  -- is, and writes one audit row with its image before and after.
  pub set_template_status-Switched :
      (actor : Actor) (id : ℕ) (status : Text) (db : Db H)
      → Switched db actor id status (set_template_status actor id status db)
  unfolding set_template_status switch_to
  set_template_status-Switched actor id status db = elim (Bool-cases (is_zero id)) [
    | inl bad ↦ rw bad refl
    | inr good ↦ elim (Option-cases (issuance_status status)) [
      | inl unknown ↦ rw (good, unknown) refl
      | inr (s, known) ↦ elim (Option-cases (find_by template_key id db.coupon_templates)) [
        | inl missing ↦ rw (good, known, switch_status-missing actor id s db missing) refl
        | inr (t, found) ↦
            rw (good, known, switch_status-found actor id s db t found)
              (t, s, found, known, refl, refl)
      ]
    ]
  ]
