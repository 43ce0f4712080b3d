-- ===== src/Coupons/Rules.antt =====
-- The rules of the templates of internal/coupon/service.go: sound when they are made, frozen after.
use shop_mall.Common.Base.{
  ℕ, ◌≤◌, ◌<◌, ◌≡◌, refl, inl, inr, true, false, Option, none, some, List, [], ◌∷◌, arith, ◌==◌,
  Bool-cases, ==_iff,
}
use shop_mall.Common.Int.{ℤ, pos, negsuc, pos_part, ltb_ℤ}
use shop_mall.Common.Table.{any, find_by, update_by, find_by-update_by}
use shop_mall.Common.Text.{Text}
use shop_mall.Database.Rows.{is_zero, CouponTemplateStatus, CouponTemplate}
use shop_mall.Database.Store.{Db, ok}
use shop_mall.Database.Store.{commit-keeps}
use shop_mall.Audit.{write}
use shop_mall.Coupons.Templates.{
  Actor, TemplateInput, TemplateView, template_key, valid_template_rules, issuance_status,
  template_row, set_template_state, insert_template, add_template, create_template, read_template,
  store_status, switch_status, switch_to, set_template_status,
}

-- The rule constraints of a row.
abbrev pub IsFair : CouponTemplate → Type 0
IsFair t =
    (1 ≤ t.discount_points)
    × (t.discount_points < t.threshold_points)
    × (1 ≤ t.total_count)
    × (1 ≤ t.per_user_limit)
    × (t.received_count ≤ t.total_count)
    × (t.valid_from < t.valid_until)

abbrev pub AllFair : List CouponTemplate → Type 0
AllFair [] = Unit
AllFair (t ∷ ts) = (IsFair t) × AllFair ts

-- Each row is still there, with at most another status.
abbrev pub Frozen : List CouponTemplate → List CouponTemplate → Type 0
Frozen before later =
    (id : ℕ) (t : CouponTemplate)
    → find_by template_key id before ≡ some t
    → (s : CouponTemplateStatus) × (find_by template_key id later ≡ some (set_template_state s t))

abbrev pub Kept : List CouponTemplate → List CouponTemplate → Type 0
Kept before later = (AllFair before → AllFair later) × Frozen before later

pos_part_lt : (a b : ℤ) → ltb_ℤ a b ≡ true → ltb_ℤ (pos 0) a ≡ true → pos_part a < pos_part b
pos_part_lt (pos a) (pos b) h k = ground arith
pos_part_lt (pos a) (negsuc b) h k = ground arith
pos_part_lt (negsuc a) b h k = ground arith

pos_part_one : (a : ℤ) → ltb_ℤ (pos 0) a ≡ true → 1 ≤ pos_part a
pos_part_one (pos a) k = ground arith
pos_part_one (negsuc a) k = ground arith

template_row-IsFair :
    (id : ℕ) (input : TemplateInput)
    → valid_template_rules input ≡ true
    → IsFair (template_row id input)
unfolding template_row valid_template_rules
template_row-IsFair id input h = ground (
  arith,
  pos_part_lt input.discount_points input.threshold_points,
  pos_part_one input.discount_points,
  pos_part_one input.total_count,
  pos_part_one input.per_user_limit,
)

Kept-refl : (ts : List CouponTemplate) → Kept ts ts
Kept-refl ts = (λ fair. fair, λ id t found. (t.status, found))

Kept-trans : (xs ys zs : List CouponTemplate) → Kept xs ys → Kept ys zs → Kept xs zs
Kept-trans xs ys zs (fair, frozen) (fair', frozen') = (
  λ h. (fair' (fair h)),
  λ id t found. (let (s, there) = frozen id t found in frozen' id (set_template_state s t) there),
)

taken_template :
    (id : ℕ) (ts : List CouponTemplate) (r : CouponTemplate) (j : ℕ)
    → find_by template_key j ts ≡ some r
    → j ≡ id
    → any (λ t. t.id == id) ts ≡ true
taken_template id [] r j h e = cc
taken_template id (t ∷ ts) r j h e = ground (arith, taken_template id ts r j)

-- A new row.
Kept-insert :
    (t : CouponTemplate) (ts : List CouponTemplate)
    → IsFair t
    → any (λ r. r.id == t.id) ts ≡ false
    → Kept ts (t ∷ ts)
Kept-insert t ts fair fresh = (
  λ h. (fair, h),
  λ id r found. (elim (Bool-cases (id == t.id)) [
    | inl same ↦
        (let taken = taken_template t.id ts r id found ((==_iff id t.id).0 same) in
          absurd (ground arith))
    | inr other ↦ (r.status, rw other found)
  ]),
)

AllFair-update_by :
    (id : ℕ) (s : CouponTemplateStatus) (ts : List CouponTemplate)
    → AllFair ts
    → AllFair (update_by template_key id (set_template_state s) ts)
AllFair-update_by id s [] h = tt
AllFair-update_by id s (t ∷ ts) (fair, rest) = elim (Bool-cases (id == t.id)) [
  | inl same ↦ rw same (fair, rest)
  | inr other ↦ rw other (fair, AllFair-update_by id s ts rest)
]

Kept-update_by :
    (id : ℕ) (s : CouponTemplateStatus) (ts : List CouponTemplate)
    → Kept ts (update_by template_key id (set_template_state s) ts)
Kept-update_by id s ts = (
  AllFair-update_by id s ts,
  λ j t found.
      (let law = find_by-update_by template_key j id (set_template_state s) ts (λ r. refl) in
        elim (Bool-cases (j == id)) [
          | inl same ↦ (s, ground (arith, law, same, found))
          | inr other ↦ (t.status, ground (arith, law, other, found))
        ]),
)

module _ {H : Type 0} where
  add_template-eq-ok :
      (actor : Actor) (t : CouponTemplate) (db : Db H) (out : TemplateView) (db' : Db H)
      → add_template actor t db ≡ (ok out, db')
      → (db'.coupon_templates ≡ t ∷ db.coupon_templates)
        × (any (λ r. r.id == t.id) db.coupon_templates ≡ false)
  unfolding add_template insert_template write
  add_template-eq-ok actor t db out db' h = ground arith

  switch_status-eq-ok :
      (actor : Actor) (id : ℕ) (s : CouponTemplateStatus) (db : Db H) (out : TemplateView)
      (db' : Db H)
      → switch_status actor id s db ≡ (ok out, db')
      → db'.coupon_templates ≡ update_by template_key id (set_template_state s) db.coupon_templates
  unfolding switch_status read_template store_status write
  switch_status-eq-ok actor id s db out db' h = ground arith

  create_template-Kept :
      (id : ℕ) (actor : Actor) (input : TemplateInput) (db : Db H)
      → Kept db.coupon_templates (create_template id actor input db).1.coupon_templates
  unfolding create_template
  create_template-Kept id actor input db = elim (Bool-cases (valid_template_rules input)) [
    | inl valid ↦ rw valid (
        commit-keeps (λ d. Kept db.coupon_templates d.coupon_templates)
          (add_template actor (template_row id input)) db
          (λ out d done.
            (let (left, fresh) = add_template-eq-ok actor (template_row id input) db out d done in
              rw left (
                Kept-insert (template_row id input) db.coupon_templates
                  (template_row-IsFair id input valid) fresh)))
          (Kept-refl db.coupon_templates))
    | inr bad ↦ rw bad (Kept-refl db.coupon_templates)
  ]

  switch_to-Kept :
      (actor : Actor) (id : ℕ) (s : Option CouponTemplateStatus) (db : Db H)
      → Kept db.coupon_templates (switch_to actor id s db).1.coupon_templates
  unfolding switch_to
  switch_to-Kept actor id none db = Kept-refl db.coupon_templates
  switch_to-Kept actor id (some s) db =
      commit-keeps (λ d. Kept db.coupon_templates d.coupon_templates) (switch_status actor id s) db
        (λ out d done.
          (rw (switch_status-eq-ok actor id s db out d done)
            (Kept-update_by id s db.coupon_templates)))
        (Kept-refl db.coupon_templates)

  set_template_status-Kept :
      (actor : Actor) (id : ℕ) (status : Text) (db : Db H)
      → Kept db.coupon_templates (set_template_status actor id status db).1.coupon_templates
  unfolding set_template_status
  set_template_status-Kept actor id status db = elim (Bool-cases (is_zero id)) [
    | inl bad ↦ rw bad (Kept-refl db.coupon_templates)
    | inr good ↦ rw good (switch_to-Kept actor id (issuance_status status) db)
  ]

  -- The writes of the templates, one after another, with whatever outcomes.
  pub data CouponSteps : Db H → Db H → Type 0 where
    no_write : {db : Db H} → CouponSteps db db
    creates :
        {db mid : Db H} (id : ℕ) (actor : Actor) (input : TemplateInput)
        → CouponSteps db mid
        → CouponSteps db (create_template id actor input mid).1
    switches :
        {db mid : Db H} (actor : Actor) (id : ℕ) (status : Text)
        → CouponSteps db mid
        → CouponSteps db (set_template_status actor id status mid).1

  CouponSteps-Kept :
      (db db' : Db H) → CouponSteps db db' → Kept db.coupon_templates db'.coupon_templates
  CouponSteps-Kept db _ no_write = Kept-refl db.coupon_templates
  CouponSteps-Kept db _ (creates {mid = mid} id actor input steps) =
      Kept-trans db.coupon_templates mid.coupon_templates
        (create_template id actor input mid).1.coupon_templates (CouponSteps-Kept db mid steps)
        (create_template-Kept id actor input mid)
  CouponSteps-Kept db _ (switches {mid = mid} actor id status steps) =
      Kept-trans db.coupon_templates mid.coupon_templates
        (set_template_status actor id status mid).1.coupon_templates (CouponSteps-Kept db mid steps)
        (set_template_status-Kept actor id status mid)

  -- Any sequence of creations and switches of templates, with whatever outcomes, keeps the rule
  -- constraints of all rows, if all met them: a discount below the threshold, positive numbers, a
  -- window that is not empty and no more received than there are.
  pub CouponSteps-AllFair :
      (db db' : Db H)
      → CouponSteps db db'
      → AllFair db.coupon_templates
      → AllFair db'.coupon_templates
  CouponSteps-AllFair db db' steps fair = (CouponSteps-Kept db db' steps).0 fair

  -- After any sequence of creations and switches of templates, with whatever outcomes, each
  -- template that there was is found under its identifier, with at most another status.
  pub CouponSteps-set_template_state :
      (db db' : Db H) (id : ℕ) (t : CouponTemplate)
      → CouponSteps db db'
      → find_by template_key id db.coupon_templates ≡ some t
      → (s : CouponTemplateStatus) × (find_by template_key id db'.coupon_templates
          ≡ some (set_template_state s t))
  CouponSteps-set_template_state db db' id t steps found =
      (CouponSteps-Kept db db' steps).1 id t found
