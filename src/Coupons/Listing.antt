-- ===== src/Coupons/Listing.antt =====
-- internal/coupon/service.go: `ListTemplates` and `countUsedCoupons`.
use shop_mall.Common.Base.{
  ℕ, zero, suc, ◌-◌, Bool, true, false, ◌&&◌, ◌||◌, List, [], ◌∷◌, ltb, ◌==◌, if◌then◌else◌,
}
use shop_mall.Common.Int.{ℤ, pos, negsuc, pos_part}
use shop_mall.Common.Int64.{mul64}
use shop_mall.Common.Table.{count, length, order_by}
use shop_mall.Database.Rows.{CouponTemplate, UserCouponStatus, used, UserCoupon}
use shop_mall.Database.Store.{Db, ok, Action}
use shop_mall.Coupons.Templates.{TemplateView, to_template_view, template_key}

-- `TemplateListItem`
pub record TemplateListItem : Type 0 where
  pub view : TemplateView
  pub used_count : ℕ

-- OFFSET
abbrev pub drop : {A : Type 0} → ℕ → List A → List A
drop zero xs = xs
drop (suc n) [] = []
drop (suc n) (x ∷ xs) = drop n xs

-- LIMIT
abbrev pub take : {A : Type 0} → ℕ → List A → List A
take zero xs = []
take (suc n) [] = []
take (suc n) (x ∷ xs) = x ∷ take n xs

abbrev pub reverse_onto : {A : Type 0} → List A → List A → List A
reverse_onto [] acc = acc
reverse_onto (x ∷ xs) acc = reverse_onto xs (x ∷ acc)

-- A page below 1 is the first.
unfoldable pub clamp_page : ℤ → ℕ
clamp_page (pos n) = if ltb n 1 then 1 else n
clamp_page (negsuc n) = 1

-- A size below 1 or above 100 is 20.
unfoldable pub clamp_page_size : ℤ → ℕ
clamp_page_size (pos n) = if ltb n 1 || ltb 100 n then 20 else n
clamp_page_size (negsuc n) = 20

-- `(page - 1) * pageSize` in an int; an offset that has wrapped below 0 is left out of the query.
unfoldable pub page_offset : ℕ → ℕ → ℕ
page_offset page size = pos_part (mul64 (pos (page - 1)) (pos size))

abbrev pub is_used : UserCouponStatus → Bool
is_used used = true
is_used _ = false

-- `countUsedCoupons`, for one template: its group, or 0 where there is none.
unfoldable pub used_coupons : List UserCoupon → ℕ → ℕ
used_coupons coupons id = count (λ c. c.template_id == id && is_used c.status) coupons

-- The items of the templates of a page.
abbrev pub list_items : List UserCoupon → List CouponTemplate → List TemplateListItem
list_items coupons [] = []
list_items coupons (t ∷ ts) =
    record { view = to_template_view t; used_count = used_coupons coupons t.id }
    ∷ list_items coupons ts

module _ {H : Type 0} where
  -- ORDER BY id DESC
  unfoldable pub newest_first : Db H → List CouponTemplate
  newest_first db = reverse_onto (order_by template_key db.coupon_templates) []

  -- `ListTemplates`
  unfoldable pub list_templates : ℤ → ℤ → Action H (List TemplateListItem × ℕ)
  unfolding clamp_page clamp_page_size page_offset used_coupons newest_first
  list_templates page page_size db =
      let size = clamp_page_size page_size in
      let shown = take size (drop (page_offset (clamp_page page) size) (newest_first db)) in
      (ok (list_items db.user_coupons shown, length db.coupon_templates), db)
