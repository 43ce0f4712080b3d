-- ===== src/Examples/Coupons.antt =====
-- Coupon templates in the example shop.
use shop_mall.Common.Base.{ℕ, ◌*◌, ◌≤◌, ◌≡◌, refl, some, [], ◌∷◌, arith}
use shop_mall.Common.Int.{pos}
use shop_mall.Common.Int64.{max_int64}
use shop_mall.Common.Table.{find_by}
use shop_mall.Common.Text.{Text}
use shop_mall.Database.Rows.{CouponTemplateStatus, active, CouponTemplate, used}
use shop_mall.Database.Store.{Db}
use shop_mall.Coupons.Templates.{
  Actor, TemplateInput, template_key, set_template_state, create_template, set_template_status,
}
use shop_mall.Coupons.Listing.{list_items, newest_first, clamp_page_size}
use shop_mall.Coupons.Rules.{
  AllFair, CouponSteps, no_write, creates, switches, CouponSteps-AllFair,
  CouponSteps-set_template_state,
}
use shop_mall.Coupons.Pages.{pages, pages-list_items}
use shop_mall.Coupons.Switch.{Switched, set_template_status-Switched}
use shop_mall.Examples.Shop.{shop}

abbrev clerk : Actor
clerk = record { admin_id = 8; role_name = 109 ∷ [] }

abbrev ten_off : CouponTemplate
ten_off = record {
  id = 70;
  name = 84 ∷ [];
  threshold_points = 100;
  discount_points = 10;
  total_count = 50;
  per_user_limit = 1;
  received_count = 2;
  valid_from = 10;
  valid_until = 20;
  status = active;
}

abbrev five_off : TemplateInput
five_off = record {
  name = 70 ∷ [];
  threshold_points = pos 30;
  discount_points = pos 5;
  total_count = pos 9;
  per_user_limit = pos 2;
  valid_from = 11;
  valid_until = 12;
}

-- "halted"
abbrev halted_text : Text
halted_text = 104 ∷ 97 ∷ 108 ∷ 116 ∷ 101 ∷ 100 ∷ []

abbrev market : Db ℕ
market = record (shop []) {
  coupon_templates = ten_off ∷ [];
  user_coupons = record { id = 90; template_id = 70; status = used } ∷ [];
}

-- A creation, and the switch of the older template.
abbrev market_later : Db ℕ
market_later =
    (set_template_status clerk 70 halted_text (create_template 71 clerk five_off market).1).1

market_steps : CouponSteps market market_later
market_steps = switches clerk 70 halted_text (creates 71 clerk five_off no_write)

ten_off-AllFair : AllFair (ten_off ∷ [])
ten_off-AllFair = ground arith

CouponSteps-AllFair_example : AllFair market_later.coupon_templates
CouponSteps-AllFair_example = CouponSteps-AllFair market market_later market_steps ten_off-AllFair

CouponSteps-set_template_state_example :
    (s : CouponTemplateStatus) × (find_by template_key 70 market_later.coupon_templates
      ≡ some (set_template_state s ten_off))
CouponSteps-set_template_state_example =
    CouponSteps-set_template_state market market_later 70 ten_off market_steps refl

size_lem : (1 * clamp_page_size (pos 2) ≤ max_int64) × (1 ≤ 1 * clamp_page_size (pos 2))
unfolding clamp_page_size
size_lem = (ground arith, ground arith)

pages-list_items_example :
    pages market (pos 2) 1 ≡ list_items market.user_coupons (newest_first market)
pages-list_items_example = pages-list_items market (pos 2) 1 size_lem.0 size_lem.1

set_template_status-Switched_example :
    Switched market clerk 70 halted_text (set_template_status clerk 70 halted_text market)
set_template_status-Switched_example = set_template_status-Switched clerk 70 halted_text market
