-- ===== src/Examples/Shop.antt =====
-- A shop with one buyer, one product, one address and one cart row.
use shop_mall.Common.Base.{
  ℕ, ◌+◌, ◌*◌, refl, inl, inr, true, Option, none, List, [], ◌∷◌, ◌==◌, Bool-cases, ==_iff,
}
use shop_mall.Common.Int.{ℤ, pos, negsuc, ◌+ℤ◌}
use shop_mall.Common.Text.{Text}
use shop_mall.Database.Rows.{
  OrderStatus, on_sale, User, Product, Address, CartItem, Order, signup_bonus, signup_key,
  PointsLedger,
}
use shop_mall.Database.Store.{Db}
use shop_mall.Digest.{Digest, RequestHashItem}
use shop_mall.Checkout.Request.{OrderRequest}
use shop_mall.Checkout.Commit
use shop_mall.Points
use shop_mall.Points.{PointsAdjustment}
use shop_mall.Orders.Fulfillment
use shop_mall.Payment.Accounts.{IsBalanced}

-- A checksum in the place of SHA-256.
abbrev mix : List ℕ → ℕ
mix [] = 7
mix (n ∷ ns) = n + 31 * mix ns

abbrev mix_items : List RequestHashItem → ℕ
mix_items [] = 3
mix_items (i ∷ is) = i.product_id + 31 * i.quantity + 961 * mix_items is

abbrev magnitude : ℤ → ℕ
magnitude (pos n) = 2 * n
magnitude (negsuc n) = 2 * n + 1

abbrev pub checksum : Digest ℕ
checksum = record {
  of_order = λ p. mix p.cart_item_ids + mix_items p.items + 17 * p.address.version;
  of_adjust = λ p. p.user_id + 31 * magnitude p.delta + mix p.remark;
  same = λ a b. a == b;
  same_iff = ==_iff;
}

abbrev pub buyer : User
buyer = record { id = 1; openid = []; nickname = []; avatar_url = []; points_balance = 100 }

abbrev pub tea : Product
tea = record {
  id = 5;
  name = 84 ∷ [];
  description = [];
  category = [];
  images = [];
  price_points = 10;
  stock = 7;
  status = on_sale;
}

abbrev pub home : Address
home = record {
  id = 3;
  user_id = 1;
  receiver = 65 ∷ [];
  phone = 49 ∷ [];
  region = 82 ∷ [];
  detail = 68 ∷ [];
  is_default = true;
  version = 1;
}

abbrev pub cart_row : CartItem
cart_row = record { id = 9; user_id = 1; product_id = 5; quantity = 2 }

abbrev pub bonus : PointsLedger ℕ
bonus = record {
  id = 20;
  user_id = 1;
  order_id = none;
  event_key = signup_key 1;
  request_hash = none;
  kind = signup_bonus;
  delta = pos 100;
  balance_after = 100;
  created_by_admin_id = none;
  remark = [];
  created_at = 0;
}

-- An order of two units in a status.
abbrev pub placed_order : OrderStatus → Option ℕ → Order ℕ
placed_order s by = record {
  id = 40;
  order_no = 78 ∷ [];
  user_id = 1;
  client_token = 75 ∷ [];
  request_hash = 11;
  status = s;
  total_points = pos 20;
  receiver = [];
  phone = [];
  address = [];
  refund_reason = [];
  refund_reject_reason = [];
  refund_reviewed_by = none;
  refund_reviewed_at = none;
  paid_at = 1;
  shipped_by = by;
  shipped_at = by;
  completed_at = none;
  refunded_at = none;
  items =
      record {
        order_id = 40;
        product_id = 5;
        product_name = [];
        product_image = [];
        price_snapshot = 10;
        quantity = 2;
      }
      ∷ [];
}

-- The shop with the orders given.
abbrev pub shop : List (Order ℕ) → Db ℕ
shop orders = record {
  users = buyer ∷ [];
  products = tea ∷ [];
  addresses = home ∷ [];
  cart_items = cart_row ∷ [];
  orders = orders;
  ledger = bonus ∷ [];
  audit_logs = [];
  admin_users = [];
  roles = [];
  permissions = [];
  role_permissions = [];
  coupon_templates = [];
  user_coupons = [];
}

abbrev pub order_env : Commit.Env
order_env = record { now = 50; order_no = 79 ∷ []; order_id = 41; entry_id = 21 }

abbrev pub points_env : Points.Env
points_env = record { now = 50; entry_id = 22; roles = none }

abbrev pub admin_env : Fulfillment.Env
admin_env = record { now = 60; roles = none }

abbrev pub token : Text
token = 107 ∷ 49 ∷ []

abbrev pub basket : OrderRequest
basket = record { cart_item_ids = 9 ∷ []; address_id = 3 }

abbrev pub gift : PointsAdjustment
gift = record { user_id = 1; delta = pos 5; remark = 103 ∷ [] }

-- No other call runs meanwhile.
abbrev pub alone : Db ℕ → Db ℕ
alone db = db

pub shop-IsBalanced : (orders : List (Order ℕ)) → IsBalanced (shop orders)
unfolding ◌+ℤ◌
shop-IsBalanced orders id = elim (Bool-cases (id == 1)) [
  | inl same ↦ rw same refl
  | inr other ↦ rw other tt
]
