-- ===== src/Database/Rows.antt =====
-- The rows of internal/platform/database/models.go. A uid.ID is the number of its 128 bits, so
-- that 0 is uuid.Nil and bytes.Compare is the order of the numbers; a time is a number of
-- nanoseconds. A column that a CHECK constraint keeps from being negative is a natural number.
use shop_mall.Common.Base.{ℕ, Bool, true, false, ◌&&◌, Option, List, [], ◌∷◌, ◌==◌}
use shop_mall.Common.Int.{ℤ}
use Prim.Native.String.{String}
use shop_mall.Common.Text.{Text, text_eq}

-- uid.IsZero
abbrev pub is_zero : ℕ → Bool
is_zero id = id == 0

pub data OrderStatus : Type 0 where
  paid shipped completed refund_requested refunded : OrderStatus

abbrev pub status_eq : OrderStatus → OrderStatus → Bool
status_eq paid paid = true
status_eq shipped shipped = true
status_eq completed completed = true
status_eq refund_requested refund_requested = true
status_eq refunded refunded = true
status_eq _ _ = false

abbrev pub status_text : OrderStatus → String
status_text paid = "paid"
status_text shipped = "shipped"
status_text completed = "completed"
status_text refund_requested = "refund_requested"
status_text refunded = "refunded"

pub data ProductStatus : Type 0 where
  on_sale off_sale : ProductStatus

abbrev pub is_on_sale : ProductStatus → Bool
is_on_sale on_sale = true
is_on_sale off_sale = false

pub record User : Type 0 where
  pub id : ℕ
  pub openid : Text
  pub nickname : Text
  pub avatar_url : Text
  pub points_balance : ℕ

pub record Product : Type 0 where
  pub id : ℕ
  pub name : Text
  pub description : Text
  pub category : Text
  pub images : List Text
  pub price_points : ℕ
  pub stock : ℕ
  pub status : ProductStatus

-- `Product.MainImageKey`: the first gallery entry, or "".
unfoldable pub main_image_key : Product → Text
main_image_key p = elim p.images [ [] ↦ [] | key ∷ keys ↦ key ]

pub record Address : Type 0 where
  pub id : ℕ
  pub user_id : ℕ
  pub receiver : Text
  pub phone : Text
  pub region : Text
  pub detail : Text
  pub is_default : Bool
  pub version : ℕ

pub record CartItem : Type 0 where
  pub id : ℕ
  pub user_id : ℕ
  pub product_id : ℕ
  pub quantity : ℕ

pub record OrderItem : Type 0 where
  pub order_id : ℕ
  pub product_id : ℕ
  pub product_name : Text
  pub product_image : Text
  pub price_snapshot : ℕ
  pub quantity : ℕ

-- An orders row with its order_items rows, which every query preloads. The request hash is of
-- a type of its own, the values of the digest that the order is made with.
pub record Order (Hash : Type 0) : Type 0 where
  pub id : ℕ
  pub order_no : Text
  pub user_id : ℕ
  pub client_token : Text
  pub request_hash : Hash
  pub status : OrderStatus
  pub total_points : ℤ
  pub receiver : Text
  pub phone : Text
  pub address : Text
  pub refund_reason : Text
  pub refund_reject_reason : Text
  pub refund_reviewed_by : Option ℕ
  pub refund_reviewed_at : Option ℕ
  pub paid_at : ℕ
  pub shipped_by : Option ℕ
  pub shipped_at : Option ℕ
  pub completed_at : Option ℕ
  pub refunded_at : Option ℕ
  pub items : List OrderItem

pub data LedgerType : Type 0 where
  order_pay order_refund signup_bonus admin_adjust : LedgerType

-- The event keys of internal/payment/ledger.go and of the signup bonus, before they are printed.
pub data EventKey : Type 0 where
  order_pay_key order_refund_key signup_key : ℕ → EventKey
  admin_adjust_key : ℕ → Text → EventKey

abbrev pub event_key_eq : EventKey → EventKey → Bool
event_key_eq (order_pay_key a) (order_pay_key b) = a == b
event_key_eq (order_refund_key a) (order_refund_key b) = a == b
event_key_eq (signup_key a) (signup_key b) = a == b
event_key_eq (admin_adjust_key a s) (admin_adjust_key b t) = a == b && text_eq s t
event_key_eq _ _ = false

pub record PointsLedger (Hash : Type 0) : Type 0 where
  pub id : ℕ
  pub user_id : ℕ
  pub order_id : Option ℕ
  pub event_key : EventKey
  pub request_hash : Option Hash
  pub kind : LedgerType
  pub delta : ℤ
  pub balance_after : ℕ
  pub created_by_admin_id : Option ℕ
  pub remark : Text
  pub created_at : ℕ

-- The values of the before and after images of an audit row.
pub data Json : Type 0 where
  num : ℤ → Json
  str : String → Json
  text : Text → Json
  texts : List Text → Json
  flag : Bool → Json

-- An audit_logs row, without its own identifier, its random trace id and its time.
pub record AuditLog : Type 0 where
  pub actor_admin_id : Option ℕ
  pub actor_role : Text
  pub action : String
  pub target_type : String
  pub target_id : Option ℕ
  pub result : String
  pub before_data : List (String × Json)
  pub after_data : List (String × Json)

pub record Role : Type 0 where
  pub id : ℕ
  pub name : Text
  pub remark : Text

pub record Permission : Type 0 where
  pub id : ℕ
  pub code : Text

pub record RolePermission : Type 0 where
  pub role_id : ℕ
  pub permission_id : ℕ

pub record AdminUser : Type 0 where
  pub id : ℕ
  pub username : Text
  pub password_hash : Text
  pub token_version : ℕ
  pub role_id : ℕ
  pub enabled : Bool
  pub last_login_at : Option ℕ

pub data CouponTemplateStatus : Type 0 where
  active halted : CouponTemplateStatus

pub record CouponTemplate : Type 0 where
  pub id : ℕ
  pub name : Text
  pub threshold_points : ℕ
  pub discount_points : ℕ
  pub total_count : ℕ
  pub per_user_limit : ℕ
  pub received_count : ℕ
  pub valid_from : ℕ
  pub valid_until : ℕ
  pub status : CouponTemplateStatus

-- The statuses that user_coupons_status_valid names.
pub data UserCouponStatus : Type 0 where
  available held used expired : UserCouponStatus

pub record UserCoupon : Type 0 where
  pub id : ℕ
  pub template_id : ℕ
  pub status : UserCouponStatus
