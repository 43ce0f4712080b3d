-- ===== src/Database/Store.antt =====
-- The database as the tables that the modelled code reads and writes, and what runs over it: an
-- action sees the tables and gives its result with the tables as it left them. An action that
-- fails keeps what it wrote; the transaction around it rolls that back.
use shop_mall.Common.Base.{
  ℕ, ◌≡◌, refl, ◌⊎◌, inl, inr, Bool, true, false, Option, none, some, List, arith,
}
use shop_mall.Database.Rows.{
  User, Product, Address, CartItem, Order, PointsLedger, AuditLog, AdminUser, Role, Permission,
  RolePermission, CouponTemplate, UserCoupon,
}

-- The sentinel errors of the packages, and the errors of PostgreSQL and of the context that the
-- code tells apart or passes on. `other` is an error that the code only passes on.
pub data Error : Type 0 where
  invalid_idempotency_key invalid_order_request address_not_found cart_item_not_found : Error
  product_not_found product_off_sale insufficient_stock insufficient_points : Error
  idempotency_conflict user_not_found order_not_found order_state_conflict : Error
  invalid_refund_reason invalid_cart_item cart_product_not_found quantity_overflow : Error
  payment_user_not_found insufficient_balance ledger_entry_not_found invalid_adjustment : Error
  invalid_address empty_update default_address_conflict invalid_template : Error
  template_not_found openid_required negative_bonus user_id_required : Error
  login_code_required wechat_lookup empty_openid value_too_long : Error
  admin_not_found admin_disabled invalid_credentials weak_password invalid_username : Error
  unknown_role administrator_exists unknown_permission role_not_found role_exists : Error
  invalid_role_name role_update_empty rate_limited invalid_product invalid_price : Error
  unique_violation check_violation foreign_key_violation out_of_range deadlock
        serialization_failure :
      Error
  attempts_exhausted canceled record_not_found : Error
  other : ℕ → Error

pub data Result (A : Type 0) : Type 0 where
  ok : A → Result A
  err : Error → Result A

-- The tables. `Hash` is the type of the request hashes.
pub record Db (Hash : Type 0) : Type 0 where
  pub users : List User
  pub products : List Product
  pub addresses : List Address
  pub cart_items : List CartItem
  pub orders : List (Order Hash)
  pub ledger : List (PointsLedger Hash)
  pub audit_logs : List AuditLog
  pub admin_users : List AdminUser
  pub roles : List Role
  pub permissions : List Permission
  pub role_permissions : List RolePermission
  pub coupon_templates : List CouponTemplate
  pub user_coupons : List UserCoupon

abbrev pub Action : Type 0 → Type 0 → Type 0
Action H A = Db H → Result A × Db H

module _ {H : Type 0} {A : Type 0} where
  abbrev pub pure : A → Action H A
  pure a db = (ok a, db)

  abbrev pub raise : Error → Action H A
  raise e db = (err e, db)

  abbrev pub gets : (Db H → A) → Action H A
  gets f db = (ok (f db), db)

  abbrev pub or_raise : Option A → Error → Action H A
  or_raise none e = raise e
  or_raise (some a) e = pure a

-- What other calls commit where nobody interferes.
abbrev pub undisturbed : {H : Type 0} → Db H → Db H
undisturbed db = db

abbrev pub modify : {H : Type 0} → (Db H → Db H) → Action H (Unit {0})
modify f db = (ok tt, f db)

-- `if !test { return err }`
abbrev pub guard : {H : Type 0} → Bool → Error → Action H (Unit {0})
guard true e db = (ok tt, db)
guard false e db = (err e, db)

infixl 5 ◌>>=◌ ◌>>◌
abbrev pub ◌>>=◌ : {H A B : Type 0} → Action H A → (A → Action H B) → Action H B
◌>>=◌ m f db = let (r, db') = m db in elim r [ ok a ↦ f a db' | err e ↦ (err e, db') ]

abbrev pub ◌>>◌ : {H A B : Type 0} → Action H A → Action H B → Action H B
m >> k = m >>= λ _. k

-- gorm's `Transaction`: what a failed action wrote is rolled back.
abbrev pub commit : {H A : Type 0} → Action H A → Action H A
commit body db = let (r, db') = body db in elim r [ ok a ↦ (ok a, db') | err e ↦ (err e, db) ]

-- A transaction during which other calls commit `race`: if it fails, what the others committed stays.
abbrev pub commit_over : {H A : Type 0} → (Db H → Db H) → Action H A → Action H A
commit_over race body db =
    let (r, db') = body db in elim r [ ok a ↦ (ok a, db') | err e ↦ (err e, race db) ]

-- The steps of a chain that ended well, with what each step gave and left.
pub >>=-eq-ok :
    {H A B : Type 0} (m : Action H A) (f : A → Action H B) (db : Db H) (b : B) (db' : Db H)
    → (m >>= f) db ≡ (ok b, db')
    → (a : A) × (mid : Db H) × (m db ≡ (ok a, mid)) × (f a mid ≡ (ok b, db'))
>>=-eq-ok {H} {A} {B} m f db b db' h = go (m db) refl
  where
    go :
        (out : Result A × Db H)
        → m db ≡ out
        → (a : A) × (mid : Db H) × (m db ≡ (ok a, mid)) × (f a mid ≡ (ok b, db'))
    go (ok a, mid) e = (a, mid, e, ground arith)
    go (err x, mid) e = absurd (ground arith)

-- A committed action ended well, or left the tables as they were.
pub commit-eq-ok :
    {H A : Type 0} (m : Action H A) (db : Db H) (a : A) (db' : Db H)
    → commit m db ≡ (ok a, db')
    → m db ≡ (ok a, db')
commit-eq-ok m db a db' h = ground arith

pub commit-eq-err :
    {H A : Type 0} (m : Action H A) (db : Db H) (e : Error) (db' : Db H)
    → commit m db ≡ (err e, db')
    → db' ≡ db
commit-eq-err m db e db' h = ground arith

-- What holds before a transaction, and after each run of its body that ends well, holds after it.
pub commit-keeps :
    {H A : Type 0} (P : Db H → Type 0) (body : Action H A) (db : Db H)
    → ((a : A) (d : Db H) → body db ≡ (ok a, d) → P d)
    → P db
    → P (commit body db).1
commit-keeps {H} {A} P body db keeps h = go (body db) refl
  where
    go : (out : Result A × Db H) → body db ≡ out → P (commit body db).1
    go (ok a, d) done =
        let left : commit body db ≡ (ok a, d) = ground arith in rw left (keeps a d done)
    go (err e, d) failed = let left : commit body db ≡ (err e, db) = ground arith in rw left h

pub commit_over-keeps :
    {H A : Type 0} (P : Db H → Type 0) (race : Db H → Db H) (body : Action H A) (db : Db H)
    → ((a : A) (d : Db H) → body db ≡ (ok a, d) → P d)
    → P (race db)
    → P (commit_over race body db).1
commit_over-keeps {H} {A} P race body db keeps h = go (body db) refl
  where
    go : (out : Result A × Db H) → body db ≡ out → P (commit_over race body db).1
    go (ok a, d) done =
        let left : commit_over race body db ≡ (ok a, d) = ground arith in rw left (keeps a d done)
    go (err e, d) failed =
        let left : commit_over race body db ≡ (err e, race db) = ground arith in rw left h

-- To split on how an action ended, with the equation kept.
pub Result-cases :
    {H A : Type 0} (out : Result A × Db H)
    → ((a : A) × (db : Db H) × (out ≡ (ok a, db)))
      ⊎ ((e : Error) × (db : Db H) × (out ≡ (err e, db)))
Result-cases (ok a, db) = inl (a, db, refl)
Result-cases (err e, db) = inr (e, db, refl)
