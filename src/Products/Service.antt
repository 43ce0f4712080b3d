-- ===== src/Products/Service.antt =====
-- internal/product/service.go: `Create` and `Update`, with the view and the audit data. The touch of
-- the files of dropped images is left out: its failure is only logged.
use shop_mall.Common.Base.{
  ℕ, zero, suc, Bool, true, not, ◌&&◌, ◌||◌, Option, none, some, List, [], ◌∷◌, ◌++◌, map, ltb, leb,
  ◌==◌, if◌then◌else◌, option, is_some,
}
use shop_mall.Common.Int.{ℤ, pos, pos_part, leb_ℤ}
use shop_mall.Common.Table.{any, find_by, update_by}
use shop_mall.Common.Text.{Text, byte_len, rune_count, trim_space, is_blank}
use shop_mall.Database.Rows.{
  ProductStatus, on_sale, off_sale, is_zero, Product, Json, num, str, text, texts, AuditLog,
}
use shop_mall.Database.Store.{
  Error, ok, err, Action, pure, raise, modify, or_raise, guard, ◌>>=◌, ◌>>◌, commit,
}
use Prim.Native.String.{String}
use shop_mall.Audit.{write}
use shop_mall.Products.Fields.{
  parse_price_points, valid_category, product_status, normalize_image_keys,
}

-- `Actor`
pub record Editor : Type 0 where
  pub admin_id : ℕ
  pub role_name : Text

-- `ProductInput`
pub record ProductInput : Type 0 where
  pub name : Text
  pub description : Text
  pub category : Text
  pub images : List Text
  pub price_points : Text
  pub stock : ℤ
  pub status : Text

-- `ProductUpdate`: nil is `none`.
pub record ProductUpdate : Type 0 where
  pub name : Option Text
  pub description : Option Text
  pub category : Option Text
  pub images : Option (List Text)
  pub price_points : Option Text
  pub stock : Option ℤ
  pub status : Option Text

-- `ProductView`
pub record ProductView : Type 0 where
  pub id : ℕ
  pub name : Text
  pub description : Text
  pub category : Text
  pub main_image : Text
  pub images : List Text
  pub price_points : ℕ
  pub stock : ℕ
  pub status : ProductStatus

abbrev pub product_id : Product → ℕ
product_id p = p.id

-- `PublicURL`, of the trimmed base URL.
unfoldable pub public_url : Text → Text → Text
public_url base_url [] = []
public_url base_url (c ∷ key) =
    base_url
    ++ (47 ∷ 115 ∷ 116 ∷ 97 ∷ 116 ∷ 105 ∷ 99 ∷ 47 ∷ 105 ∷ 109 ∷ 97 ∷ 103 ∷ 101 ∷ 115 ∷ 47 ∷ [])
    ++ c ∷ key

-- The first image, or "".
abbrev pub first_or_blank : List Text → Text
first_or_blank [] = []
first_or_blank (i ∷ is) = i

-- `toView`
unfoldable pub to_view : (Text → Text) → Product → ProductView
to_view resolve p =
    let images = map resolve p.images in
    record {
      id = p.id;
      name = p.name;
      description = p.description;
      category = p.category;
      main_image = first_or_blank images;
      images = images;
      price_points = p.price_points;
      stock = p.stock;
      status = p.status;
    }

-- The first runes of a text.
abbrev pub prefix : ℕ → Text → Text
prefix zero s = []
prefix (suc n) [] = []
prefix (suc n) (c ∷ s) = c ∷ prefix n s

-- `redactImageKey`, of a valid object key, whose runes are bytes.
unfoldable pub redact_image_key : Text → Text
redact_image_key key =
    if is_blank key then [] else if leb (byte_len key) 8 then key else prefix 8 key ++ 8230 ∷ []

abbrev pub product_status_text : ProductStatus → String
product_status_text on_sale = "on_sale"
product_status_text off_sale = "off_sale"

-- `productAuditData`
unfoldable pub product_audit_data : Product → List (String × Json)
product_audit_data p =
    ("name", text p.name)
    ∷ ("category", text p.category)
    ∷ ("status", str (product_status_text p.status))
    ∷ ("price_points", num (pos p.price_points))
    ∷ ("stock", num (pos p.stock))
    ∷ ("images", texts (map redact_image_key p.images))
    ∷ []

-- The audit row of a write.
unfoldable pub product_audit :
    Editor → String → ℕ → List (String × Json) → List (String × Json) → AuditLog
product_audit actor action id before after = record {
  actor_admin_id = some actor.admin_id;
  actor_role = actor.role_name;
  action = action;
  target_type = "product";
  target_id = some id;
  result = "success";
  before_data = before;
  after_data = after;
}

-- A trimmed name of 1 to 128 characters.
unfoldable pub valid_name : Text → Bool
valid_name name = not (is_blank (trim_space name) || ltb 128 (rune_count (trim_space name)))

-- A test of a field that may be absent.
abbrev pub where_given : {A : Type 0} → (A → Bool) → Option A → Bool
where_given test none = true
where_given test (some a) = test a

-- A status that may be left out.
unfoldable pub status_or_default : Text → Option ProductStatus
status_or_default status = if is_blank status then some on_sale else product_status status

-- `validateCreateInput`
unfoldable pub valid_create_input : ProductInput → Bool
valid_create_input input =
    valid_name input.name
    && valid_category input.category
    && leb_ℤ (pos 0) input.stock
    && is_some (status_or_default input.status)
    && is_some (normalize_image_keys input.images)

-- `validateUpdateInput`
unfoldable pub valid_update_input : ProductUpdate → Bool
valid_update_input input =
    where_given valid_name input.name
    && where_given (leb_ℤ (pos 0)) input.stock
    && where_given valid_category input.category
    && where_given (λ keys. is_some (normalize_image_keys keys)) input.images
    && where_given (λ s. is_some (product_status s)) input.status

-- The row of a new product.
unfoldable pub product_row : ℕ → ProductInput → ℕ → List Text → ProductStatus → Product
product_row id input price keys status = record {
  id = id;
  name = trim_space input.name;
  description = input.description;
  category = input.category;
  images = keys;
  price_points = price;
  stock = pos_part input.stock;
  status = status;
}

-- What an update sets: a field that is absent keeps its value, one that does not parse fails.
abbrev pub parsed_or_kept : {A B : Type 0} → (A → Option B) → B → Option A → Option B
parsed_or_kept parse old none = some old
parsed_or_kept parse old (some a) = parse a

-- Whether the map of updates has an entry.
unfoldable pub has_fields : ProductUpdate → Bool
has_fields input =
    is_some input.name
    || is_some input.description
    || is_some input.category
    || is_some input.images
    || is_some input.price_points
    || is_some input.stock
    || is_some input.status

-- The row after the update, for the gallery, the price and the status that it is to have.
unfoldable pub updated_row : ProductUpdate → List Text → ℕ → ProductStatus → Product → Product
updated_row input keys price status p = record p {
  name = option p.name trim_space input.name;
  description = option p.description (λ s. s) input.description;
  category = option p.category (λ s. s) input.category;
  images = keys;
  price_points = price;
  stock = option p.stock pos_part input.stock;
  status = status;
}

module _ {H : Type 0} (base_url : Text) where
  -- INSERT INTO products.
  unfoldable pub insert_product : Product → Action H (Unit {0})
  insert_product p db =
      if any (λ r. r.id == p.id) db.products
      then (err Error.unique_violation, db)
      else (ok tt, record db { products = p ∷ db.products })

  -- The transaction of `Create`.
  unfoldable pub add_product : Editor → Product → Action H ProductView
  add_product actor p = do
    insert_product p
    write (product_audit actor "product.create" p.id [] (product_audit_data p))
    pure (to_view (public_url base_url) p)

  -- `Create`, with the identifier of the new row.
  unfoldable pub create_product : ℕ → Editor → ProductInput → Action H ProductView
  create_product id actor input =
      if not (valid_create_input input)
      then raise Error.invalid_product
      else elim (parse_price_points input.price_points) [
        | none ↦ raise Error.invalid_price
        | some price ↦ elim (normalize_image_keys input.images) [
          | none ↦ raise Error.invalid_product
          | some keys ↦ elim (status_or_default input.status) [
            | none ↦ raise Error.invalid_product
            | some status ↦ commit (add_product actor (product_row id input price keys status))
          ]
        ]
      ]

  -- SELECT … FROM products WHERE id = …
  unfoldable pub read_product : ℕ → Action H Product
  read_product id db = or_raise (find_by product_id id db.products) Error.product_not_found db

  -- UPDATE products SET … WHERE id = …
  unfoldable pub store_product : ℕ → (Product → Product) → Action H (Unit {0})
  store_product id f = modify (λ db. record db { products = update_by product_id id f db.products })

  -- The transaction of `Update`.
  unfoldable pub edit_product : Editor → ℕ → ProductUpdate → Action H ProductView
  edit_product actor id input = do
    current ← read_product id
    keys ←
        or_raise (parsed_or_kept normalize_image_keys current.images input.images)
          Error.invalid_product
    price ←
        or_raise (parsed_or_kept parse_price_points current.price_points input.price_points)
          Error.invalid_price
    status ←
        or_raise (parsed_or_kept product_status current.status input.status) Error.invalid_product
    guard (has_fields input) Error.empty_update
    store_product id (updated_row input keys price status)
    updated ← read_product id
    write (
        product_audit actor "product.update" id (product_audit_data current)
          (product_audit_data updated))
    pure (to_view (public_url base_url) updated)

  -- `Update`
  unfoldable pub update_product : Editor → ℕ → ProductUpdate → Action H ProductView
  update_product actor id input =
      if is_zero id
      then raise Error.product_not_found
      else if not (valid_update_input input)
      then raise Error.invalid_product
      else commit (edit_product actor id input)
