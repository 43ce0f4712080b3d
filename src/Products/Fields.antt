-- ===== src/Products/Fields.antt =====
-- The fields of a product in internal/product/service.go and category.go: the price, the category,
-- the status and the keys of the gallery, which internal/storage/storage.go makes.
use shop_mall.Common.Base.{
  ℕ, zero, suc, ◌+◌, ◌-◌, ◌*◌, Bool, true, false, not, ◌&&◌, ◌||◌, Option, none, some, List, [],
  ◌∷◌, map, ltb, leb, ◌==◌, if◌then◌else◌,
}
use shop_mall.Common.Int64.{max_int64}
use shop_mall.Common.Table.{length}
use shop_mall.Common.Text.{Text, trim_space, is_blank, text_eq}
use shop_mall.Database.Rows.{ProductStatus, on_sale, off_sale}

-- 0 to 9.
abbrev pub is_decimal : ℕ → Bool
is_decimal c = leb 48 c && leb c 57

-- 0 to 9 and a to f.
abbrev pub is_hex : ℕ → Bool
is_hex c = is_decimal c || leb 97 c && leb c 102

-- [0-9]*
unfoldable pub all_digits : Text → Bool
all_digits [] = true
all_digits (c ∷ s) = is_decimal c && all_digits s

-- `pricePointsPattern`
unfoldable pub price_pattern : Text → Bool
unfolding all_digits
price_pattern [] = false
price_pattern (c ∷ s) = leb 49 c && leb c 57 && all_digits s

-- The number of the digits, read after the number so far.
unfoldable pub digits_value : ℕ → Text → ℕ
digits_value n [] = n
digits_value n (c ∷ s) = digits_value (10 * n + (c - 48)) s

-- `ParsePricePoints`: strconv.ParseInt refuses what leaves int64.
unfoldable pub parse_price_points : Text → Option ℕ
unfolding price_pattern digits_value
parse_price_points value =
    let trimmed = trim_space value in
    if not (price_pattern trimmed)
    then none
    else let parsed = digits_value 0 trimmed in if ltb max_int64 parsed then none else some parsed

-- "digital"
abbrev pub digital : Text
digital = 100 ∷ 105 ∷ 103 ∷ 105 ∷ 116 ∷ 97 ∷ 108 ∷ []

-- "home"
abbrev pub home : Text
home = 104 ∷ 111 ∷ 109 ∷ 101 ∷ []

-- "beauty"
abbrev pub beauty : Text
beauty = 98 ∷ 101 ∷ 97 ∷ 117 ∷ 116 ∷ 121 ∷ []

-- "food"
abbrev pub food : Text
food = 102 ∷ 111 ∷ 111 ∷ 100 ∷ []

-- "apparel"
abbrev pub apparel : Text
apparel = 97 ∷ 112 ∷ 112 ∷ 97 ∷ 114 ∷ 101 ∷ 108 ∷ []

-- The keys of `categoryNames`.
abbrev pub categories : List Text
categories = digital ∷ home ∷ beauty ∷ food ∷ apparel ∷ []

abbrev pub one_of : Text → List Text → Bool
one_of s [] = false
one_of s (t ∷ ts) = text_eq s t || one_of s ts

-- `validCategory`
unfoldable pub valid_category : Text → Bool
valid_category value = is_blank value || one_of value categories

-- `CategoryInfo`, without the label.
pub record CategoryInfo : Type 0 where
  pub id : Text
  pub product_count : ℕ

-- `CategoryCatalog`, for the counts of a map.
unfoldable pub category_catalog : (Text → ℕ) → List CategoryInfo
category_catalog counts = map (λ key. (record { id = key; product_count = counts key })) categories

-- `validStatus`, of the text of a status.
unfoldable pub product_status : Text → Option ProductStatus
product_status status =
    if text_eq status (111 ∷ 110 ∷ 95 ∷ 115 ∷ 97 ∷ 108 ∷ 101 ∷ [])
    then some on_sale
    else if text_eq status (111 ∷ 102 ∷ 102 ∷ 95 ∷ 115 ∷ 97 ∷ 108 ∷ 101 ∷ [])
    then some off_sale
    else none

-- What follows so many hexadecimal digits, and what follows one rune.
abbrev pub after_hex : ℕ → Text → Option Text
after_hex zero s = some s
after_hex (suc n) [] = none
after_hex (suc n) (c ∷ s) = if is_hex c then after_hex n s else none

abbrev pub after_rune : ℕ → Option Text → Option Text
after_rune r none = none
after_rune r (some []) = none
after_rune r (some (c ∷ s)) = if c == r then some s else none

-- So many hexadecimal digits after what went before, and one rune after them.
abbrev pub after_group : ℕ → ℕ → Option Text → Option Text
after_group n r none = none
after_group n r (some s) = after_rune r (after_hex n s)

-- The extensions of an object key.
abbrev pub is_extension : Option Text → Bool
is_extension none = false
is_extension (some s) =
    text_eq s (106 ∷ 112 ∷ 103 ∷ [])
    || text_eq s (112 ∷ 110 ∷ 103 ∷ [])
    || text_eq s (119 ∷ 101 ∷ 98 ∷ 112 ∷ [])

-- `ValidObjectKey`: the groups of a UUID, a dot and an extension.
unfoldable pub valid_object_key : Text → Bool
valid_object_key key = is_extension (
    after_group 12 46
      (after_group 4 45 (after_group 4 45 (after_group 4 45 (after_group 8 45 (some key))))))

-- The loop of `normalizeImageKeys`, with the keys seen before.
unfoldable pub distinct_keys : List Text → List Text → Option (List Text)
distinct_keys [] seen = some []
distinct_keys (raw ∷ keys) seen =
    let key = trim_space raw in
    elim (is_blank key) [
      | true ↦ distinct_keys keys seen
      | false ↦ elim (valid_object_key key) [
        | false ↦ none
        | true ↦ elim (one_of key seen) [
          | true ↦ distinct_keys keys seen
          | false ↦ elim (distinct_keys keys (key ∷ seen)) [
            | none ↦ none
            | some out ↦ some (key ∷ out)
          ]
        ]
      ]
    ]

-- maxProductImages
abbrev pub max_product_images : ℕ
max_product_images = 9

-- The test of the number of keys.
unfoldable pub at_most_nine : Option (List Text) → Option (List Text)
at_most_nine none = none
at_most_nine (some out) = if ltb max_product_images (length out) then none else some out

-- `normalizeImageKeys`
unfoldable pub normalize_image_keys : List Text → Option (List Text)
unfolding at_most_nine distinct_keys
normalize_image_keys keys = at_most_nine (distinct_keys keys [])
