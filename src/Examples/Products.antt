-- ===== src/Examples/Products.antt =====
-- Products in the example shop.
use shop_mall.Common.Base.{ℕ, zero, suc, ◌≡◌, refl, not, ◌&&◌, none, some, [], ◌∷◌, map, arith}
use shop_mall.Common.Int.{pos}
use shop_mall.Common.Text.{Text, is_space, trim_space, is_blank, text_eq}
use shop_mall.Database.Store.{Db}
use shop_mall.Products.Fields.{
  one_of, normalize_image_keys, distinct_keys, at_most_nine, valid_object_key,
}
use shop_mall.Products.Gallery.{IsGallery, normalize_image_keys-IsGallery}
use shop_mall.Products.Service.{Editor, ProductInput, ProductUpdate, create_product, update_product}
use shop_mall.Products.Sound.{AllSound, no_edit, creates, edits, ProductSteps-AllSound}
use shop_mall.Common.Text.{trim_left, trim_right}
use shop_mall.Examples.Shop.{shop}

-- "00000000-0000-0000-0000-000000000000.jpg"
abbrev zeros : ℕ → Text → Text
zeros zero s = s
zeros (suc n) s = 48 ∷ zeros n s

abbrev photo : Text
photo =
    zeros 8 (45 ∷ zeros 4 (45 ∷ zeros 4 (45 ∷ zeros 4 (45 ∷ zeros 12 (46 ∷ 106 ∷ 112 ∷ 103 ∷ [])))))

photo_lem : normalize_image_keys ((32 ∷ photo) ∷ photo ∷ [] ∷ []) ≡ some (photo ∷ [])
unfolding normalize_image_keys distinct_keys at_most_nine valid_object_key trim_space trim_left
    trim_right is_space text_eq
photo_lem = refl

normalize_image_keys-IsGallery_example :
    (IsGallery (photo ∷ []))
    × ((k : Text)
        → one_of k (photo ∷ [])
          ≡ (one_of k (map trim_space ((32 ∷ photo) ∷ photo ∷ [] ∷ [])) && not (is_blank k)))
normalize_image_keys-IsGallery_example =
    normalize_image_keys-IsGallery ((32 ∷ photo) ∷ photo ∷ [] ∷ []) (photo ∷ []) photo_lem

abbrev keeper : Editor
keeper = record { admin_id = 8; role_name = 109 ∷ [] }

abbrev mug : ProductInput
mug = record {
  name = 77 ∷ [];
  description = [];
  category = [];
  images = photo ∷ [];
  price_points = 52 ∷ 50 ∷ [];
  stock = pos 3;
  status = [];
}

abbrev dearer : ProductUpdate
dearer = record {
  name = none;
  description = none;
  category = none;
  images = none;
  price_points = some (53 ∷ 48 ∷ []);
  stock = none;
  status = none;
}

abbrev shelf : Db ℕ
shelf = shop []

abbrev shelf_later : Db ℕ
shelf_later = (update_product [] keeper 6 dearer (create_product [] 6 keeper mug shelf).1).1

shelf-AllSound : AllSound shelf.products
shelf-AllSound = ground arith

ProductSteps-AllSound_example : AllSound shelf_later.products
ProductSteps-AllSound_example =
    ProductSteps-AllSound [] shelf shelf_later
      (edits keeper 6 dearer (creates 6 keeper mug no_edit)) shelf-AllSound
