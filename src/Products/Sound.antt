-- ===== src/Products/Sound.antt =====
-- The rows that the writes of internal/product/service.go leave.
use shop_mall.Common.Base.{
  ℕ, ◌+◌, ◌-◌, ◌*◌, ◌≤◌, ◌≡◌, refl, sym, ◌⊎◌, inl, inr, true, Option, none, some, List, [], ◌∷◌,
  arith, ◌==◌, Bool-cases, Option-cases,
}
use shop_mall.Common.Int64.{max_int64}
use shop_mall.Common.Table.{find_by, update_by}
use shop_mall.Common.Text.{Text, trim_space}
use shop_mall.Database.Rows.{ProductStatus, is_zero, Product}
use shop_mall.Database.Store.{Db, Error, ok, err, commit}
use shop_mall.Database.Store.{commit-keeps}
use shop_mall.Audit.{write}
use shop_mall.Products.Fields.{
  price_pattern, digits_value, parse_price_points, product_status, normalize_image_keys,
}
use shop_mall.Products.Gallery.{IsGallery, normalize_image_keys-IsGallery}
use shop_mall.Products.Service.{
  Editor, ProductInput, ProductUpdate, ProductView, product_id, product_row, updated_row,
  parsed_or_kept, valid_create_input, valid_update_input, status_or_default, insert_product,
  add_product, create_product, read_product, store_product, edit_product, update_product,
}

-- A price that the contract allows.
abbrev pub IsPrice : ℕ → Type 0
IsPrice n = (1 ≤ n) × (n ≤ max_int64)

-- A row with such a price, and a gallery of object keys.
abbrev pub IsSound : Product → Type 0
IsSound p = (IsPrice p.price_points) × IsGallery p.images

abbrev pub AllSound : List Product → Type 0
AllSound [] = Unit
AllSound (p ∷ ps) = (IsSound p) × AllSound ps

digits_value_grows : (n : ℕ) (s : Text) → n ≤ digits_value n s
unfolding digits_value
digits_value_grows n [] = ground arith
digits_value_grows n (c ∷ s) = ground (arith, digits_value_grows (10 * n + (c - 48)) s)

price_one : (s : Text) → price_pattern s ≡ true → 1 ≤ digits_value 0 s
unfolding price_pattern digits_value
price_one [] h = cc
price_one (c ∷ s) h = ground (arith, digits_value_grows (10 * 0 + (c - 48)) s)

parse_price_points-IsPrice : (value : Text) (n : ℕ) → parse_price_points value ≡ some n → IsPrice n
unfolding parse_price_points
parse_price_points-IsPrice value n h = elim (Bool-cases (price_pattern (trim_space value))) [
  | inl good ↦ let one = price_one (trim_space value) good in ground arith
  | inr bad ↦ absurd (ground arith)
]

AllSound-find_by :
    (id : ℕ) (ps : List Product) (p : Product)
    → AllSound ps
    → find_by product_id id ps ≡ some p
    → IsSound p
AllSound-find_by id [] p h e = cc
AllSound-find_by id (q ∷ ps) p (sound, rest) e = elim (Bool-cases (id == q.id)) [
  | inl same ↦ let who : q ≡ p = ground arith in rw (sym who) sound
  | inr other ↦ AllSound-find_by id ps p rest (rw other at e)
]

AllSound-update_by :
    (id : ℕ) (f : Product → Product) (ps : List Product)
    → AllSound ps
    → ((p : Product) → IsSound (f p))
    → AllSound (update_by product_id id f ps)
AllSound-update_by id f [] h sound = tt
AllSound-update_by id f (p ∷ ps) (first, rest) sound = elim (Bool-cases (id == p.id)) [
  | inl same ↦ rw same (sound p, rest)
  | inr other ↦ rw other (first, AllSound-update_by id f ps rest sound)
]

-- A field that is kept, or parsed to what is sound.
given-IsGallery :
    (given : Option (List Text)) (old keys : List Text)
    → IsGallery old
    → parsed_or_kept normalize_image_keys old given ≡ some keys
    → IsGallery keys
given-IsGallery none old keys h e = let same : old ≡ keys = ground arith in rw (sym same) h
given-IsGallery (some asked) old keys h e = (normalize_image_keys-IsGallery asked keys e).0

given-IsPrice :
    (given : Option Text) (old price : ℕ)
    → IsPrice old
    → parsed_or_kept parse_price_points old given ≡ some price
    → IsPrice price
given-IsPrice none old price h e = let same : old ≡ price = ground arith in rw (sym same) h
given-IsPrice (some asked) old price h e = parse_price_points-IsPrice asked price e

module _ {H : Type 0} (base_url : Text) where
  add_product-eq-ok :
      (actor : Editor) (p : Product) (db : Db H) (out : ProductView) (db' : Db H)
      → add_product base_url actor p db ≡ (ok out, db')
      → db'.products ≡ p ∷ db.products
  unfolding add_product insert_product write
  add_product-eq-ok actor p db out db' h = ground arith

  edit_product-eq-ok :
      (actor : Editor) (id : ℕ) (input : ProductUpdate) (db : Db H) (out : ProductView) (db' : Db H)
      → edit_product base_url actor id input db ≡ (ok out, db')
      → (current : Product) × (keys : List Text) × (price : ℕ) × (status : ProductStatus) × (find_by
            product_id id db.products
          ≡ some current)
        × (parsed_or_kept normalize_image_keys current.images input.images ≡ some keys)
        × (parsed_or_kept parse_price_points current.price_points input.price_points ≡ some price)
        × (db'.products ≡ update_by product_id id (updated_row input keys price status) db.products)
  unfolding edit_product read_product store_product write
  edit_product-eq-ok actor id input db out db' h =
      elim (Option-cases (find_by product_id id db.products)) [
        | inl missing ↦ absurd (ground arith)
        | inr (current, found) ↦
            elim (Option-cases (parsed_or_kept normalize_image_keys current.images input.images)) [
              | inl bad ↦ absurd (ground arith)
              | inr (keys, gallery) ↦
                  elim (Option-cases
                    (parsed_or_kept parse_price_points current.price_points input.price_points)) [
                      | inl bad ↦ absurd (ground arith)
                      | inr (price, priced) ↦
                          elim (Option-cases
                            (parsed_or_kept product_status current.status input.status)) [
                              | inl bad ↦ absurd (ground arith)
                              | inr (status, known) ↦ (
                                current,
                                keys,
                                price,
                                status,
                                found,
                                gallery,
                                priced,
                                ground arith,
                              )
                            ]
                    ]
            ]
      ]

  -- A creation is refused at once, or is a transaction with a parsed price and gallery.
  create_product-cases :
      (id : ℕ) (actor : Editor) (input : ProductInput) (db : Db H)
      → ((e : Error) × (create_product base_url id actor input db ≡ (err e, db)))
        ⊎ ((price : ℕ) × (keys : List Text) × (status : ProductStatus) × (parse_price_points
                input.price_points
              ≡ some price)
            × (normalize_image_keys input.images ≡ some keys)
            × (create_product base_url id actor input db
                ≡ commit (add_product base_url actor (product_row id input price keys status)) db))
  unfolding create_product
  create_product-cases id actor input db = elim (Bool-cases (valid_create_input input)) [
    | inr bad ↦ inl (Error.invalid_product, rw bad refl)
    | inl good ↦ elim (Option-cases (parse_price_points input.price_points)) [
      | inl bad ↦ inl (Error.invalid_price, rw (good, bad) refl)
      | inr (price, priced) ↦ elim (Option-cases (normalize_image_keys input.images)) [
        | inl bad ↦ inl (Error.invalid_product, rw (good, priced, bad) refl)
        | inr (keys, gallery) ↦ elim (Option-cases (status_or_default input.status)) [
          | inl bad ↦ inl (Error.invalid_product, rw (good, priced, gallery, bad) refl)
          | inr (status, known) ↦
              inr (price, keys, status, priced, gallery, rw (good, priced, gallery, known) refl)
        ]
      ]
    ]
  ]

  create_product-AllSound :
      (id : ℕ) (actor : Editor) (input : ProductInput) (db : Db H)
      → AllSound db.products
      → AllSound (create_product base_url id actor input db).1.products
  unfolding product_row
  create_product-AllSound id actor input db sound = elim (create_product-cases id actor input db) [
    | inl (e, refused) ↦ rw refused sound
    | inr (price, keys, status, priced, gallery, run) ↦
        let p = product_row id input price keys status in
        rw run (
          commit-keeps (λ d. AllSound d.products) (add_product base_url actor p) db
            (λ out d done.
              (rw (add_product-eq-ok actor p db out d done) (
                (
                  parse_price_points-IsPrice input.price_points price priced,
                  (normalize_image_keys-IsGallery input.images keys gallery).0,
                ),
                sound,
              )))
            sound)
  ]

  edit_product-AllSound :
      (actor : Editor) (id : ℕ) (input : ProductUpdate) (db : Db H) (out : ProductView) (d : Db H)
      → AllSound db.products
      → edit_product base_url actor id input db ≡ (ok out, d)
      → AllSound d.products
  unfolding updated_row
  edit_product-AllSound actor id input db out d sound done =
      let (current, keys, price, status, found, gallery, priced, left) =
        edit_product-eq-ok actor id input db out d done in
      let (price_ok, gallery_ok) = AllSound-find_by id db.products current sound found in
      let fair = given-IsPrice input.price_points current.price_points price price_ok priced in
      let whole = given-IsGallery input.images current.images keys gallery_ok gallery in
      rw left (
        AllSound-update_by id (updated_row input keys price status) db.products sound
          (λ p. (fair, whole)))

  update_product-AllSound :
      (actor : Editor) (id : ℕ) (input : ProductUpdate) (db : Db H)
      → AllSound db.products
      → AllSound (update_product base_url actor id input db).1.products
  unfolding update_product
  update_product-AllSound actor id input db sound = elim (Bool-cases (is_zero id)) [
    | inl bad ↦ rw bad sound
    | inr good ↦ elim (Bool-cases (valid_update_input input)) [
      | inr bad ↦ rw (good, bad) sound
      | inl valid ↦
          rw (good, valid)
            (commit-keeps (λ d. AllSound d.products) (edit_product base_url actor id input) db
              (λ out d done. (edit_product-AllSound actor id input db out d sound done)) sound)
    ]
  ]

  -- The writes of the products, one after another, with whatever outcomes.
  pub data ProductSteps : Db H → Db H → Type 0 where
    no_edit : {db : Db H} → ProductSteps db db
    creates :
        {db mid : Db H} (id : ℕ) (actor : Editor) (input : ProductInput)
        → ProductSteps db mid
        → ProductSteps db (create_product base_url id actor input mid).1
    edits :
        {db mid : Db H} (actor : Editor) (id : ℕ) (input : ProductUpdate)
        → ProductSteps db mid
        → ProductSteps db (update_product base_url actor id input mid).1

  -- Any sequence of creations and updates of products, with whatever outcomes, keeps all products
  -- sound: a price from 1 to the largest int64, and a gallery of at most nine object keys, each once.
  pub ProductSteps-AllSound :
      (db db' : Db H) → ProductSteps db db' → AllSound db.products → AllSound db'.products
  ProductSteps-AllSound db _ no_edit sound = sound
  ProductSteps-AllSound db _ (creates {mid = mid} id actor input steps) sound =
      create_product-AllSound id actor input mid (ProductSteps-AllSound db mid steps sound)
  ProductSteps-AllSound db _ (edits {mid = mid} actor id input steps) sound =
      update_product-AllSound actor id input mid (ProductSteps-AllSound db mid steps sound)
