-- ===== src/Cart/Quantities.antt =====
-- What the additions to a cart add up to.
use shop_mall.Common.Base.{
  ℕ, ◌+◌, ◌≡◌, refl, inl, inr, Bool, true, false, ◌&&◌, ◌||◌, some, List, [], ◌∷◌, arith, ◌==◌,
  if◌then◌else◌, Bool-cases, Option-cases, option, is_some,
}
use shop_mall.Common.Int.{ℤ, pos, pos_part, ltb_ℤ}
use shop_mall.Common.Table.{find, update_where, find_by}
use shop_mall.Database.Rows.{is_zero, CartItem}
use shop_mall.Database.Store.{
  Db, Result, ok, err, commit, Result-cases, commit-eq-ok, commit-eq-err,
}
use shop_mall.Catalog.Stock.{product_key}
use shop_mall.Cart.Service.{
  CartItemView, same_line, add_quantity, to_cart_view, upsert_item, quantity_fits, read_line,
  add_item, add_to_cart,
}

-- The quantity of a product in a buyer's cart.
abbrev pub quantity_of : ℕ → ℕ → List CartItem → ℕ
quantity_of user_id product_id rows =
    option 0 (λ c. c.quantity) (find (same_line user_id product_id) rows)

-- Whether two keys of a cart row are the same.
abbrev pub same_key : ℕ → ℕ → ℕ → ℕ → Bool
same_key u p user_id product_id = u == user_id && p == product_id

find-update-other :
    (u p user_id product_id n : ℕ) (rows : List CartItem)
    → same_key u p user_id product_id ≡ false
    → find (same_line u p) (update_where (same_line user_id product_id) (add_quantity n) rows)
      ≡ find (same_line u p) rows
find-update-other u p user_id product_id n [] other = refl
find-update-other u p user_id product_id n (c ∷ rows) other =
    elim (Bool-cases (same_line user_id product_id c)) [
      | inr miss ↦ rw miss (rw (find-update-other u p user_id product_id n rows other) refl)
      | inl hit ↦
          let elsewhere : same_line u p c ≡ false = ground arith in
          rw (hit, elsewhere) (find-update-other u p user_id product_id n rows other)
    ]

find-update-same :
    (user_id product_id n : ℕ) (old : CartItem) (rows : List CartItem)
    → find (same_line user_id product_id) rows ≡ some old
    → find
        (same_line user_id product_id)
        (update_where (same_line user_id product_id) (add_quantity n) rows)
      ≡ some (add_quantity n old)
find-update-same user_id product_id n old [] found = absurd (ground arith)
find-update-same user_id product_id n old (c ∷ rows) found =
    elim (Bool-cases (same_line user_id product_id c)) [
      | inr miss ↦
          rw (miss, miss) (find-update-same user_id product_id n old rows (rw miss at found))
      | inl hit ↦
          let same : some c ≡ some old = rw hit at found in
          let row : c ≡ old = ground arith in rw (hit, hit, row) refl
    ]

same_key_eq :
    (u p user_id product_id : ℕ)
    → same_key u p user_id product_id ≡ true
    → (u ≡ user_id) × (p ≡ product_id)
same_key_eq u p user_id product_id h = ground arith

-- An upsert that goes well adds its quantity to that of its key, and leaves every other alone.
upsert_item-quantity :
    {H : Type 0} (u p : ℕ) (c : CartItem) (db d : Db H)
    → upsert_item c db ≡ (ok tt, d)
    → quantity_of u p d.cart_items
      ≡ quantity_of u p db.cart_items
        + (if same_key u p c.user_id c.product_id then c.quantity else 0)
unfolding upsert_item
upsert_item-quantity u p c db d done =
    elim (Option-cases (find (same_line c.user_id c.product_id) db.cart_items)) [
      | inr (old, found) ↦
          let left : d.cart_items
              ≡ update_where (same_line c.user_id c.product_id) (add_quantity c.quantity)
                  db.cart_items =
            ground arith in
          elim (Bool-cases (same_key u p c.user_id c.product_id)) [
            | inr other ↦
                rw
                  (
                    left,
                    other,
                    find-update-other u p c.user_id c.product_id c.quantity db.cart_items other,
                  )
                  (omega arith)
            | inl same ↦
                let (e, k) = same_key_eq u p c.user_id c.product_id same in
                rw
                  (
                    left,
                    same,
                    e,
                    k,
                    find-update-same c.user_id c.product_id c.quantity old db.cart_items found,
                    found,
                  )
                  refl
          ]
      | inl none_yet ↦
          let left : d.cart_items ≡ c ∷ db.cart_items = ground arith in
          elim (Bool-cases (same_key u p c.user_id c.product_id)) [
            | inr other ↦
                let elsewhere : same_line u p c ≡ false = ground arith in
                rw (left, elsewhere, other) (omega arith)
            | inl same ↦
                let (e, k) = same_key_eq u p c.user_id c.product_id same in
                rw (left, same, e, k, none_yet) (ground arith)
          ]
    ]

module _ {H : Type 0} (user_id product_id : ℕ) (quantity : ℤ) where
  -- How an addition ended.
  abbrev pub Addition : Db H → Result CartItemView × Db H → Type 0
  Addition db (err e, db') = db' ≡ db
  Addition db (ok view, db') =
      (is_some (find_by product_key product_id db.products) ≡ true)
      × (view.quantity ≡ quantity_of user_id product_id db'.cart_items)
      × ((u p : ℕ)
          → quantity_of u p db'.cart_items
            ≡ quantity_of u p db.cart_items
              + (if same_key u p user_id product_id then pos_part quantity else 0))

  pub read_line-quantity :
      (db db' : Db H) (view : CartItemView)
      → read_line user_id product_id db ≡ (ok view, db')
      → (view.quantity ≡ quantity_of user_id product_id db.cart_items) × (db' ≡ db)
  unfolding read_line to_cart_view
  read_line-quantity db db' view done = ground arith

  add_item-Addition :
      (id : ℕ) (db db' : Db H) (view : CartItemView)
      → add_item id user_id product_id (pos_part quantity) db ≡ (ok view, db')
      → Addition db (ok view, db')
  unfolding add_item
  add_item-Addition id db db' view done =
      let c : CartItem = record {
        id = id;
        user_id = user_id;
        product_id = product_id;
        quantity = pos_part quantity;
      } in
      elim (Bool-cases (is_some (find_by product_key product_id db.products))) [
        | inr missing ↦ absurd (ground arith)
        | inl there ↦ elim (Bool-cases (quantity_fits user_id product_id (pos_part quantity) db)) [
          | inr over ↦ absurd (ground arith)
          | inl fits ↦ elim (Result-cases (upsert_item c db)) [
            | inr (e, d, failed) ↦ absurd (ground arith)
            | inl (_, d, stored) ↦
                let (told, same) = read_line-quantity d db' view (ground arith) in
                (there, rw same told, λ u p. rw same (upsert_item-quantity u p c db d stored))
          ]
        ]
      ]

  committed-Addition :
      (id : ℕ) (db : Db H)
      → Addition db (commit (add_item id user_id product_id (pos_part quantity)) db)
  committed-Addition id db =
      let body = add_item id user_id product_id (pos_part quantity) in
      elim (Result-cases (commit body db)) [
        | inl (view, d, done) ↦
            rw (done, Addition) (add_item-Addition id db d view (commit-eq-ok body db view d done))
        | inr (e, d, failed) ↦ rw (failed, Addition) (commit-eq-err body db e d failed)
      ]

  -- An addition to the cart fails and changes no table, or the product exists and exactly the
  -- quantity of that product in that buyer's cart has grown, by the quantity asked for; the view
  -- tells the sum.
  pub add_to_cart-Addition :
      (id : ℕ) (db : Db H) → Addition db (add_to_cart id user_id product_id quantity db)
  unfolding add_to_cart
  add_to_cart-Addition id db = elim (Bool-cases (is_zero user_id || is_zero product_id)) [
    | inl zero_id ↦ rw (zero_id, Addition) refl
    | inr given ↦ elim (Bool-cases (ltb_ℤ quantity (pos 1))) [
      | inl small ↦ rw (given, small, Addition) refl
      | inr enough ↦ rw (given, enough) (committed-Addition id db)
    ]
  ]
