-- ===== src/Cart/Service.antt =====
-- internal/cart/service.go: `Add`, `List`, `Update` and `Delete`. A quantity of the request is an
-- int32, which may be below one; the view has the product row from which its projection is made.
use shop_mall.Common.Base.{
  ℕ, ◌+◌, Bool, true, not, ◌&&◌, ◌||◌, Option, none, some, List, ◌∷◌, map, ltb, ◌==◌, if◌then◌else◌,
  is_some,
}
use shop_mall.Common.Int.{ℤ, pos, pos_part, ltb_ℤ}
use shop_mall.Common.Int64.{max_int32}
use shop_mall.Common.Table.{
  find, filter, update_where, any, find_by, update_by, delete_by, order_by,
}
use shop_mall.Database.Rows.{User, is_zero, Product, CartItem}
use shop_mall.Database.Store.{Db, Error, ok, err, Action, guard, ◌>>◌, commit}
use shop_mall.Catalog.Stock.{product_key}
use shop_mall.Cart.Repository.{cart_key}

-- `CartItemView`
pub record CartItemView : Type 0 where
  pub id : ℕ
  pub product_id : ℕ
  pub quantity : ℕ
  pub product : Option Product

-- WHERE user_id = … AND product_id = …, the unique key of a row.
abbrev pub same_line : ℕ → ℕ → CartItem → Bool
same_line user_id product_id c = c.user_id == user_id && c.product_id == product_id

abbrev pub add_quantity : ℕ → CartItem → CartItem
add_quantity n c = record c { quantity = c.quantity + n }

abbrev pub set_quantity : ℕ → CartItem → CartItem
set_quantity n c = record c { quantity = n }

-- WHERE id = … AND user_id = …
unfoldable pub owned_item : ℕ → ℕ → List CartItem → Option CartItem
owned_item user_id id rows = elim (find_by cart_key id rows) [
  | none ↦ none
  | some c ↦ if c.user_id == user_id then some c else none
]

module _ {H : Type 0} where
  -- `toView`, with the preloaded product.
  unfoldable pub to_cart_view : Db H → CartItem → CartItemView
  to_cart_view db c = record {
    id = c.id;
    product_id = c.product_id;
    quantity = c.quantity;
    product = find_by product_key c.product_id db.products;
  }

  -- INSERT INTO cart_items … ON CONFLICT (user_id, product_id) DO UPDATE SET quantity = the sum.
  unfoldable pub upsert_item : CartItem → Action H (Unit {0})
  upsert_item c db = elim (find (same_line c.user_id c.product_id) db.cart_items) [
    | some old ↦
        if ltb max_int32 (old.quantity + c.quantity) then (err Error.out_of_range, db) else (
          ok tt,
          record db {
            cart_items =
                update_where (same_line c.user_id c.product_id) (add_quantity c.quantity)
                  db.cart_items;
          },
        )
    | none ↦
        if any (λ (old : CartItem). old.id == c.id) db.cart_items
        then (err Error.unique_violation, db)
        else if not (any (λ (u : User). u.id == c.user_id) db.users)
        then (err Error.foreign_key_violation, db)
        else (ok tt, record db { cart_items = c ∷ db.cart_items })
  ]

  -- Whether the sum of the stored and the new quantity stays in int32.
  unfoldable pub quantity_fits : ℕ → ℕ → ℕ → Db H → Bool
  quantity_fits user_id product_id n db = elim (find (same_line user_id product_id) db.cart_items) [
    | none ↦ true
    | some current ↦ not (ltb max_int32 (current.quantity + n))
  ]

  -- The row read again after a write.
  unfoldable pub read_line : ℕ → ℕ → Action H CartItemView
  unfolding to_cart_view
  read_line user_id product_id db = elim (find (same_line user_id product_id) db.cart_items) [
    | none ↦ (err Error.record_not_found, db)
    | some c ↦ (ok (to_cart_view db c), db)
  ]

  -- The transaction of `Add`, with the identifier of a new row.
  unfoldable pub add_item : ℕ → ℕ → ℕ → ℕ → Action H CartItemView
  add_item id user_id product_id n = do
    (λ db.
        guard (is_some (find_by product_key product_id db.products)) Error.cart_product_not_found
          db)
    (λ db. guard (quantity_fits user_id product_id n db) Error.quantity_overflow db)
    upsert_item (record { id = id; user_id = user_id; product_id = product_id; quantity = n })
    read_line user_id product_id

  -- `Add`
  unfoldable pub add_to_cart : ℕ → ℕ → ℕ → ℤ → Action H CartItemView
  unfolding add_item
  add_to_cart id user_id product_id quantity db =
      if is_zero user_id || is_zero product_id
      then (err Error.invalid_cart_item, db)
      else if ltb_ℤ quantity (pos 1)
      then (err Error.invalid_cart_item, db)
      else commit (add_item id user_id product_id (pos_part quantity)) db

  -- `List`
  unfoldable pub list_cart : ℕ → Action H (List CartItemView)
  unfolding to_cart_view
  list_cart user_id db = (
    ok (
        map (to_cart_view db)
          (order_by cart_key (filter (λ (c : CartItem). c.user_id == user_id) db.cart_items))),
    db,
  )

  -- The transaction of `Update`.
  unfoldable pub change_item : ℕ → ℕ → ℕ → Action H CartItemView
  unfolding to_cart_view
  change_item user_id item_id n db = elim (owned_item user_id item_id db.cart_items) [
    | none ↦ (err Error.cart_item_not_found, db)
    | some c ↦ (
      ok (to_cart_view db (set_quantity n c)),
      record db { cart_items = update_by cart_key c.id (set_quantity n) db.cart_items },
    )
  ]

  -- `Update`
  unfoldable pub update_cart : ℕ → ℕ → ℤ → Action H CartItemView
  unfolding change_item
  update_cart user_id item_id quantity db =
      if is_zero user_id || is_zero item_id
      then (err Error.cart_item_not_found, db)
      else if ltb_ℤ quantity (pos 1)
      then (err Error.invalid_cart_item, db)
      else commit (change_item user_id item_id (pos_part quantity)) db

  -- `Delete`
  unfoldable pub delete_from_cart : ℕ → ℕ → Action H (Unit {0})
  delete_from_cart user_id item_id db =
      if is_zero user_id || is_zero item_id
      then (err Error.cart_item_not_found, db)
      else elim (owned_item user_id item_id db.cart_items) [
        | none ↦ (err Error.cart_item_not_found, db)
        | some c ↦ (ok tt, record db { cart_items = delete_by cart_key c.id db.cart_items })
      ]
