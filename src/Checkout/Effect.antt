-- ===== src/Checkout/Effect.antt =====
-- The writes of a committed order creation.
use shop_mall.Common.Base.{
  Bool-cases, ◌==◌, inl, inr, refl, ℕ, ◌+◌, ◌≡◌, refl, ap, ◌∙◌, inl, inr, true, false, some, List,
  [], ◌∷◌, map, arith,
}
use shop_mall.Common.Int.{ℤ, pos, ◌+ℤ◌}
use shop_mall.Common.Int64.{neg64}
use shop_mall.Common.Table.{delete_where, any, find_by, update_by, update_by-head}
use shop_mall.Common.Text.{Text}
use shop_mall.Database.Rows.{User, Product, CartItem, OrderItem, Order}
use shop_mall.Database.Store.{Db, Result, ok, err, pure, Result-cases}
use shop_mall.Payment.Balance.{user_key, set_balance, adjust_balance}
use shop_mall.Payment.Ledger.{create_entry}
use shop_mall.Payment.Accounts.{adjust_balance-eq-ok, create_entry-eq-ok}
use shop_mall.Catalog.Stock.{decrement_stock, lock_by_ids}
use shop_mall.Orders.Repository.{OrderView, to_order, order_key, row_ok}
use shop_mall.Catalog.Conservation.{stock_of, units, decrement_stock-eq-ok, stock_of-sub}
use shop_mall.Cart.Repository.{chosen, lock_for_order, delete_by_ids}
use shop_mall.Addresses.Lookup.{AddressView}
use shop_mall.Digest.{Digest}
use shop_mall.Checkout.Request.{OrderRequest}
use shop_mall.Checkout.Items.{product_ids_of, build_items, decrement_all}
use shop_mall.Checkout.Commit.{
  Env, set_order_id, order_collides, insert_order, insert_items, order_row, placed, pay_row,
  build_and_commit,
}
use shop_mall.Checkout.Lines.{cart_product, cart_quantity}

none_chosen : (user_id : ℕ) (rows : List CartItem) → delete_where (chosen user_id []) rows ≡ rows
none_chosen user_id [] = refl
none_chosen user_id (c ∷ rows) = elim (Bool-cases (c.user_id == user_id)) [
  | inl mine ↦ rw (mine, none_chosen user_id rows) refl
  | inr other ↦ rw (other, none_chosen user_id rows) refl
]

module _ {H : Type 0} where
  -- The loop takes the units of every cart row, and touches nothing but the products.
  decrement_all-eq-ok :
      (cart : List CartItem) (db db' : Db H)
      → decrement_all cart db ≡ (ok tt, db')
      → (db' ≡ record db { products = db'.products })
        × ((id : ℕ)
            → stock_of id db'.products + units cart_product cart_quantity id cart
              ≡ stock_of id db.products)
  unfolding decrement_all
  decrement_all-eq-ok [] db db' h =
      let same : db ≡ db' = ground arith in (ground arith, λ id. rw (← same) (omega arith))
  decrement_all-eq-ok (c ∷ cs) db db' h =
      elim (Result-cases (decrement_stock c.product_id c.quantity db)) [
        | inr (e, d, failed) ↦ absurd (ground arith)
        | inl (n, d, done) ↦
            let (p, found, _, enough, moved) =
              decrement_stock-eq-ok c.product_id c.quantity n db d done in
            let (rest, kept) = decrement_all-eq-ok cs d db' (ground arith) in
            (
              ground arith,
              λ id.
                  let step = stock_of-sub id c.product_id c.quantity p db.products found enough in
                  let mid = ap (λ (x : Db H). stock_of id x.products) moved in
                  omega (arith, kept id, step, mid),
            )
      ]

  insert_order-eq-ok :
      (o : Order H) (db db' : Db H)
      → insert_order o db ≡ (ok tt, db')
      → (db' ≡ record db { orders = o ∷ db.orders })
        × (row_ok o ≡ true)
        × (any (order_collides o) db.orders ≡ false)
  unfolding insert_order
  insert_order-eq-ok o db db' h = ground arith

  insert_items-eq-ok :
      (id : ℕ) (items : List OrderItem) (db db' : Db H)
      → insert_items id items db ≡ (ok tt, db')
      → db'
        ≡ record db { orders = update_by order_key id (λ o. record o { items = items }) db.orders }
  unfolding insert_items
  insert_items-eq-ok id items db db' h = ground arith

  delete_by_ids-eq-ok :
      (user_id : ℕ) (ids : List ℕ) (db db' : Db H)
      → delete_by_ids user_id ids db ≡ (ok tt, db')
      → db' ≡ record db { cart_items = delete_where (chosen user_id ids) db.cart_items }
  unfolding delete_by_ids
  delete_by_ids-eq-ok user_id [] db db' h =
      let same : db' ≡ db = ground arith in rw (same, none_chosen user_id db.cart_items) refl
  delete_by_ids-eq-ok user_id (id ∷ ids) db db' h = ground arith

module _ {H : Type 0} (digest : Digest H) (env : Env) (user_id : ℕ) (key : Text)
    (req : OrderRequest) where
  -- An order was created on `db`, for the cart rows `cart` that `LockForOrder` finds there for the
  -- request, at the prices of the products that `LockByIDs` finds there, and for the address `addr`.
  abbrev pub Created : AddressView → List CartItem → OrderView H → Db H → Db H → Type 0
  Created addr cart view db db' =
      (u : User) × (n : ℕ) × (products : List Product) × (items : List OrderItem) × (total : ℤ)
      × (build_items products (pos 0) cart ≡ ok (items, total))
      × (find_by user_key user_id db.users ≡ some u)
      × (pos n ≡ pos u.points_balance +ℤ neg64 total)
      × (view ≡ to_order (placed digest env user_id key req addr cart items total))
      × (db'.users ≡ update_by user_key user_id (set_balance n) db.users)
      × (db'.orders ≡ placed digest env user_id key req addr cart items total ∷ db.orders)
      × (db'.ledger ≡ pay_row digest env user_id key req total n ∷ db.ledger)
      × (db'.addresses ≡ db.addresses)
      × ((id : ℕ)
          → stock_of id db'.products + units cart_product cart_quantity id cart
            ≡ stock_of id db.products)
      × (any (order_collides (order_row digest env user_id key req addr cart total)) db.orders
          ≡ false)
      × (db'.cart_items ≡ delete_where (chosen user_id req.cart_item_ids) db.cart_items)
      × ((lock_for_order user_id req.cart_item_ids db).0 ≡ ok cart)
      × ((lock_by_ids (product_ids_of cart) db).0 ≡ ok products)
      × (db' ≡ record db {
        users = db'.users;
        products = db'.products;
        cart_items = db'.cart_items;
        orders = db'.orders;
        ledger = db'.ledger;
      })

  -- The steps of a transaction that ended well, put together.
  Created-steps :
      (addr : AddressView) (cart : List CartItem) (products : List Product) (items : List OrderItem)
      (total : ℤ) (u : User) (n : ℕ) (db d1 d2 d3 d4 d5 d6 db' : Db H) (view : OrderView H)
      → (lock_for_order user_id req.cart_item_ids db).0 ≡ ok cart
      → (lock_by_ids (product_ids_of cart) db).0 ≡ ok products
      → build_items products (pos 0) cart ≡ ok (items, total)
      → find_by user_key user_id db.users ≡ some u
      → decrement_all cart db ≡ (ok tt, d1)
      → adjust_balance user_id (neg64 total) d1 ≡ (ok n, d2)
      → insert_order (order_row digest env user_id key req addr cart total) d2 ≡ (ok tt, d3)
      → insert_items env.order_id (map (set_order_id env.order_id) items) d3 ≡ (ok tt, d4)
      → create_entry (pay_row digest env user_id key req total n) d4 ≡ (ok tt, d5)
      → delete_by_ids user_id req.cart_item_ids d5 ≡ (ok tt, d6)
      → pure (to_order (placed digest env user_id key req addr cart items total)) d6
        ≡ (ok view, db')
      → Created addr cart view db db'
  unfolding order_row
  Created-steps addr cart products items total u n db d1 d2 d3 d4 d5 d6 db' view picked held built
        there taken moved ordered filled logged emptied told =
      let (left1, kept) = decrement_all-eq-ok cart db d1 taken in
      let there1 = ap (λ (x : Db H). find_by user_key user_id x.users) left1 ∙ there in
      let (sum, left2, fits) = adjust_balance-eq-ok user_id (neg64 total) d1 u n d2 there1 moved in
      let (left3, row_fits, alone) =
        insert_order-eq-ok (order_row digest env user_id key req addr cart total) d2 d3 ordered in
      let left4 =
        insert_items-eq-ok env.order_id (map (set_order_id env.order_id) items) d3 d4 filled in
      let (left5, _, _) =
        create_entry-eq-ok (pay_row digest env user_id key req total n) d4 d5 logged in
      let left6 = delete_by_ids-eq-ok user_id req.cart_item_ids d5 d6 emptied in
      let after : db'.products ≡ d1.products = ground arith in
      let orders2 : d2.orders ≡ db.orders = ground arith in
      let row = order_row digest env user_id key req addr cart total in
      let fill = λ (o : Order H). record o { items = map (set_order_id env.order_id) items } in
      let orders3 : d3.orders ≡ row ∷ db.orders = ground arith in
      let orders4 : d4.orders ≡ update_by order_key env.order_id fill d3.orders =
        ap (λ (x : Db H). x.orders) left4 in
      let orders : d4.orders ≡ fill row ∷ db.orders =
        orders4
        ∙ ap (update_by order_key env.order_id fill) orders3
        ∙ update_by-head order_key fill row db.orders in
      let last : db'.orders ≡ d4.orders = ground arith in
      let carts : d5.cart_items ≡ db.cart_items = ground arith in
      let told_lem : db' ≡ d6 = ground arith in
      (
        u,
        n,
        products,
        items,
        total,
        built,
        there,
        sum,
        ground arith,
        ground arith,
        last ∙ orders,
        ground arith,
        ground arith,
        λ id. rw after (kept id),
        rw (← orders2) alone,
        ap (λ (x : Db H). x.cart_items) told_lem
            ∙ ap (λ (x : Db H). x.cart_items) left6
            ∙ ap (delete_where (chosen user_id req.cart_item_ids)) carts,
        picked,
        held,
        ground arith,
      )

  pub build_and_commit-eq-ok :
      (addr : AddressView) (cart : List CartItem) (products : List Product) (u : User)
      (db db' : Db H) (view : OrderView H)
      → (lock_for_order user_id req.cart_item_ids db).0 ≡ ok cart
      → (lock_by_ids (product_ids_of cart) db).0 ≡ ok products
      → find_by user_key user_id db.users ≡ some u
      → build_and_commit digest env user_id key req addr cart products db ≡ (ok view, db')
      → Created addr cart view db db'
  unfolding build_and_commit
  build_and_commit-eq-ok addr cart products u db db' view picked held there h =
      lines (build_items products (pos 0) cart) refl
    where
      lines :
          (out : Result (List OrderItem × ℤ))
          → build_items products (pos 0) cart ≡ out
          → Created addr cart view db db'
      lines (err e) built = absurd (ground arith)
      lines (ok (items, total)) built = elim (Result-cases (decrement_all cart db)) [
        | inr (e, d1, failed) ↦ absurd (ground arith)
        | inl (_, d1, taken) ↦ elim (Result-cases (adjust_balance user_id (neg64 total) d1)) [
          | inr (e, d2, failed) ↦ absurd (ground arith)
          | inl (n, d2, moved) ↦
              elim (Result-cases
                (insert_order (order_row digest env user_id key req addr cart total) d2)) [
                  | inr (e, d3, failed) ↦ absurd (ground arith)
                  | inl (_, d3, ordered) ↦
                      elim (Result-cases
                        (insert_items env.order_id (map (set_order_id env.order_id) items) d3)) [
                          | inr (e, d4, failed) ↦ absurd (ground arith)
                          | inl (_, d4, filled) ↦
                              elim (Result-cases
                                (create_entry (pay_row digest env user_id key req total n) d4)) [
                                  | inr (e, d5, failed) ↦ absurd (ground arith)
                                  | inl (_, d5, logged) ↦
                                      elim (Result-cases
                                        (delete_by_ids user_id req.cart_item_ids d5)) [
                                          | inr (e, d6, failed) ↦ absurd (ground arith)
                                          | inl (_, d6, emptied) ↦
                                              Created-steps addr cart products items total u n db d1
                                                d2 d3 d4 d5 d6 db' view picked held built there
                                                taken moved ordered filled logged emptied
                                                (ground arith)
                                        ]
                                ]
                        ]
                ]
        ]
      ]
