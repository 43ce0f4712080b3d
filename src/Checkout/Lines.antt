-- ===== src/Checkout/Lines.antt =====
-- What the loops over the chosen cart rows compute.
use shop_mall.Common.Base.{
  ℕ, ◌+◌, ◌-◌, ◌*◌, ◌%◌, ◌≤◌, ◌≡◌, refl, ap, ◌∙◌, true, false, Option, none, some, List, [], ◌∷◌,
  map, arith, ltb,
}
use shop_mall.Common.Int.{ℤ, pos, ltb_ℤ}
use shop_mall.Common.Int64.{
  max_int64, modulus, add64, sub64, mul64, mul64_wraps, mul64_exact, add64_exact, sub64_exact,
}
use shop_mall.Common.Table.{find_by, key-find_by}
use shop_mall.Database.Rows.{is_on_sale, Product, CartItem, OrderItem}
use shop_mall.Database.Store.{Result, ok, err}
use shop_mall.Catalog.Stock.{product_key}
use shop_mall.Catalog.Conservation.{units}
use shop_mall.Checkout.Request.{request_hash_items_of, order_hash_items_of}
use shop_mall.Checkout.Items.{order_item_of, line_total, add_line, build_items}
use shop_mall.Checkout.Commit.{set_order_id}
use shop_mall.Orders.Sold.{item_product, item_quantity}

abbrev pub cart_product : CartItem → ℕ
cart_product c = c.product_id

abbrev pub cart_quantity : CartItem → ℕ
cart_quantity c = c.quantity

-- The price of the items, with no bound.
abbrev pub exact_total : List OrderItem → ℕ
exact_total [] = 0
exact_total (i ∷ is) = i.price_snapshot * i.quantity + exact_total is

-- No line's price times quantity leaves int64.
abbrev pub LinesFit : List OrderItem → Type 0
LinesFit [] = Unit
LinesFit (i ∷ is) = (i.price_snapshot * i.quantity ≤ max_int64) × LinesFit is

-- One round that went well: a product on sale with the stock asked for.
pub add_line-eq-ok :
    (total : ℤ) (c : CartItem) (o : Option Product) (item : OrderItem) (sum : ℤ)
    → add_line total c o ≡ ok (item, sum)
    → (p : Product) × (o ≡ some p)
      × (is_on_sale p.status ≡ true)
      × (c.quantity ≤ p.stock)
      × (item ≡ order_item_of c p)
      × (sum ≡ add64 total (line_total c p))
      × (ltb_ℤ (sub64 (pos max_int64) (line_total c p)) total ≡ false)
unfolding add_line
add_line-eq-ok total c none item sum h = absurd (ground arith)
add_line-eq-ok total c (some p) item sum h =
    (p, refl, ground arith, ground arith, ground arith, ground arith, ground arith)

build_items-cons :
    (products : List Product) (total sum : ℤ) (c : CartItem) (cs : List CartItem)
    (items : List OrderItem)
    → build_items products total (c ∷ cs) ≡ ok (items, sum)
    → (item : OrderItem) × (mid : ℤ) × (rest : List OrderItem) × (add_line total c
          (find_by product_key c.product_id products)
        ≡ ok (item, mid))
      × (build_items products mid cs ≡ ok (rest, sum))
      × (items ≡ item ∷ rest)
unfolding build_items
build_items-cons products total sum c cs items h =
    go (add_line total c (find_by product_key c.product_id products)) refl
  where
    go :
        (line : Result (OrderItem × ℤ))
        → add_line total c (find_by product_key c.product_id products) ≡ line
        → (item : OrderItem) × (mid : ℤ) × (rest : List OrderItem) × (add_line total c
              (find_by product_key c.product_id products)
            ≡ ok (item, mid))
          × (build_items products mid cs ≡ ok (rest, sum))
          × (items ≡ item ∷ rest)
    go (err e) added = absurd (ground arith)
    go (ok (item, mid)) added = after (build_items products mid cs) refl
      where
        after :
            (out : Result (List OrderItem × ℤ))
            → build_items products mid cs ≡ out
            → (x : OrderItem) × (m : ℤ) × (rest : List OrderItem) × (add_line total c
                  (find_by product_key c.product_id products)
                ≡ ok (x, m))
              × (build_items products m cs ≡ ok (rest, sum))
              × (items ≡ x ∷ rest)
        after (err e) built = absurd (ground arith)
        after (ok (rest, s)) built = (item, mid, rest, added, ground arith, ground arith)

build_items-nil :
    (products : List Product) (total sum : ℤ) (items : List OrderItem)
    → build_items products total [] ≡ ok (items, sum)
    → (items ≡ []) × (sum ≡ total)
unfolding build_items
build_items-nil products total sum items h = ground arith

-- The items ask for the units that the cart rows ask for.
pub build_items-units :
    (products : List Product) (id : ℕ) (cart : List CartItem) (total sum : ℤ)
    (items : List OrderItem)
    → build_items products total cart ≡ ok (items, sum)
    → units item_product item_quantity id items ≡ units cart_product cart_quantity id cart
unfolding order_item_of
build_items-units products id [] total sum items h =
    rw ((build_items-nil products total sum items h).0) refl
build_items-units products id (c ∷ cs) total sum items h =
    let (item, mid, rest, added, built, split) = build_items-cons products total sum c cs items h in
    let (p, found, _, _, made, _, _) =
      add_line-eq-ok total c (find_by product_key c.product_id products) item mid added in
    let key : p.id ≡ c.product_id = key-find_by product_key c.product_id {r = p} products found in
    rw (split, made, key, build_items-units products id cs mid sum rest built) refl

-- The items of the new order hash as the cart rows did.
pub build_items-hash :
    (products : List Product) (order_id : ℕ) (cart : List CartItem) (total sum : ℤ)
    (items : List OrderItem)
    → build_items products total cart ≡ ok (items, sum)
    → order_hash_items_of (map (set_order_id order_id) items) ≡ request_hash_items_of cart
unfolding order_item_of order_hash_items_of request_hash_items_of
build_items-hash products order_id [] total sum items h =
    rw ((build_items-nil products total sum items h).0) refl
build_items-hash products order_id (c ∷ cs) total sum items h =
    let (item, mid, rest, added, built, split) = build_items-cons products total sum c cs items h in
    let (p, found, _, _, made, _, _) =
      add_line-eq-ok total c (find_by product_key c.product_id products) item mid added in
    let key : p.id ≡ c.product_id = key-find_by product_key c.product_id {r = p} products found in
    rw (split, made, key, build_items-hash products order_id cs mid sum rest built) refl

add_line-exact :
    (t : ℕ) (c : CartItem) (o : Option Product) (item : OrderItem) (mid : ℤ)
    → t ≤ max_int64
    → add_line (pos t) c o ≡ ok (item, mid)
    → item.price_snapshot * item.quantity ≤ max_int64
    → (mid ≡ pos (t + item.price_snapshot * item.quantity))
      × (t + item.price_snapshot * item.quantity ≤ max_int64)
unfolding order_item_of line_total
add_line-exact t c o item mid fits added h =
    let (p, _, _, _, made, summed, room) = add_line-eq-ok (pos t) c o item mid added in
    let line : p.price_points * c.quantity ≤ max_int64 = rw made at h in
    let product = mul64_exact p.price_points c.quantity line in
    let rest = sub64_exact max_int64 (p.price_points * c.quantity) line (omega arith) in
    let room' : ltb_ℤ (pos (max_int64 - p.price_points * c.quantity)) (pos t) ≡ false =
      rw (product, rest) at room in
    let sum_fits : t + p.price_points * c.quantity ≤ max_int64 = ground arith in
    rw made
      (rw (summed, product, add64_exact t (p.price_points * c.quantity) sum_fits) refl, sum_fits)

-- Where no line leaves int64, a loop that ends well has added up the exact price, and it fits.
pub build_items-exact :
    (products : List Product) (cart : List CartItem) (t : ℕ) (sum : ℤ) (items : List OrderItem)
    → t ≤ max_int64
    → build_items products (pos t) cart ≡ ok (items, sum)
    → LinesFit items
    → (sum ≡ pos (t + exact_total items)) × (t + exact_total items ≤ max_int64)
unfolding order_item_of line_total
build_items-exact products [] t sum items fits h lines =
    let (none_left, same) = build_items-nil products (pos t) sum items h in
    rw (none_left, same) (ground arith, ground arith)
build_items-exact products (c ∷ cs) t sum items fits h lines =
    let (item, mid, rest, added, built, split) =
      build_items-cons products (pos t) sum c cs items h in
    let (first, others) : (item.price_snapshot * item.quantity ≤ max_int64) × LinesFit rest =
      rw split at lines in
    let (mid_sum, mid_fits) =
      add_line-exact t c (find_by product_key c.product_id products) item mid fits added first in
    let (total, total_fits) =
      build_items-exact products cs (t + item.price_snapshot * item.quantity) sum rest mid_fits
        (rw mid_sum at built) others in
    rw split (rw total (ap pos (omega arith)), omega arith)

-- The line total is taken before its sum is tested: a cart of one row whose price times quantity
-- leaves int64 passes the test, and its total is what the product wraps to, where that is not
-- negative.
pub build_items-wraps :
    (products : List Product) (c : CartItem) (p : Product)
    → find_by product_key c.product_id products ≡ some p
    → is_on_sale p.status ≡ true
    → c.quantity ≤ p.stock
    → p.price_points * c.quantity % modulus ≤ max_int64
    → build_items products (pos 0) (c ∷ [])
      ≡ ok (order_item_of c p ∷ [], pos (p.price_points * c.quantity % modulus))
unfolding build_items add_line line_total
build_items-wraps products c p found sale stocked small =
    let wrapped : mul64 (pos p.price_points) (pos c.quantity)
        ≡ pos (p.price_points * c.quantity % modulus) =
      mul64_wraps p.price_points c.quantity ∙ ground arith in
    let room = sub64_exact max_int64 (p.price_points * c.quantity % modulus) small (omega arith) in
    let sum = add64_exact 0 (p.price_points * c.quantity % modulus) (omega arith) in
    let enough : ltb p.stock c.quantity ≡ false = ground arith in
    let line : add_line (pos 0) c (some p)
        ≡ ok (order_item_of c p, pos (p.price_points * c.quantity % modulus)) =
      rw (sale, enough, wrapped, room, sum) (ground arith) in
    ground (arith, found, line)
