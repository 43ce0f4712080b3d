-- ===== src/Checkout/Items.antt =====
-- The first two loops of `buildAndCommit`: the order items with their total, in int64, and the
-- stock decrements.
use shop_mall.Common.Base.{ℕ, not, Option, none, some, List, [], ◌∷◌, ltb, if◌then◌else◌}
use shop_mall.Common.Int.{ℤ, pos, ltb_ℤ}
use shop_mall.Common.Int64.{max_int64, add64, sub64, mul64}
use shop_mall.Common.Table.{find_by}
use shop_mall.Database.Rows.{is_on_sale, Product, main_image_key, CartItem, OrderItem}
use shop_mall.Database.Store.{Error, Result, ok, err, Action, pure, ◌>>◌}
use shop_mall.Catalog.Stock.{product_key, decrement_stock}

-- `productIDsOf`
unfoldable pub product_ids_of : List CartItem → List ℕ
product_ids_of [] = []
product_ids_of (c ∷ cs) = c.product_id ∷ product_ids_of cs

-- The order item of a cart row, before it has the identifier of its order.
unfoldable pub order_item_of : CartItem → Product → OrderItem
unfolding main_image_key
order_item_of c p = record {
  order_id = 0;
  product_id = p.id;
  product_name = p.name;
  product_image = main_image_key p;
  price_snapshot = p.price_points;
  quantity = c.quantity;
}

-- `productRow.PricePoints * int64(cartItem.Quantity)`
unfoldable pub line_total : CartItem → Product → ℤ
line_total c p = mul64 (pos p.price_points) (pos c.quantity)

-- One round of the first loop, with the total so far.
unfoldable pub add_line : ℤ → CartItem → Option Product → Result (OrderItem × ℤ)
add_line total c none = err Error.product_not_found
add_line total c (some p) =
    if not (is_on_sale p.status)
    then err Error.product_off_sale
    else if ltb p.stock c.quantity
    then err Error.insufficient_stock
    else if ltb_ℤ (sub64 (pos max_int64) (line_total c p)) total
    then err Error.invalid_order_request
    else ok (order_item_of c p, add64 total (line_total c p))

-- An item in front of the items of the later rounds.
abbrev pub cons_item : OrderItem → Result (List OrderItem × ℤ) → Result (List OrderItem × ℤ)
cons_item item (err e) = err e
cons_item item (ok (items, total)) = ok (item ∷ items, total)

-- The first loop, over the cart rows, with the products by their identifier.
unfoldable pub build_items : List Product → ℤ → List CartItem → Result (List OrderItem × ℤ)
build_items products total [] = ok ([], total)
build_items products total (c ∷ cs) =
    elim (add_line total c (find_by product_key c.product_id products)) [
      | err e ↦ err e
      | ok (item, sum) ↦ cons_item item (build_items products sum cs)
    ]

-- The second loop.
unfoldable pub decrement_all : {H : Type 0} → List CartItem → Action H (Unit {0})
decrement_all [] = pure tt
decrement_all (c ∷ cs) = do decrement_stock c.product_id c.quantity; decrement_all cs
