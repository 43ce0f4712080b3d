-- ===== src/Examples/Carts.antt =====
-- Carts in the example shop.
use shop_mall.Common.Base.{[]}
use shop_mall.Common.Int.{pos}
use shop_mall.Examples.Shop.{shop}
use shop_mall.Cart.Service.{add_to_cart}
use shop_mall.Cart.Quantities.{Addition, add_to_cart-Addition}

add_to_cart-Addition_example : Addition 1 5 (pos 3) (shop []) (add_to_cart 10 1 5 (pos 3) (shop []))
add_to_cart-Addition_example = add_to_cart-Addition 1 5 (pos 3) 10 (shop [])
