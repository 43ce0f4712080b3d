-- ===== src/Examples/Buying.antt =====
-- Order creations in the example shop.
use shop_mall.System.History.{Extends}
use shop_mall.System.Final.{Runs-Extends}
use shop_mall.Common.Base.{ℕ, ◌+◌, ◌*◌, ◌%◌, ◌≤◌, ◌≡◌, refl, none, [], ◌∷◌, map, arith}
use shop_mall.Common.Int.{pos, ◌+ℤ◌, ◌-ℤ◌, ◌*ℤ◌}
use shop_mall.Common.Int64.{max_int64, modulus, add64, sub64, mul64, neg64}
use shop_mall.Common.Text.{rune_len, trim_left, trim_right, is_space, byte_len, trim_space, text_eq}
use shop_mall.Database.Rows.{paid, Product, CartItem}
use shop_mall.Database.Store.{Db, Result, ok, err}
use shop_mall.Payment.Balance.{lock_user, store_balance, adjust_balance}
use shop_mall.Payment.Ledger.{collides, direction_valid, checks_pass, create_entry}
use shop_mall.Payment.Accounts.{IsBalanced}
use shop_mall.Catalog.Stock.{lock_by_ids, decrement_stock}
use shop_mall.Orders.Repository.{OrderView, to_order, row_ok, find_for_replay}
use shop_mall.Cart.Repository.{lock_for_order, delete_by_ids}
use shop_mall.Addresses.Lookup.{to_address_view, owned_address, get_address}
use shop_mall.Checkout.Request.{valid_idempotency_key, fresh_ids, valid_order_request}
use shop_mall.Checkout.Items.{
  product_ids_of, order_item_of, line_total, add_line, build_items, decrement_all,
}
use shop_mall.Checkout.Commit.{
  repeats_product, items_ok, order_collides, insert_order, insert_items, order_row, pay_row,
  build_and_commit,
}
use shop_mall.Checkout.Execute.{with_cart, after_cart, checkout, finish, run_order, create_order}
use shop_mall.Checkout.Lines.{exact_total, build_items-exact}
use shop_mall.Checkout.Outcome.{Outcome, create_order-Outcome}
use shop_mall.Checkout.Lines.{exact_total, build_items-exact}
use shop_mall.Orders.Sold.{goods}
use shop_mall.Payment.Accounts.{IsBalanced}
use shop_mall.System.{Runs, idle, order}
use shop_mall.Examples.Shop.{
  checksum, tea, cart_row, placed_order, shop, order_env, token, basket, alone, shop-IsBalanced,
}
use shop_mall.System.Invariants.{Runs-IsBalanced, Runs-conserves}
use shop_mall.Checkout.Replay.{create_order-replay}
use shop_mall.Checkout.Lines.{build_items-wraps}

abbrev view_or : OrderView ℕ → Result (OrderView ℕ) → OrderView ℕ
view_or v (ok w) = w
view_or v (err e) = v

-- The shop after the cart was bought, and what the buyer was told.
abbrev bought : Db ℕ
bought = (create_order checksum order_env 1 token basket alone (shop [])).1

abbrev receipt : OrderView ℕ
receipt =
    view_or (to_order (placed_order paid none))
      (create_order checksum order_env 1 token basket alone (shop [])).0

bought_lem : create_order checksum order_env 1 token basket alone (shop []) ≡ (ok receipt, bought)
unfolding create_order run_order finish checkout with_cart after_cart build_and_commit
    valid_idempotency_key valid_order_request fresh_ids byte_len rune_len trim_space trim_left
    trim_right is_space find_for_replay lock_user get_address owned_address to_address_view
    lock_for_order lock_by_ids build_items add_line line_total order_item_of decrement_all
    decrement_stock adjust_balance store_balance insert_order insert_items create_entry
    delete_by_ids pay_row order_row neg64 mul64 sub64 add64 ◌+ℤ◌ ◌-ℤ◌ ◌*ℤ◌ row_ok order_collides
    items_ok repeats_product checks_pass direction_valid collides text_eq product_ids_of
bought_lem = refl

balances_lem : map (λ u. u.points_balance) bought.users ≡ 80 ∷ []
unfolding create_order run_order finish checkout with_cart after_cart build_and_commit
    valid_idempotency_key valid_order_request fresh_ids byte_len rune_len trim_space trim_left
    trim_right is_space find_for_replay lock_user get_address owned_address to_address_view
    lock_for_order lock_by_ids build_items add_line line_total order_item_of decrement_all
    decrement_stock adjust_balance store_balance insert_order insert_items create_entry
    delete_by_ids pay_row order_row neg64 mul64 sub64 add64 ◌+ℤ◌ ◌-ℤ◌ ◌*ℤ◌ row_ok order_collides
    items_ok repeats_product checks_pass direction_valid collides text_eq product_ids_of
balances_lem = refl

abbrev run : Runs checksum (shop []) bought
run = order order_env 1 token basket alone idle idle

Runs-IsBalanced_example : IsBalanced bought
Runs-IsBalanced_example = Runs-IsBalanced checksum run (shop-IsBalanced [])

Runs-conserves_example : goods 5 bought ≡ goods 5 (shop [])
Runs-conserves_example = Runs-conserves checksum 5 run

Runs-Extends_example : Extends (shop []) bought
Runs-Extends_example = Runs-Extends checksum run

create_order-Outcome_example :
    Outcome checksum order_env 1 token basket alone
      (shop [])
      (create_order checksum order_env 1 token basket alone (shop []))
create_order-Outcome_example =
    create_order-Outcome checksum order_env 1 token basket alone (shop [])

create_order-replay_example :
    create_order checksum (record order_env { now = 70; order_id = 42 }) 1 token basket alone bought
    ≡ (ok receipt, bought)
create_order-replay_example =
    create_order-replay checksum order_env 1 token basket alone alone
      (record order_env { now = 70; order_id = 42 }) (shop []) bought bought receipt bought_lem refl
      refl

abbrev jade : Product
jade = record tea { price_points = 4611686018427387905; stock = 4 }

abbrev jade_row : CartItem
jade_row = record cart_row { quantity = 4 }

tea_lines :
    build_items (tea ∷ []) (pos 0) (cart_row ∷ []) ≡ ok (order_item_of cart_row tea ∷ [], pos 20)
unfolding build_items add_line line_total mul64 sub64 add64 ◌+ℤ◌ ◌-ℤ◌ ◌*ℤ◌
tea_lines = refl

build_items-exact_example :
    (pos 20 ≡ pos (0 + exact_total (order_item_of cart_row tea ∷ [])))
    × (0 + exact_total (order_item_of cart_row tea ∷ []) ≤ max_int64)
unfolding order_item_of
build_items-exact_example =
    build_items-exact (tea ∷ []) (cart_row ∷ []) 0 (pos 20) (order_item_of cart_row tea ∷ [])
      (omega arith) tea_lines (omega arith, tt)

build_items-wraps_example :
    build_items (jade ∷ []) (pos 0) (jade_row ∷ [])
    ≡ ok (order_item_of jade_row jade ∷ [], pos (4611686018427387905 * 4 % modulus))
build_items-wraps_example =
    build_items-wraps (jade ∷ []) jade_row jade refl refl (omega arith) (omega arith)
