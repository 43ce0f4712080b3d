-- ===== src/Checkout/Commit.antt =====
-- `buildAndCommit`: every write of an order creation, and the constraints of the tables written.
use shop_mall.Common.Base.{
  ℕ, Bool, true, false, not, ◌&&◌, ◌||◌, none, some, List, [], ◌∷◌, ◌++◌, map, ltb, ◌==◌,
  if◌then◌else◌,
}
use shop_mall.Common.Int.{ℤ, pos}
use shop_mall.Common.Int64.{neg64}
use shop_mall.Common.Table.{any, update_by}
use shop_mall.Common.Text.{Text, trim_space, text_eq}
use shop_mall.Database.Rows.{
  paid, Product, CartItem, OrderItem, Order, order_pay, order_pay_key, PointsLedger,
}
use shop_mall.Database.Store.{Error, Result, ok, err, Action, pure, ◌>>=◌, ◌>>◌}
use shop_mall.Payment.Balance.{adjust_balance}
use shop_mall.Payment.Ledger.{create_entry}
use shop_mall.Orders.Repository.{OrderView, to_order, order_key, row_ok}
use shop_mall.Audit.{map_err}
use shop_mall.Cart.Repository.{delete_by_ids}
use shop_mall.Addresses.Lookup.{AddressView}
use shop_mall.Digest.{Digest}
use shop_mall.Checkout.Request.{OrderRequest, request_hash_items_of, compute_order_request_hash}
use shop_mall.Checkout.Items.{build_items, decrement_all}

-- What a call takes from its surroundings: the clock, the order number and the new identifiers.
pub record Env : Type 0 where
  pub now : ℕ
  pub order_no : Text
  pub order_id : ℕ
  pub entry_id : ℕ

-- `translateBalanceError`
abbrev pub translate_balance_error : Error → Error
translate_balance_error Error.payment_user_not_found = Error.user_not_found
translate_balance_error Error.insufficient_balance = Error.insufficient_points
translate_balance_error e = e

-- `buildAddress`: the region, a space and the detail.
unfoldable pub build_address : AddressView → Text
build_address addr = trim_space (addr.region ++ 32 ∷ addr.detail)

-- An item with the identifier of its order.
abbrev pub set_order_id : ℕ → OrderItem → OrderItem
set_order_id id i = record i { order_id = id }

-- order_items_order_id_product_id_key: no product twice in one order.
unfoldable pub repeats_product : List OrderItem → Bool
repeats_product [] = false
repeats_product (i ∷ is) =
    any (λ (j : OrderItem). i.product_id == j.product_id) is || repeats_product is

-- order_items_price_snapshot_positive and order_items_quantity_positive
unfoldable pub items_ok : List OrderItem → Bool
items_ok [] = true
items_ok (i ∷ is) = ltb 0 i.price_snapshot && ltb 0 i.quantity && items_ok is

module _ {H : Type 0} where
  -- The unique indexes of orders: the key, order_no and (user_id, client_token).
  unfoldable pub order_collides : Order H → Order H → Bool
  order_collides new old =
      old.id == new.id
      || text_eq old.order_no new.order_no
      || (old.user_id == new.user_id && text_eq old.client_token new.client_token)

  -- INSERT INTO orders
  unfoldable pub insert_order : Order H → Action H (Unit {0})
  unfolding order_collides
  insert_order o db =
      if not (row_ok o)
      then (err Error.check_violation, db)
      else if any (order_collides o) db.orders
      then (err Error.unique_violation, db)
      else (ok tt, record db { orders = o ∷ db.orders })

  -- INSERT INTO order_items, for the order just inserted.
  unfoldable pub insert_items : ℕ → List OrderItem → Action H (Unit {0})
  unfolding items_ok repeats_product
  insert_items id items db =
      if not (items_ok items)
      then (err Error.check_violation, db)
      else if repeats_product items
      then (err Error.unique_violation, db)
      else (
        ok tt,
        record db { orders = update_by order_key id (λ o. record o { items = items }) db.orders },
      )

  -- A result of the code that touches no table, inside a transaction.
  abbrev pub lift : {A : Type 0} → Result A → Action H A
  lift r db = (r, db)

module _ {H : Type 0} (digest : Digest H) (env : Env) (user_id : ℕ) (key : Text)
    (req : OrderRequest) where
  -- The orders row, before its items.
  unfoldable pub order_row : AddressView → List CartItem → ℤ → Order H
  unfolding build_address
  order_row addr cart total = record {
    id = env.order_id;
    order_no = env.order_no;
    user_id = user_id;
    client_token = key;
    request_hash =
        compute_order_request_hash digest req.cart_item_ids (request_hash_items_of cart) addr;
    status = paid;
    total_points = total;
    receiver = addr.receiver;
    phone = addr.phone;
    address = build_address addr;
    refund_reason = [];
    refund_reject_reason = [];
    refund_reviewed_by = none;
    refund_reviewed_at = none;
    paid_at = env.now;
    shipped_by = none;
    shipped_at = none;
    completed_at = none;
    refunded_at = none;
    items = [];
  }

  -- The row with its items, as it is committed.
  abbrev pub placed : AddressView → List CartItem → List OrderItem → ℤ → Order H
  placed addr cart items total = record (order_row addr cart total) {
    items = map (set_order_id env.order_id) items;
  }

  -- The ledger row of the payment.
  unfoldable pub pay_row : ℤ → ℕ → PointsLedger H
  unfolding neg64
  pay_row total balance = record {
    id = env.entry_id;
    user_id = user_id;
    order_id = some env.order_id;
    event_key = order_pay_key env.order_id;
    request_hash = none;
    kind = order_pay;
    delta = neg64 total;
    balance_after = balance;
    created_by_admin_id = none;
    remark = env.order_no;
    created_at = env.now;
  }

  -- `buildAndCommit`
  unfoldable pub build_and_commit :
      AddressView → List CartItem → List Product → Action H (OrderView H)
  build_and_commit addr cart products = do
    lines ← lift (build_items products (pos 0) cart)
    decrement_all cart
    balance ← map_err translate_balance_error (adjust_balance user_id (neg64 lines.1))
    insert_order (order_row addr cart lines.1)
    insert_items env.order_id (map (set_order_id env.order_id) lines.0)
    create_entry (pay_row lines.1 balance)
    delete_by_ids user_id req.cart_item_ids
    pure (to_order (placed addr cart lines.0 lines.1))
