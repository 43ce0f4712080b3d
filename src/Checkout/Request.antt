-- ===== src/Checkout/Request.antt =====
-- The request of an order: its validation and its canonical hash.
use shop_mall.Common.Base.{ℕ, Bool, true, not, ◌&&◌, ◌||◌, List, [], ◌∷◌, ltb, ◌==◌}
use shop_mall.Common.Table.{length, elem, order_by}
use shop_mall.Common.Text.{Text, byte_len, trim_space, is_blank}
use shop_mall.Database.Rows.{is_zero, CartItem, OrderItem}
use shop_mall.Addresses.Lookup.{AddressView}
use shop_mall.Digest.{Digest, RequestHashItem}

-- `OrderRequest`
pub record OrderRequest : Type 0 where
  pub cart_item_ids : List ℕ
  pub address_id : ℕ

-- `ValidateIdempotencyKey`: 1 to 64 bytes, not blank.
unfoldable pub valid_idempotency_key : Text → Bool
valid_idempotency_key key =
    not (ltb (byte_len key) 1 || ltb 64 (byte_len key) || is_blank (trim_space key))

-- The loop of `validateOrderRequest`: no identifier is zero or was seen before.
unfoldable pub fresh_ids : List ℕ → List ℕ → Bool
fresh_ids seen [] = true
fresh_ids seen (id ∷ ids) = not (is_zero id) && not (elem id seen) && fresh_ids (id ∷ seen) ids

-- `validateOrderRequest`
unfoldable pub valid_order_request : OrderRequest → Bool
unfolding fresh_ids
valid_order_request req =
    not (is_zero req.address_id)
    && not (length req.cart_item_ids == 0)
    && fresh_ids [] req.cart_item_ids

abbrev pub own_key : ℕ → ℕ
own_key id = id

abbrev pub hash_item_key : RequestHashItem → ℕ
hash_item_key i = i.product_id

-- `requestHashItemsOf`
unfoldable pub request_hash_items_of : List CartItem → List RequestHashItem
request_hash_items_of [] = []
request_hash_items_of (c ∷ cs) =
    record { product_id = c.product_id; quantity = c.quantity } ∷ request_hash_items_of cs

-- The same from the items of an order, as the replay checks build it.
unfoldable pub order_hash_items_of : List OrderItem → List RequestHashItem
order_hash_items_of [] = []
order_hash_items_of (i ∷ is) =
    record { product_id = i.product_id; quantity = i.quantity } ∷ order_hash_items_of is

-- `ComputeOrderRequestHash`: both lists are sorted before they are hashed.
unfoldable pub compute_order_request_hash :
    {H : Type 0} → Digest H → List ℕ → List RequestHashItem → AddressView → H
compute_order_request_hash digest ids items addr = digest.of_order (record {
  cart_item_ids = order_by own_key ids;
  items = order_by hash_item_key items;
  address = record {
    address_id = addr.id;
    version = addr.version;
    receiver = addr.receiver;
    phone = addr.phone;
    region = addr.region;
    detail = addr.detail;
  };
})
