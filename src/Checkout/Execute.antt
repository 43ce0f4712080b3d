-- ===== src/Checkout/Execute.antt =====
-- `Execute`: the locks in their order, the replay of a client token, and the race for one.
use shop_mall.Common.Base.{ℕ, not, Option, none, some, List, if◌then◌else◌}
use shop_mall.Common.Text.{Text}
use shop_mall.Database.Rows.{is_zero, CartItem, Order}
use shop_mall.Database.Store.{Db, Error, Result, ok, err, Action, ◌>>=◌, ◌>>◌, commit}
use shop_mall.Payment.Balance.{lock_user}
use shop_mall.Catalog.Stock.{lock_by_ids}
use shop_mall.Orders.Repository.{OrderView, to_order, find_for_replay}
use shop_mall.Audit.{map_err}
use shop_mall.Cart.Repository.{lock_for_order}
use shop_mall.Addresses.Lookup.{AddressView, get_address}
use shop_mall.Digest.{Digest}
use shop_mall.Checkout.Request.{
  OrderRequest, valid_idempotency_key, valid_order_request, order_hash_items_of,
  compute_order_request_hash,
}
use shop_mall.Checkout.Items.{product_ids_of}
use shop_mall.Checkout.Commit.{Env, translate_balance_error, build_and_commit}

module _ {H : Type 0} (digest : Digest H) (user_id : ℕ) (req : OrderRequest) where
  -- The hash of the request as a replay computes it: the items are those of the existing order.
  unfoldable pub replay_hash : Order H → AddressView → H
  replay_hash existing addr =
      compute_order_request_hash digest req.cart_item_ids (order_hash_items_of existing.items) addr

  -- Replay or conflict, by the two hashes.
  unfoldable pub match_hash : Order H → AddressView → Action H (OrderView H)
  unfolding replay_hash
  match_hash existing addr db =
      if not (digest.same (replay_hash existing addr) existing.request_hash)
      then (err Error.idempotency_conflict, db)
      else (ok (to_order existing), db)

  -- `resolveReplay`
  unfoldable pub resolve_replay : Order H → Action H (OrderView H)
  unfolding match_hash
  resolve_replay existing = do addr ← get_address user_id req.address_id; match_hash existing addr

module _ {H : Type 0} (digest : Digest H) (env : Env) (user_id : ℕ) (key : Text)
    (req : OrderRequest) where
  -- `resolveAfterConflict`
  unfoldable pub resolve_after_conflict : Action H (OrderView H)
  unfolding resolve_replay
  resolve_after_conflict db = elim (find_for_replay user_id key db) [
    | none ↦ (err Error.order_not_found, db)
    | some existing ↦ resolve_replay digest user_id req existing db
  ]

  -- The second look for the order of the token, after a chosen cart row was not found.
  unfoldable pub recheck : Option (Order H) → Action H (OrderView H)
  unfolding resolve_replay
  recheck none db = (err Error.cart_item_not_found, db)
  recheck (some racer) db = resolve_replay digest user_id req racer db

  -- From the product locks on.
  unfoldable pub with_cart : AddressView → List CartItem → Action H (OrderView H)
  with_cart addr cart = do
    products ← lock_by_ids (product_ids_of cart)
    build_and_commit digest env user_id key req addr cart products

  -- How the transaction goes on from what the cart locks gave.
  unfoldable pub after_cart : AddressView → Result (List CartItem) → Action H (OrderView H)
  unfolding with_cart recheck
  after_cart addr (ok cart) db = with_cart addr cart db
  after_cart addr (err Error.cart_item_not_found) db = recheck (find_for_replay user_id key db) db
  after_cart addr (err e) db = (err e, db)

  -- The transaction after its replay check found no order.
  unfoldable pub checkout : Action H (OrderView H)
  unfolding after_cart
  checkout = do
    map_err translate_balance_error (lock_user user_id)
    addr ← get_address user_id req.address_id
    cart ← (λ db. (ok (lock_for_order user_id req.cart_item_ids db).0, db))
    after_cart addr cart

  -- What follows the transaction. Whatever `resolveAfterConflict` fails with, the caller gets the
  -- unique violation itself.
  unfoldable pub finish : Result (OrderView H) × Db H → Result (OrderView H) × Db H
  unfolding resolve_after_conflict
  finish (ok view, db) = (ok view, db)
  finish (err Error.unique_violation, db) = elim (resolve_after_conflict db).0 [
    | ok view ↦ (ok view, db)
    | err e ↦ (err Error.unique_violation, db)
  ]
  finish (err e, db) = (err e, db)

  -- The transaction by what its first step, the lock of the token's order, finds.
  unfoldable pub run_order : (Db H → Db H) → Option (Order H) → Action H (OrderView H)
  unfolding checkout finish
  run_order race (some existing) db = commit (resolve_replay digest user_id req existing) db
  run_order race none db = finish (commit checkout (race db))

  -- `Execute`
  unfoldable pub create_order : (Db H → Db H) → Action H (OrderView H)
  unfolding run_order
  create_order race db =
      if not (valid_idempotency_key key)
      then (err Error.invalid_idempotency_key, db)
      else if not (valid_order_request req)
      then (err Error.invalid_order_request, db)
      else if is_zero user_id
      then (err Error.invalid_order_request, db)
      else run_order race (find_for_replay user_id key db) db
