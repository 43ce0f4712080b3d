-- ===== src/Checkout/Replay.antt =====
-- The Idempotency-Key of an order.
use shop_mall.Common.Base.{ℕ, ◌≡◌, refl, ◌∙◌, inl, inr, true, false, some, List, ◌∷◌, arith}
use shop_mall.Common.Int.{ℤ, pos}
use shop_mall.Common.Text.{Text, text_eq_refl}
use shop_mall.Database.Rows.{is_zero, Product, CartItem, OrderItem, Order}
use shop_mall.Database.Store.{Db, ok}
use shop_mall.Orders.Repository.{OrderView, to_order, find_for_replay}
use shop_mall.Addresses.Lookup.{AddressView, get_address}
use shop_mall.Digest.{Digest}
use shop_mall.Checkout.Request.{OrderRequest, valid_idempotency_key, valid_order_request}
use shop_mall.Checkout.Items.{build_items}
use shop_mall.Checkout.Commit.{Env, order_row, placed}
use shop_mall.Checkout.Execute.{replay_hash, match_hash, resolve_replay, run_order, create_order}
use shop_mall.Checkout.Lines.{build_items-hash}
use shop_mall.Checkout.Outcome.{Settles, create_order-Outcome}
use shop_mall.Checkout.Lines.{build_items-hash}

module _ {H : Type 0} (digest : Digest H) (env : Env) (user_id : ℕ) (key : Text)
    (req : OrderRequest) where
  -- After a success there is an order to replay.
  abbrev IsPlaced : OrderView H → Db H → Type 0
  IsPlaced view db =
      (existing : Order H) × (addr : AddressView) × (find_for_replay user_id key db ≡ some existing)
      × (get_address user_id req.address_id db ≡ (ok addr, db))
      × (digest.same (replay_hash digest user_id req existing addr) existing.request_hash ≡ true)
      × (view ≡ to_order existing)

  get_address-kept :
      (db db' : Db H) (addr : AddressView)
      → db'.addresses ≡ db.addresses
      → get_address user_id req.address_id db ≡ (ok addr, db)
      → get_address user_id req.address_id db' ≡ (ok addr, db')
  unfolding get_address
  get_address-kept db db' addr same got = ground arith

  placed-hit :
      (addr : AddressView) (cart : List CartItem) (products : List Product) (items : List OrderItem)
      (total : ℤ)
      → build_items products (pos 0) cart ≡ ok (items, total)
      → digest.same
          (replay_hash digest user_id req
            (placed digest env user_id key req addr cart items total)
            addr)
          (placed digest env user_id key req addr cart items total).request_hash
        ≡ true
  unfolding replay_hash order_row
  placed-hit addr cart products items total built =
      rw (build_items-hash products env.order_id cart (pos 0) total items built)
        ((digest.same_iff _ _).1 refl)

  find_for_replay-head :
      (o : Order H) (os : List (Order H)) (db : Db H)
      → db.orders ≡ o ∷ os
      → o.user_id ≡ user_id
      → o.client_token ≡ key
      → find_for_replay user_id key db ≡ some o
  unfolding find_for_replay
  find_for_replay-head o os db orders owner token =
      rw (orders, owner, token) (ground (arith, text_eq_refl key))

  Settles-IsPlaced :
      (db db' : Db H) (view : OrderView H)
      → Settles digest env user_id key req db (ok view, db')
      → IsPlaced view db'
  unfolding order_row
  Settles-IsPlaced db db' view (inr (existing, found, (addr, got, hit, same, still))) =
      (existing, addr, rw still found, rw still got, hit, same)
  Settles-IsPlaced db db' view
        (inl (
          addr,
          cart,
          got,
          (
            u, n, products, items, total, built, there, sum, same, users, orders, ledger, addresses,
            _, _, _, _, _, _,
          ),
        )) =
      let o = placed digest env user_id key req addr cart items total in
      (
        o,
        addr,
        find_for_replay-head o db.orders db' orders refl refl,
        get_address-kept db db' addr addresses got,
        placed-hit addr cart products items total built,
        same,
      )

  run_order-hit :
      (race : Db H → Db H) (env' : Env) (existing : Order H) (addr : AddressView) (db : Db H)
      → get_address user_id req.address_id db ≡ (ok addr, db)
      → digest.same (replay_hash digest user_id req existing addr) existing.request_hash ≡ true
      → run_order digest env' user_id key req race (some existing) db ≡ (ok (to_order existing), db)
  unfolding run_order resolve_replay match_hash
  run_order-hit race env' existing addr db got hit = ground (arith, got, hit)

  create_order-passed :
      (race : Db H → Db H) (db db' : Db H) (view : OrderView H)
      → create_order digest env user_id key req race db ≡ (ok view, db')
      → (valid_idempotency_key key ≡ true)
        × (valid_order_request req ≡ true)
        × (is_zero user_id ≡ false)
  unfolding create_order
  create_order-passed race db db' view h = ground arith

  create_order-IsPlaced :
      (race : Db H → Db H) (db db' : Db H) (view : OrderView H)
      → create_order digest env user_id key req race db ≡ (ok view, db')
      → IsPlaced view db'
  create_order-IsPlaced race db db' view h =
      elim (rw h at (create_order-Outcome digest env user_id key req race db)) [
        | inl s ↦ Settles-IsPlaced db db' view s
        | inr s ↦ Settles-IsPlaced (race db) db' view s
      ]

  -- A call that succeeded can be repeated with the same key and request on any later tables that
  -- still give the same order for its token, and the same addresses: the repeat gives the same
  -- order and changes no table, whatever the clock and the new identifiers are.
  pub create_order-replay :
      (race race' : Db H → Db H) (env' : Env) (db db' later : Db H) (view : OrderView H)
      → create_order digest env user_id key req race db ≡ (ok view, db')
      → find_for_replay user_id key later ≡ find_for_replay user_id key db'
      → later.addresses ≡ db'.addresses
      → create_order digest env' user_id key req race' later ≡ (ok view, later)
  unfolding create_order
  create_order-replay race race' env' db db' later view h kept addresses =
      let (good, fit, given) = create_order-passed race db db' view h in
      let (existing, addr, found, got, hit, same) = create_order-IsPlaced race db db' view h in
      let there : find_for_replay user_id key later ≡ some existing = kept ∙ found in
      let got' = get_address-kept db' later addr addresses got in
      rw (good, fit, given, there, same) (run_order-hit race' env' existing addr later got' hit)
