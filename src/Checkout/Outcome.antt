-- ===== src/Checkout/Outcome.antt =====
-- How a call of `Execute` ends.
use shop_mall.Common.Base.{
  ℕ, ◌≡◌, refl, sym, ap, ◌∙◌, ◌⊎◌, inl, inr, true, Option, none, some, List, arith, Bool-cases,
  Option-cases,
}
use mathlib.Core.Path.{subst}
use shop_mall.Common.Table.{find_by}
use shop_mall.Common.Text.{Text}
use shop_mall.Database.Rows.{is_zero, User, CartItem, Order}
use shop_mall.Database.Store.{
  Db, Error, Result, ok, err, commit, Result-cases, commit-eq-ok, commit-eq-err,
}
use shop_mall.Payment.Balance.{user_key, lock_user}
use shop_mall.Payment.Accounts.{lock_user-eq-ok}
use shop_mall.Catalog.Stock.{lock_by_ids}
use shop_mall.Orders.Repository.{OrderView, to_order, find_for_replay}
use shop_mall.Catalog.Conservation.{lock_by_ids-eq-ok}
use shop_mall.Cart.Repository.{lock_for_order}
use shop_mall.Addresses.Lookup.{AddressView, get_address}
use shop_mall.Digest.{Digest}
use shop_mall.Checkout.Request.{OrderRequest, valid_idempotency_key, valid_order_request}
use shop_mall.Checkout.Items.{product_ids_of}
use shop_mall.Checkout.Commit.{Env}
use shop_mall.Checkout.Execute.{
  replay_hash, resolve_replay, resolve_after_conflict, recheck, with_cart, after_cart, checkout,
  finish, run_order, create_order,
}
use shop_mall.Checkout.Effect.{Created, build_and_commit-eq-ok}

get_address-state : {H : Type 0} (user_id id : ℕ) (db : Db H) → (get_address user_id id db).1 ≡ db
unfolding get_address
get_address-state user_id id db = ground arith

module _ {H : Type 0} (digest : Digest H) (user_id : ℕ) (key : Text) (req : OrderRequest) where
  -- The order of the client token was served again: the request hashes as the order does, and
  -- nothing changes.
  abbrev pub Replayed : Order H → OrderView H → Db H → Db H → Type 0
  Replayed existing view db db' =
      (addr : AddressView) × (get_address user_id req.address_id db ≡ (ok addr, db))
      × (digest.same (replay_hash digest user_id req existing addr) existing.request_hash ≡ true)
      × (view ≡ to_order existing)
      × (db' ≡ db)

  resolve_replay-state :
      (existing : Order H) (db : Db H) → (resolve_replay digest user_id req existing db).1 ≡ db
  unfolding resolve_replay get_address
  resolve_replay-state existing db = ground arith

  resolve_replay-eq-ok :
      (existing : Order H) (db db' : Db H) (view : OrderView H)
      → resolve_replay digest user_id req existing db ≡ (ok view, db')
      → Replayed existing view db db'
  unfolding resolve_replay
  resolve_replay-eq-ok existing db db' view h =
      elim (Result-cases (get_address user_id req.address_id db)) [
        | inr (e, d, failed) ↦ absurd (ground arith)
        | inl (addr, d, got) ↦
            let same : d ≡ db =
              sym (ap (λ (x : Result AddressView × Db H). x.1) got)
              ∙ get_address-state user_id req.address_id db in
            (addr, ground arith, ground arith, ground arith, ground arith)
      ]

module _ {H : Type 0} (digest : Digest H) (env : Env) (user_id : ℕ) (key : Text)
    (req : OrderRequest) where
  -- How a call that began on `db` ended.
  abbrev pub Settles : Db H → Result (OrderView H) × Db H → Type 0
  Settles db (err e, db') = db' ≡ db
  Settles db (ok view, db') =
      ((addr : AddressView) × (cart : List CartItem) × (get_address user_id req.address_id db
          ≡ (ok addr, db))
        × Created digest env user_id key req addr cart view db db')
      ⊎ ((existing : Order H) × (find_for_replay user_id key db ≡ some existing)
          × Replayed digest user_id key req existing view db db')

  with_cart-Settles :
      (addr : AddressView) (cart : List CartItem) (u : User) (db db' : Db H) (view : OrderView H)
      → get_address user_id req.address_id db ≡ (ok addr, db)
      → (lock_for_order user_id req.cart_item_ids db).0 ≡ ok cart
      → find_by user_key user_id db.users ≡ some u
      → with_cart digest env user_id key req addr cart db ≡ (ok view, db')
      → Settles db (ok view, db')
  unfolding with_cart
  with_cart-Settles addr cart u db db' view got picked there h =
      elim (Result-cases (lock_by_ids {H = H} (product_ids_of cart) db)) [
        | inr (e, d, failed) ↦ absurd (ground arith)
        | inl (products, d, locked) ↦
            let (_, _, same) = lock_by_ids-eq-ok (product_ids_of cart) products db d locked in
            inl (
              addr,
              cart,
              got,
              build_and_commit-eq-ok digest env user_id key req addr cart products u db db' view
                  picked (rw locked refl) there (ground arith),
            )
      ]

  recheck-Settles :
      (o : Option (Order H)) (db db' : Db H) (view : OrderView H)
      → find_for_replay user_id key db ≡ o
      → recheck digest env user_id key req o db ≡ (ok view, db')
      → Settles db (ok view, db')
  unfolding recheck
  recheck-Settles none db db' view found h = absurd (ground arith)
  recheck-Settles (some racer) db db' view found h =
      inr (racer, found, resolve_replay-eq-ok digest user_id key req racer db db' view h)

  after_cart-Settles :
      (addr : AddressView) (out : Result (List CartItem)) (u : User) (db db' : Db H)
      (view : OrderView H)
      → get_address user_id req.address_id db ≡ (ok addr, db)
      → (lock_for_order user_id req.cart_item_ids db).0 ≡ out
      → find_by user_key user_id db.users ≡ some u
      → after_cart digest env user_id key req addr out db ≡ (ok view, db')
      → Settles db (ok view, db')
  unfolding after_cart
  after_cart-Settles addr (ok cart) u db db' view got picked there h =
      with_cart-Settles addr cart u db db' view got picked there h
  after_cart-Settles addr (err Error.cart_item_not_found) u db db' view got picked there h =
      recheck-Settles (find_for_replay user_id key db) db db' view refl h
  after_cart-Settles addr (err e) u db db' view got picked there h = absurd (ground arith)

  checkout-Settles :
      (db db' : Db H) (view : OrderView H)
      → checkout digest env user_id key req db ≡ (ok view, db')
      → Settles db (ok view, db')
  unfolding checkout
  checkout-Settles db db' view h = elim (Result-cases (lock_user {H = H} user_id db)) [
    | inr (e, d, failed) ↦ absurd (ground arith)
    | inl (_, d, locked) ↦
        let (u, there, same) = lock_user-eq-ok user_id db d locked in
        elim (Result-cases (get_address {H = H} user_id req.address_id db)) [
          | inr (e, d1, failed) ↦ absurd (ground arith)
          | inl (addr, d1, got) ↦
              let still : d1 ≡ db =
                sym (ap (λ (x : Result AddressView × Db H). x.1) got)
                ∙ get_address-state user_id req.address_id db in
              after_cart-Settles addr (lock_for_order {H = H} user_id req.cart_item_ids db).0 u db
                db' view (ground arith) refl there (ground arith)
        ]
  ]

  resolve_after_conflict-state :
      (db : Db H) → (resolve_after_conflict digest env user_id key req db).1 ≡ db
  unfolding resolve_after_conflict
  resolve_after_conflict-state db = elim (Option-cases (find_for_replay user_id key db)) [
    | inl missing ↦ rw (missing, resolve_after_conflict) refl
    | inr (existing, found) ↦
        rw (found, resolve_after_conflict) (resolve_replay-state digest user_id key req existing db)
  ]

  resolve_after_conflict-Settles :
      (db db' : Db H) (view : OrderView H)
      → resolve_after_conflict digest env user_id key req db ≡ (ok view, db')
      → Settles db (ok view, db')
  unfolding resolve_after_conflict
  resolve_after_conflict-Settles db db' view h =
      elim (Option-cases (find_for_replay user_id key db)) [
        | inl missing ↦ absurd (ground arith)
        | inr (existing, found) ↦ inr (
          existing,
          found,
          resolve_replay-eq-ok digest user_id key req existing db db' view (ground arith),
        )
      ]

  finish_error-Settles :
      (x : Error) (db : Db H) → Settles db (finish digest env user_id key req (err x, db))
  unfolding finish
  finish_error-Settles Error.unique_violation db =
      elim (Result-cases (resolve_after_conflict digest env user_id key req db)) [
        | inr (e, d, failed) ↦
            let ended : finish digest env user_id key req (err Error.unique_violation, db)
                ≡ (err Error.unique_violation, db) =
              rw (failed, finish) refl in
            rw (ended, Settles) refl
        | inl (view, d, served) ↦
            let ended : finish digest env user_id key req (err Error.unique_violation, db)
                ≡ (ok view, db) =
              rw (served, finish) refl in
            let settled = resolve_after_conflict-Settles db d view served in
            let still : d ≡ db =
              sym (ap (λ (x : Result (OrderView H) × Db H). x.1) served)
              ∙ resolve_after_conflict-state db in
            rw (ended, Settles) (subst (λ x. Settles db (ok view, x)) still settled)
      ]
  finish_error-Settles e db = refl

  finish-Settles :
      (db : Db H) (out : Result (OrderView H) × Db H)
      → commit (checkout digest env user_id key req) db ≡ out
      → Settles db (finish digest env user_id key req out)
  unfolding finish
  finish-Settles db (ok view, db') done =
      checkout-Settles db db' view
        (commit-eq-ok (checkout digest env user_id key req) db view db' done)
  finish-Settles db (err e, db') failed =
      let same = commit-eq-err (checkout digest env user_id key req) db e db' failed in
      subst (λ d. Settles db (finish digest env user_id key req (err e, d))) (sym same)
        (finish_error-Settles e db)

  replay_first-Settles :
      (existing : Order H) (db : Db H) (out : Result (OrderView H) × Db H)
      → find_for_replay user_id key db ≡ some existing
      → commit (resolve_replay digest user_id req existing) db ≡ out
      → Settles db out
  replay_first-Settles existing db (ok view, db') found done = inr (
    existing,
    found,
    resolve_replay-eq-ok digest user_id key req existing db db' view
        (commit-eq-ok (resolve_replay digest user_id req existing) db view db' done),
  )
  replay_first-Settles existing db (err e, db') found failed =
      commit-eq-err (resolve_replay digest user_id req existing) db e db' failed

  -- How the whole call ended: on `db`, or on the tables that other transactions left of it.
  abbrev pub Outcome : (Db H → Db H) → Db H → Result (OrderView H) × Db H → Type 0
  Outcome race db out = Settles db out ⊎ Settles (race db) out

  run_order-Outcome :
      (race : Db H → Db H) (o : Option (Order H)) (db : Db H)
      → find_for_replay user_id key db ≡ o
      → Outcome race db (run_order digest env user_id key req race o db)
  unfolding run_order
  run_order-Outcome race none db found =
      inr (finish-Settles (race db) (commit (checkout digest env user_id key req) (race db)) refl)
  run_order-Outcome race (some existing) db found = inl (
      replay_first-Settles existing db (commit (resolve_replay digest user_id req existing) db)
        found refl)

  -- Every call of `Execute` ends in one of three ways, on the tables as they are or as other
  -- transactions commit them while it runs: the order is placed as a whole, for exactly the cart
  -- rows that the request chose and at the prices of the products in the tables, with the balance,
  -- the stock, the ledger row and the emptied cart rows that `Created` lists, and no other table
  -- changes; or the order that has the client token and the request's hash is served again
  -- and nothing changes; or the call fails, and no table changes.
  pub create_order-Outcome :
      (race : Db H → Db H) (db : Db H)
      → Outcome race db (create_order digest env user_id key req race db)
  unfolding create_order
  create_order-Outcome race db = elim (Bool-cases (valid_idempotency_key key)) [
    | inr bad ↦ rw (bad, Settles) (inl refl)
    | inl good ↦ elim (Bool-cases (valid_order_request req)) [
      | inr bad ↦ rw (good, bad, Settles) (inl refl)
      | inl fit ↦ elim (Bool-cases (is_zero user_id)) [
        | inl zero_id ↦ rw (good, fit, zero_id, Settles) (inl refl)
        | inr given ↦
            rw (good, fit, given) (run_order-Outcome race (find_for_replay user_id key db) db refl)
      ]
    ]
  ]
