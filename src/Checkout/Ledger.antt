-- ===== src/Checkout/Ledger.antt =====
-- What a placed order does to the balances and to the stock.
use shop_mall.Common.Base.{ℕ, ◌≡◌, refl, ◌∙◌, inl, inr, List, [], ◌∷◌, map, arith}
use shop_mall.Common.Int.{pos}
use shop_mall.Common.Text.{Text}
use shop_mall.Database.Rows.{OrderItem}
use shop_mall.Database.Store.{Db, Result, ok, err}
use shop_mall.Payment.Accounts.{IsBalanced, settle-Accounts}
use shop_mall.Orders.Repository.{OrderView}
use shop_mall.Catalog.Conservation.{units}
use shop_mall.Digest.{Digest}
use shop_mall.Checkout.Request.{OrderRequest}
use shop_mall.Checkout.Commit.{Env, set_order_id, order_row, pay_row}
use shop_mall.Checkout.Execute.{create_order}
use shop_mall.Checkout.Lines.{build_items-units}
use shop_mall.Checkout.Outcome.{Settles, create_order-Outcome}
use shop_mall.Checkout.Lines.{build_items-units}
use shop_mall.Orders.Sold.{item_product, item_quantity, goods}
use shop_mall.Payment.Accounts.{IsBalanced, settle-Accounts}

-- The identifier of the order is not among what an item asks for.
units-set_order_id :
    (id order_id : ℕ) (items : List OrderItem)
    → units item_product item_quantity id (map (set_order_id order_id) items)
      ≡ units item_product item_quantity id items
units-set_order_id id order_id [] = refl
units-set_order_id id order_id (i ∷ is) = rw (units-set_order_id id order_id is) refl

module _ {H : Type 0} (digest : Digest H) (env : Env) (user_id : ℕ) (key : Text)
    (req : OrderRequest) where
  Settles-IsBalanced :
      (db : Db H) (out : Result (OrderView H) × Db H)
      → Settles digest env user_id key req db out
      → IsBalanced db
      → IsBalanced out.1
  unfolding pay_row
  Settles-IsBalanced db (err e, db') same h = rw same h
  Settles-IsBalanced db (ok view, db') (inr (existing, found, (addr, got, hit, view_lem, still)))
        h =
      rw still h
  Settles-IsBalanced db (ok view, db')
        (inl (
          addr,
          cart,
          got,
          (
            u, n, products, items, total, built, there, sum, view_lem, users, orders, ledger, _, _,
            _, _, _, _, _,
          ),
        ))
        h =
      rw (users, ledger)
        (settle-Accounts db.users db.ledger (pay_row digest env user_id key req total n) n u h there
          sum)

  -- An order creation keeps each buyer's balance the sum of the buyer's ledger rows, on every
  -- path, if what other transactions commit meanwhile keeps it.
  pub create_order-IsBalanced :
      (race : Db H → Db H) (db : Db H)
      → IsBalanced db
      → IsBalanced (race db)
      → IsBalanced (create_order digest env user_id key req race db).1
  create_order-IsBalanced race db h k =
      elim (create_order-Outcome digest env user_id key req race db) [
        | inl s ↦ Settles-IsBalanced db (create_order digest env user_id key req race db) s h
        | inr s ↦ Settles-IsBalanced (race db) (create_order digest env user_id key req race db) s k
      ]

  Settles-conserves :
      (id : ℕ) (db : Db H) (out : Result (OrderView H) × Db H)
      → Settles digest env user_id key req db out
      → goods id out.1 ≡ goods id db
  unfolding order_row
  Settles-conserves id db (err e, db') same = rw same refl
  Settles-conserves id db (ok view, db')
        (inr (existing, found, (addr, got, hit, view_lem, still))) =
      rw still refl
  Settles-conserves id db (ok view, db')
        (inl (
          addr,
          cart,
          got,
          (
            u, n, products, items, total, built, there, sum, view_lem, users, orders, ledger, _,
            taken, _, _, _, _, _,
          ),
        )) =
      let asked = build_items-units products id cart (pos 0) total items built in
      let same = units-set_order_id id env.order_id items in
      rw orders (omega (arith, asked, same, taken id))

  -- An order creation only moves units: the stock of a product and the units of it that the orders
  -- not refunded hold add up to the same number before and after it, on every path, if what other
  -- transactions commit meanwhile keeps that number.
  pub create_order-conserves :
      (race : Db H → Db H) (db : Db H) (id : ℕ)
      → goods id (race db) ≡ goods id db
      → goods id (create_order digest env user_id key req race db).1 ≡ goods id db
  create_order-conserves race db id kept =
      elim (create_order-Outcome digest env user_id key req race db) [
        | inl s ↦ Settles-conserves id db (create_order digest env user_id key req race db) s
        | inr s ↦
            Settles-conserves id (race db) (create_order digest env user_id key req race db) s
            ∙ kept
      ]
