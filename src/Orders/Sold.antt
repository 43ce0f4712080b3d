-- ===== src/Orders/Sold.antt =====
-- The units that the orders hold: those of every order that is not refunded.
use shop_mall.Common.Base.{
  ℕ, ◌+◌, ◌≡◌, inl, inr, some, List, [], ◌∷◌, arith, ◌==◌, if◌then◌else◌, Bool-cases,
}
use shop_mall.Common.Table.{find_by, update_by}
use shop_mall.Database.Rows.{refunded, status_eq, OrderItem, Order}
use shop_mall.Database.Store.{Db}
use shop_mall.Orders.Repository.{order_key}
use shop_mall.Catalog.Conservation.{stock_of, units}

abbrev pub item_product : OrderItem → ℕ
item_product i = i.product_id

abbrev pub item_quantity : OrderItem → ℕ
item_quantity i = i.quantity

module _ {H : Type 0} where
  -- The units of a product that one order holds.
  abbrev pub held : ℕ → Order H → ℕ
  held id o = if status_eq o.status refunded then 0 else units item_product item_quantity id o.items

  -- The units of a product that all orders hold.
  abbrev pub sold : ℕ → List (Order H) → ℕ
  sold id [] = 0
  sold id (o ∷ os) = held id o + sold id os

  -- The rewriting of one row moves the units by those of that row.
  pub sold-update_by :
      (id key : ℕ) (f : Order H → Order H) (o : Order H) (os : List (Order H))
      → find_by order_key key os ≡ some o
      → sold id (update_by order_key key f os) + held id o ≡ sold id os + held id (f o)
  sold-update_by id key f o [] found = absurd (ground arith)
  sold-update_by id key f o (x ∷ os) found = elim (Bool-cases (key == order_key x)) [
    | inl here ↦ let same : x ≡ o = ground arith in rw here (rw same (omega arith))
    | inr later ↦ rw later (omega (arith, sold-update_by id key f o os (ground arith)))
  ]

  -- The units of a product, in the stock and in the orders.
  abbrev pub goods : ℕ → Db H → ℕ
  goods id db = stock_of id db.products + sold id db.orders
