-- ===== src/Catalog/Stock.antt =====
-- internal/product/repository.go: `LockByIDs`, `DecrementStock` and `IncrementStock`.
use shop_mall.Common.Base.{
  ℕ, ◌+◌, ◌-◌, Bool, true, ◌&&◌, none, some, List, [], ◌∷◌, map, ltb, leb, if◌then◌else◌,
}
use shop_mall.Common.Int64.{max_int32}
use shop_mall.Common.Table.{filter, elem, find_by, update_by, order_by}
use shop_mall.Database.Rows.{is_on_sale, Product}
use shop_mall.Database.Store.{Error, ok, err, Action}

abbrev pub product_key : Product → ℕ
product_key p = p.id

-- SET stock = stock + qty
abbrev pub add_stock : ℕ → Product → Product
add_stock qty p = record p { stock = p.stock + qty }

-- SET stock = stock - qty
abbrev pub sub_stock : ℕ → Product → Product
sub_stock qty p = record p { stock = p.stock - qty }

-- Whether every requested identifier is among the keys found.
abbrev pub all_found : List ℕ → List ℕ → Bool
all_found [] found = true
all_found (id ∷ ids) found = elem id found && all_found ids found

module _ {H : Type 0} where
  -- `LockByIDs`: SELECT … WHERE id IN ids ORDER BY id ASC FOR UPDATE; a missing row is an error.
  unfoldable pub lock_by_ids : List ℕ → Action H (List Product)
  lock_by_ids ids db =
      let rows = order_by product_key (filter (λ p. elem p.id ids) db.products) in
      if all_found ids (map product_key rows)
      then (ok rows, db)
      else (err Error.product_not_found, db)

  -- UPDATE products SET stock = stock - qty WHERE id = … AND status = 'on_sale' AND stock >= qty
  unfoldable pub decrement_stock : ℕ → ℕ → Action H ℕ
  decrement_stock id qty db = elim (find_by product_key id db.products) [
    | none ↦ (err Error.insufficient_stock, db)
    | some p ↦
        if is_on_sale p.status && leb qty p.stock
        then (
          ok (p.stock - qty),
          record db { products = update_by product_key id (sub_stock qty) db.products },
        )
        else (err Error.insufficient_stock, db)
  ]

  -- UPDATE products SET stock = stock + qty WHERE id = …; PostgreSQL refuses an integer out of range.
  unfoldable pub increment_stock : ℕ → ℕ → Action H ℕ
  increment_stock id qty db = elim (find_by product_key id db.products) [
    | none ↦ (err Error.product_not_found, db)
    | some p ↦ if ltb max_int32 (p.stock + qty) then (err Error.out_of_range, db) else (
      ok (p.stock + qty),
      record db { products = update_by product_key id (add_stock qty) db.products },
    )
  ]
