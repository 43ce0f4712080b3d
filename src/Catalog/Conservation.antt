-- ===== src/Catalog/Conservation.antt =====
-- The stock of each product under `DecrementStock` and `IncrementStock`.
use shop_mall.Common.Base.{
  ℕ, ◌+◌, ◌≤◌, ◌≡◌, refl, inl, inr, true, some, List, [], ◌∷◌, map, arith, ◌==◌, if◌then◌else◌,
  Bool-cases, ==_iff, option,
}
use shop_mall.Common.Table.{filter, elem, find_by, update_by, find_by-update_by, order_by}
use shop_mall.Database.Rows.{is_on_sale, Product}
use shop_mall.Database.Store.{Db, ok}
use shop_mall.Catalog.Stock.{
  product_key, add_stock, sub_stock, all_found, lock_by_ids, decrement_stock, increment_stock,
}

-- The stock of a product; a missing row has none.
abbrev pub stock_of : ℕ → List Product → ℕ
stock_of id rows = option 0 (λ p. p.stock) (find_by product_key id rows)

-- The quantities that the rows of a cart or an order ask of one product, added up.
abbrev pub units : {R : Type 0} → (R → ℕ) → (R → ℕ) → ℕ → List R → ℕ
units product quantity id [] = 0
units product quantity id (r ∷ rs) =
    (if id == product r then quantity r else 0) + units product quantity id rs

pub increment_stock-eq-ok :
    {H : Type 0} (id qty n : ℕ) (db db' : Db H)
    → increment_stock id qty db ≡ (ok n, db')
    → (p : Product) × (find_by product_key id db.products ≡ some p)
      × (db' ≡ record db { products = update_by product_key id (add_stock qty) db.products })
unfolding increment_stock
increment_stock-eq-ok id qty n db db' h = grind arith

pub decrement_stock-eq-ok :
    {H : Type 0} (id qty n : ℕ) (db db' : Db H)
    → decrement_stock id qty db ≡ (ok n, db')
    → (p : Product) × (find_by product_key id db.products ≡ some p)
      × (is_on_sale p.status ≡ true)
      × (qty ≤ p.stock)
      × (db' ≡ record db { products = update_by product_key id (sub_stock qty) db.products })
unfolding decrement_stock
decrement_stock-eq-ok id qty n db db' h = grind arith

pub stock_of-add :
    (j id qty : ℕ) (p : Product) (rows : List Product)
    → find_by product_key id rows ≡ some p
    → stock_of j (update_by product_key id (add_stock qty) rows)
      ≡ stock_of j rows + (if j == id then qty else 0)
stock_of-add j id qty p rows found =
    let law = find_by-update_by product_key j id (add_stock qty) rows (λ r. refl) in
    elim (Bool-cases (j == id)) [
      | inl same ↦
          let e : j ≡ id = (==_iff j id).0 same in
          let there : find_by product_key j rows ≡ some p = rw e found in ground (arith, law)
      | inr other ↦ ground (arith, law)
    ]

pub stock_of-sub :
    (j id qty : ℕ) (p : Product) (rows : List Product)
    → find_by product_key id rows ≡ some p
    → qty ≤ p.stock
    → stock_of j (update_by product_key id (sub_stock qty) rows) + (if j == id then qty else 0)
      ≡ stock_of j rows
stock_of-sub j id qty p rows found enough =
    let law = find_by-update_by product_key j id (sub_stock qty) rows (λ r. refl) in
    elim (Bool-cases (j == id)) [
      | inl same ↦
          let e : j ≡ id = (==_iff j id).0 same in
          let there : find_by product_key j rows ≡ some p = rw e found in ground (arith, law)
      | inr other ↦ ground (arith, law)
    ]

pub lock_by_ids-eq-ok :
    {H : Type 0} (ids : List ℕ) (rows : List Product) (db db' : Db H)
    → lock_by_ids ids db ≡ (ok rows, db')
    → (rows ≡ order_by product_key (filter (λ p. elem p.id ids) db.products))
      × (all_found ids (map product_key rows) ≡ true)
      × (db' ≡ db)
unfolding lock_by_ids
lock_by_ids-eq-ok ids rows db db' h = ground arith
