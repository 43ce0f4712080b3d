-- ===== src/Cart/Repository.antt =====
-- internal/cart/repository.go: the cart rows that order creation locks and deletes.
use shop_mall.Common.Base.{ℕ, Bool, ◌&&◌, List, [], ◌∷◌, map, ◌==◌, if◌then◌else◌}
use shop_mall.Common.Table.{filter, count, delete_where, length, elem, order_by}
use shop_mall.Database.Rows.{CartItem}
use shop_mall.Database.Store.{Error, ok, err, Action}
use shop_mall.Catalog.Stock.{all_found}

abbrev pub cart_key : CartItem → ℕ
cart_key c = c.id

-- WHERE user_id = … AND id IN …
abbrev pub chosen : ℕ → List ℕ → CartItem → Bool
chosen user_id ids c = c.user_id == user_id && elem c.id ids

module _ {H : Type 0} where
  -- `LockForOrder`: the chosen rows by ascending id; a row that is missing or of another buyer is
  -- an error.
  unfoldable pub lock_for_order : ℕ → List ℕ → Action H (List CartItem)
  lock_for_order user_id [] db = (err Error.invalid_cart_item, db)
  lock_for_order user_id (id ∷ ids) db =
      let rows = order_by cart_key (filter (chosen user_id (id ∷ ids)) db.cart_items) in
      if all_found (id ∷ ids) (map cart_key rows)
      then (ok rows, db)
      else (err Error.cart_item_not_found, db)

  -- `DeleteByIDs`: the number of rows deleted must be that of the identifiers.
  unfoldable pub delete_by_ids : ℕ → List ℕ → Action H (Unit {0})
  delete_by_ids user_id [] db = (ok tt, db)
  delete_by_ids user_id (id ∷ ids) db =
      let after = record db {
        cart_items = delete_where (chosen user_id (id ∷ ids)) db.cart_items;
      } in
      if count (chosen user_id (id ∷ ids)) db.cart_items == length (id ∷ ids)
      then (ok tt, after)
      else (err Error.cart_item_not_found, after)
