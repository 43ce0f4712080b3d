-- ===== src/Common/Table.antt =====
-- A table is the list of its rows. A WHERE clause that fixes the primary key is the lookup of
-- that key, followed by the test of the rest of the clause on the row found.
use shop_mall.Common.Base.{
  ℕ, ◌+◌, ◌≡◌, Bool, false, Option, none, some, List, [], ◌∷◌, arith, ◌==◌, if◌then◌else◌, ◌||◌,
  suc, not, ltb,
}
use mathlib.Core.Option

module _ {R : Type 0} where
  -- SELECT … WHERE p LIMIT 1
  abbrev pub find : (R → Bool) → List R → Option R
  find p [] = none
  find p (r ∷ rs) = if p r then some r else find p rs

  -- SELECT … WHERE p
  abbrev pub filter : (R → Bool) → List R → List R
  filter p [] = []
  filter p (r ∷ rs) = let rest = filter p rs in if p r then r ∷ rest else rest

  -- SELECT count(*) … WHERE p
  abbrev pub count : (R → Bool) → List R → ℕ
  count p [] = 0
  count p (r ∷ rs) = (if p r then 1 else 0) + count p rs

  -- DELETE … WHERE p
  abbrev pub delete_where : (R → Bool) → List R → List R
  delete_where p rs = filter (λ r. not (p r)) rs

  -- UPDATE … WHERE p
  abbrev pub update_where : (R → Bool) → (R → R) → List R → List R
  update_where p f [] = []
  update_where p f (r ∷ rs) = (if p r then f r else r) ∷ update_where p f rs

  -- Whether a row meets `p`: a unique index is asked so before an insert.
  abbrev pub any : (R → Bool) → List R → Bool
  any p [] = false
  any p (r ∷ rs) = p r || any p rs

  abbrev pub length : List R → ℕ
  length [] = 0
  length (r ∷ rs) = suc (length rs)

-- A list of keys, for IN (…) and for Go's sets of identifiers.
abbrev pub elem : ℕ → List ℕ → Bool
elem a [] = false
elem a (x ∷ xs) = a == x || elem a xs

module _ {R : Type 0} (key : R → ℕ) where
  -- SELECT … WHERE id = k
  abbrev pub find_by : ℕ → List R → Option R
  find_by k [] = none
  find_by k (r ∷ rs) = if k == key r then some r else find_by k rs

  -- UPDATE … SET … WHERE id = k
  abbrev pub update_by : ℕ → (R → R) → List R → List R
  update_by k f [] = []
  update_by k f (r ∷ rs) = if k == key r then f r ∷ rs else r ∷ update_by k f rs

  -- DELETE … WHERE id = k
  abbrev pub delete_by : ℕ → List R → List R
  delete_by k [] = []
  delete_by k (r ∷ rs) = if k == key r then rs else r ∷ delete_by k rs

  pub key-find_by : (k : ℕ) {r : R} (rs : List R) → find_by k rs ≡ some r → key r ≡ k
  key-find_by k {r} [] h = cc
  key-find_by k {r} (x ∷ rs) h = ground (arith, key-find_by k {r = r} rs)

  pub find_by-update_by :
      (j k : ℕ) (f : R → R) (rs : List R)
      → ((r : R) → key (f r) ≡ key r)
      → find_by j (update_by k f rs)
        ≡ (if j == k then Option.map f (find_by j rs) else find_by j rs)
  find_by-update_by j k f [] h = ground arith
  find_by-update_by j k f (x ∷ rs) h = ground (arith, h x, find_by-update_by j k f rs h)

  pub update_by-head : (f : R → R) (r : R) (rs : List R) → update_by (key r) f (r ∷ rs) ≡ f r ∷ rs
  update_by-head f r rs = ground arith

  -- ORDER BY id ASC
  abbrev pub insert_by : R → List R → List R
  insert_by r [] = r ∷ []
  insert_by r (x ∷ xs) = if ltb (key r) (key x) then r ∷ x ∷ xs else x ∷ insert_by r xs

  abbrev pub order_by : List R → List R
  order_by [] = []
  order_by (r ∷ rs) = insert_by r (order_by rs)
