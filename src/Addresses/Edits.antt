-- ===== src/Addresses/Edits.antt =====
-- The default address of a buyer: what `clearDefaultAddress` leaves, and the creation and the update
-- that rely on it.
use shop_mall.Common.Base.{
  ℕ, ◌+◌, ◌≡◌, ◌≢◌, refl, inl, inr, true, false, ◌||◌, not, none, some, List, [], ◌∷◌, arith, ◌==◌,
  Bool-cases, ltb,
}
use shop_mall.Common.Int64.{max_int64}
use shop_mall.Common.Table.{update_where, any, find_by, update_by, delete_by, find_by-update_by}
use shop_mall.Database.Rows.{is_zero, Address}
use shop_mall.Database.Store.{Db, ok}
use shop_mall.Addresses.Lookup.{address_key, to_address_view, owned_address}
use shop_mall.Addresses.Service.{
  AddressUpdate, valid_address_update, is_default_of, cleared, unset_default, clear_default_address,
  change_address, update_address, apply_update, write_address, has_updates,
}

-- Clearing leaves the excepted address as it was, and no other of the buyer a default.
find_by-clear_others :
    (user_id id : ℕ) (rows : List Address) (a : Address)
    → is_zero id ≡ false
    → find_by address_key id rows ≡ some a
    → find_by address_key id (update_where (cleared user_id id) unset_default rows) ≡ some a
unfolding cleared
find_by-clear_others user_id id [] a given found = cc
find_by-clear_others user_id id (x ∷ rows) a given found =
    ground (arith, find_by-clear_others user_id id rows a)

any-clear_others :
    (user_id id : ℕ) (rows : List Address)
    → find_by address_key id rows ≡ none
    → any (is_default_of user_id) (update_where (cleared user_id id) unset_default rows) ≡ false
unfolding cleared
any-clear_others user_id id [] gone = refl
any-clear_others user_id id (x ∷ rows) gone = ground (arith, any-clear_others user_id id rows)

any-delete-clear :
    (user_id id : ℕ) (rows : List Address)
    → find_by address_key id (delete_by address_key id rows) ≡ none
    → any
        (is_default_of user_id)
        (delete_by address_key id (update_where (cleared user_id id) unset_default rows))
      ≡ false
unfolding cleared
any-delete-clear user_id id [] once = refl
any-delete-clear user_id id (x ∷ rows) once = elim (Bool-cases (id == x.id)) [
  | inl same ↦ ground (arith, any-clear_others user_id id rows)
  | inr other ↦ ground (arith, any-delete-clear user_id id rows)
]

cleared_default :
    (user_id except_id j : ℕ) (rows : List Address) (b : Address)
    → find_by address_key j (update_where (cleared user_id except_id) unset_default rows) ≡ some b
    → b.user_id ≡ user_id
    → (is_zero except_id || not (j == except_id)) ≡ true
    → b.is_default ≡ false
unfolding cleared
cleared_default user_id except_id j [] b found owner other = cc
cleared_default user_id except_id j (x ∷ rows) b found owner other =
    ground (arith, cleared_default user_id except_id j rows b)

cleared_apart :
    (user_id except_id j : ℕ) (rows : List Address) (b : Address)
    → find_by address_key j rows ≡ some b
    → b.user_id ≢ user_id
    → find_by address_key j (update_where (cleared user_id except_id) unset_default rows) ≡ some b
unfolding cleared
cleared_apart user_id except_id j [] b found apart = cc
cleared_apart user_id except_id j (x ∷ rows) b found apart =
    ground (arith, cleared_apart user_id except_id j rows b)

module _ {H : Type 0} where
  -- The steps of the update of an address that is not the default and shall be.
  update_address-runs :
      (user_id id : ℕ) (input : AddressUpdate) (db : Db H) (a : Address)
      → valid_address_update input ≡ true
      → (is_zero user_id || is_zero id) ≡ false
      → owned_address user_id id db.addresses ≡ some a
      → find_by address_key id (delete_by address_key id db.addresses) ≡ none
      → a.is_default ≡ false
      → input.is_default ≡ some true
      → ltb max_int64 (a.version + 1) ≡ false
      → update_address user_id id input db ≡ (
        ok (to_address_view (apply_update input a)),
        record db {
          addresses =
              update_by address_key id
                (apply_update input)
                (update_where (cleared user_id id) unset_default db.addresses);
        },
      )
  unfolding update_address change_address clear_default_address write_address owned_address
      has_updates apply_update
  update_address-runs user_id id input db a good given owned once plain promoted fits =
      let rows = update_where (cleared user_id id) unset_default db.addresses in
      let found : find_by address_key id db.addresses ≡ some a = ground arith in
      let kept = find_by-clear_others user_id id db.addresses a (ground arith) found in
      let free = any-delete-clear user_id id db.addresses once in
      let mine : owned_address user_id id rows ≡ some a = ground (arith, kept) in
      ground (arith, good, given, owned, plain, promoted, fits, mine, free)

  -- Setting an address as the default takes the place of the old default: the update of a buyer's
  -- own address, which is not the default yet and stands once in the table, with valid fields and
  -- a version in range, is always accepted. Afterwards the address has the fields given and the
  -- next version, no other address of the buyer is a default, and the addresses of the other
  -- buyers are as they were.
  pub update_address-promotes :
      (user_id id : ℕ) (input : AddressUpdate) (db : Db H) (a : Address)
      → valid_address_update input ≡ true
      → (is_zero user_id || is_zero id) ≡ false
      → owned_address user_id id db.addresses ≡ some a
      → find_by address_key id (delete_by address_key id db.addresses) ≡ none
      → a.is_default ≡ false
      → input.is_default ≡ some true
      → ltb max_int64 (a.version + 1) ≡ false
      → let out = update_address user_id id input db in
        (out.0 ≡ ok (to_address_view (apply_update input a)))
        × (find_by address_key id out.1.addresses ≡ some (apply_update input a))
        × ((j : ℕ) (b : Address)
            → find_by address_key j out.1.addresses ≡ some b
            → b.user_id ≡ user_id
            → (j == id) ≡ false
            → b.is_default ≡ false)
        × ((j : ℕ) (b : Address)
            → find_by address_key j db.addresses ≡ some b
            → b.user_id ≢ user_id
            → find_by address_key j out.1.addresses ≡ some b)
  unfolding owned_address apply_update
  update_address-promotes user_id id input db a good given owned once plain promoted fits =
      let run =
        update_address-runs user_id id input db a good given owned once plain promoted fits in
      let rows = update_where (cleared user_id id) unset_default db.addresses in
      let found : find_by address_key id db.addresses ≡ some a = ground arith in
      let kept = find_by-clear_others user_id id db.addresses a (ground arith) found in
      let law =
        λ (j : ℕ). find_by-update_by address_key j id (apply_update input) rows (keeps_id input) in
      rw run (
        refl,
        ground (arith, law id, kept),
        λ j b there owner other.
            cleared_default user_id id j db.addresses b (ground (arith, law j)) owner
              (ground arith),
        λ j b there apart.
            ground (arith, law j, cleared_apart user_id id j db.addresses b there apart),
      )
    where
      keeps_id : (u : AddressUpdate) (r : Address) → (apply_update u r).id ≡ r.id
      keeps_id u r = refl
