-- ===== src/Examples/Addresses.antt =====
-- Addresses in the example shop.
use shop_mall.Common.Base.{ℕ, ◌≡◌, ◌≢◌, refl, true, false, none, some, [], ◌∷◌, ◌==◌}
use shop_mall.Common.Table.{find_by}
use shop_mall.Database.Rows.{Address}
use shop_mall.Database.Store.{Db, ok}
use shop_mall.Examples.Shop.{home, shop}
use shop_mall.Addresses.Lookup.{address_key, to_address_view, owned_address}
use shop_mall.Addresses.Service.{
  AddressInput, AddressUpdate, valid_address_update, update_address, apply_update,
}
use shop_mall.Addresses.Edits.{update_address-promotes}

-- The buyer's office, as the new default.
abbrev office : AddressInput
office = record {
  receiver = 66 ∷ [];
  phone = 49 ∷ 50 ∷ 51 ∷ 52 ∷ 53 ∷ 54 ∷ [];
  region = 82 ∷ [];
  detail = 68 ∷ [];
  is_default = true;
}

-- A second address of the buyer, and the request to make it the default.
abbrev cottage : Address
cottage = record home { id = 7; is_default = false }

abbrev two_homes : Db ℕ
two_homes = record (shop []) { addresses = home ∷ cottage ∷ [] }

abbrev promotion : AddressUpdate
promotion = record {
  receiver = none;
  phone = none;
  region = none;
  detail = none;
  is_default = some true;
}

promotion_lem : valid_address_update promotion ≡ true
unfolding valid_address_update
promotion_lem = refl

cottage_lem : owned_address 1 7 two_homes.addresses ≡ some cottage
unfolding owned_address
cottage_lem = refl

update_address-promotes_example :
    (let out = update_address 1 7 promotion two_homes in
      (out.0 ≡ ok (to_address_view (apply_update promotion cottage)))
      × (find_by address_key 7 out.1.addresses ≡ some (apply_update promotion cottage))
      × ((j : ℕ) (b : Address)
          → find_by address_key j out.1.addresses ≡ some b
          → b.user_id ≡ 1
          → (j == 7) ≡ false
          → b.is_default ≡ false)
      × ((j : ℕ) (b : Address)
          → find_by address_key j two_homes.addresses ≡ some b
          → b.user_id ≢ 1
          → find_by address_key j out.1.addresses ≡ some b))
update_address-promotes_example =
    update_address-promotes 1 7 promotion two_homes cottage promotion_lem refl cottage_lem refl refl
      refl refl
