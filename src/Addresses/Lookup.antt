-- ===== src/Addresses/Lookup.antt =====
-- internal/user/address_service.go: `AddressView`, `Get` and `LockForOrder`.
use shop_mall.Common.Base.{ℕ, Bool, ◌||◌, Option, none, some, List, ◌==◌, if◌then◌else◌}
use shop_mall.Common.Table.{find_by}
use shop_mall.Common.Text.{Text}
use shop_mall.Database.Rows.{is_zero, Address}
use shop_mall.Database.Store.{Error, ok, err, Action}

abbrev pub address_key : Address → ℕ
address_key a = a.id

-- `AddressView`, without the two times.
pub record AddressView : Type 0 where
  pub id : ℕ
  pub receiver : Text
  pub phone : Text
  pub region : Text
  pub detail : Text
  pub is_default : Bool
  pub version : ℕ

-- `toAddressView`
unfoldable pub to_address_view : Address → AddressView
to_address_view row = record {
  id = row.id;
  receiver = row.receiver;
  phone = row.phone;
  region = row.region;
  detail = row.detail;
  is_default = row.is_default;
  version = row.version;
}

-- The row of a buyer's address: that of another buyer is as good as missing.
unfoldable pub owned_address : ℕ → ℕ → List Address → Option Address
owned_address user_id id rows = elim (find_by address_key id rows) [
  | none ↦ none
  | some a ↦ if a.user_id == user_id then some a else none
]

-- `Get`, and `LockForOrder` with the row lock.
unfoldable pub get_address : {H : Type 0} → ℕ → ℕ → Action H AddressView
unfolding owned_address to_address_view
get_address user_id id db =
    if is_zero user_id || is_zero id
    then (err Error.address_not_found, db)
    else elim (owned_address user_id id db.addresses) [
      | none ↦ (err Error.address_not_found, db)
      | some a ↦ (ok (to_address_view a), db)
    ]
