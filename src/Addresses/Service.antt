-- ===== src/Addresses/Service.antt =====
-- internal/user/address_service.go: `Create`, `Update`, `Delete` and `List`.
use shop_mall.Common.Base.{
  ℕ, ◌+◌, Bool, true, false, not, ◌&&◌, ◌||◌, Option, none, some, List, ◌∷◌, map, ltb, ◌==◌,
  if◌then◌else◌, is_some,
}
use shop_mall.Common.Int64.{max_int64}
use shop_mall.Common.Table.{filter, update_where, any, update_by, delete_by, order_by}
use shop_mall.Common.Text.{Text, rune_count, trim_space, is_blank}
use shop_mall.Database.Rows.{is_zero, User, Address}
use shop_mall.Database.Store.{Error, ok, err, Action, pure, guard, ◌>>◌, commit}
use shop_mall.Addresses.Lookup.{address_key, AddressView, to_address_view, owned_address}

-- `AddressInput`
pub record AddressInput : Type 0 where
  pub receiver : Text
  pub phone : Text
  pub region : Text
  pub detail : Text
  pub is_default : Bool

-- `AddressUpdate`: nil is `none`.
pub record AddressUpdate : Type 0 where
  pub receiver : Option Text
  pub phone : Option Text
  pub region : Option Text
  pub detail : Option Text
  pub is_default : Option Bool

-- Not blank, and trimmed of at most `most` characters.
unfoldable pub short_text : ℕ → Text → Bool
short_text most s = not (is_blank (trim_space s) || ltb most (rune_count (trim_space s)))

-- 6 to 20 characters, trimmed.
unfoldable pub valid_phone : Text → Bool
valid_phone s = not (ltb (rune_count (trim_space s)) 6 || ltb 20 (rune_count (trim_space s)))

-- Not blank, and with its spaces of at most 255 characters.
unfoldable pub valid_detail : Text → Bool
valid_detail s = not (is_blank (trim_space s) || ltb 255 (rune_count s))

-- `validateAddressInput`
unfoldable pub valid_address_input : AddressInput → Bool
unfolding short_text valid_phone valid_detail
valid_address_input input =
    short_text 32 input.receiver
    && valid_phone input.phone
    && short_text 64 input.region
    && valid_detail input.detail

-- A test of a field that may be absent.
abbrev pub if_given : (Text → Bool) → Option Text → Bool
if_given test none = true
if_given test (some s) = test s

-- `validateAddressUpdate`
unfoldable pub valid_address_update : AddressUpdate → Bool
unfolding short_text valid_phone valid_detail
valid_address_update input =
    if_given (short_text 32) input.receiver
    && if_given valid_phone input.phone
    && if_given (short_text 64) input.region
    && if_given valid_detail input.detail

-- Whether a row is a default address of the buyer.
abbrev pub is_default_of : ℕ → Address → Bool
is_default_of user_id a = a.user_id == user_id && a.is_default

-- The rows that `clearDefaultAddress` updates.
unfoldable pub cleared : ℕ → ℕ → Address → Bool
cleared user_id except_id a =
    is_default_of user_id a && (is_zero except_id || not (a.id == except_id))

abbrev pub unset_default : Address → Address
unset_default a = record a { is_default = false }

-- The value of a column after the update.
abbrev pub set_text : Option Text → Text → Text
set_text none old = old
set_text (some s) old = trim_space s

abbrev pub set_default : Option Bool → Bool → Bool
set_default none old = old
set_default (some b) old = b

-- The row that `Update` writes.
unfoldable pub apply_update : AddressUpdate → Address → Address
apply_update input a = record a {
  receiver = set_text input.receiver a.receiver;
  phone = set_text input.phone a.phone;
  region = set_text input.region a.region;
  detail = set_text input.detail a.detail;
  is_default = set_default input.is_default a.is_default;
  version = a.version + 1;
}

-- `*input.IsDefault != current.IsDefault`, where it is given.
abbrev pub flips : Option Bool → Bool → Bool
flips none old = false
flips (some true) old = not old
flips (some false) old = old

-- Whether the update is a promotion to the default.
abbrev pub promotes : Option Bool → Bool → Bool
promotes given old = set_default given false && flips given old

-- Whether the map of updates has an entry.
unfoldable pub has_updates : AddressUpdate → Address → Bool
has_updates input current =
    is_some input.receiver
    || is_some input.phone
    || is_some input.region
    || is_some input.detail
    || flips input.is_default current.is_default

-- The row of a new address.
unfoldable pub address_row : ℕ → ℕ → AddressInput → Address
address_row id user_id input = record {
  id = id;
  user_id = user_id;
  receiver = trim_space input.receiver;
  phone = trim_space input.phone;
  region = trim_space input.region;
  detail = trim_space input.detail;
  is_default = input.is_default;
  version = 1;
}

module _ {H : Type 0} where
  -- `clearDefaultAddress`
  unfoldable pub clear_default_address : ℕ → ℕ → Action H (Unit {0})
  unfolding cleared
  clear_default_address user_id except_id db = (
    ok tt,
    record db { addresses = update_where (cleared user_id except_id) unset_default db.addresses },
  )

  -- `clearDefaultAddress` where the test says so.
  abbrev pub clear_if : Bool → ℕ → ℕ → Action H (Unit {0})
  clear_if true user_id except_id db = clear_default_address user_id except_id db
  clear_if false user_id except_id db = (ok tt, db)

  -- INSERT INTO user_addresses: the key, uq_default_address and user_addresses_user_id_fk, with the
  -- error that `Create` makes of a unique violation.
  unfoldable pub insert_address : Address → Action H (Unit {0})
  insert_address a db =
      if any (λ (old : Address). old.id == a.id || (a.is_default && is_default_of a.user_id old))
        db.addresses
      then (err Error.default_address_conflict, db)
      else if not (any (λ (u : User). u.id == a.user_id) db.users)
      then (err Error.foreign_key_violation, db)
      else (ok tt, record db { addresses = a ∷ db.addresses })

  -- The transaction of `Create`.
  unfoldable pub add_address : ℕ → ℕ → AddressInput → Action H AddressView
  add_address id user_id input = do
    clear_if input.is_default user_id 0
    insert_address (address_row id user_id input)
    pure (to_address_view (address_row id user_id input))

  -- `Create`, with the identifier of the new row.
  unfoldable pub create_address : ℕ → ℕ → AddressInput → Action H AddressView
  unfolding add_address
  create_address id user_id input db =
      if not (valid_address_input input)
      then (err Error.invalid_address, db)
      else if is_zero user_id
      then (err Error.invalid_address, db)
      else commit (add_address id user_id input) db

  -- `List`
  unfoldable pub list_addresses : ℕ → Action H (List AddressView)
  list_addresses user_id db = if is_zero user_id then (err Error.invalid_address, db) else (
    ok (
        map to_address_view
          (order_by address_key (filter (λ (a : Address). a.user_id == user_id) db.addresses))),
    db,
  )

  -- UPDATE user_addresses SET … WHERE id = … AND user_id = …, and the row read again: the index
  -- uq_default_address, and a version out of the range of bigint.
  unfoldable pub write_address : ℕ → ℕ → AddressUpdate → Action H AddressView
  write_address user_id id input db = elim (owned_address user_id id db.addresses) [
    | none ↦ (err Error.record_not_found, db)
    | some a ↦
        if ltb max_int64 (a.version + 1)
        then (err Error.out_of_range, db)
        else if (apply_update input a).is_default
            && any (is_default_of user_id) (delete_by address_key id db.addresses)
        then (err Error.default_address_conflict, db)
        else (
          ok (to_address_view (apply_update input a)),
          record db { addresses = update_by address_key id (apply_update input) db.addresses },
        )
  ]

  -- The transaction of `Update` from its first read on.
  unfoldable pub change_address : ℕ → ℕ → AddressUpdate → Option Address → Action H AddressView
  change_address user_id id input none db = (err Error.address_not_found, db)
  change_address user_id id input (some current) db =
      (do
        clear_if (promotes input.is_default current.is_default) user_id id
        guard (has_updates input current) Error.empty_update
        write_address user_id id input)
        db

  -- `Update`
  unfoldable pub update_address : ℕ → ℕ → AddressUpdate → Action H AddressView
  unfolding change_address
  update_address user_id id input db =
      if not (valid_address_update input)
      then (err Error.invalid_address, db)
      else if is_zero user_id || is_zero id
      then (err Error.address_not_found, db)
      else commit (λ d. change_address user_id id input (owned_address user_id id d.addresses) d) db

  -- `Delete`
  unfoldable pub delete_address : ℕ → ℕ → Action H (Unit {0})
  delete_address user_id id db =
      if is_zero user_id || is_zero id
      then (err Error.address_not_found, db)
      else elim (owned_address user_id id db.addresses) [
        | none ↦ (err Error.address_not_found, db)
        | some a ↦ (ok tt, record db { addresses = delete_by address_key id db.addresses })
      ]
