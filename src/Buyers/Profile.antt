-- ===== src/Buyers/Profile.antt =====
-- The profile updates of internal/user/service.go.
use shop_mall.Common.Base.{
  ℕ, ◌≡◌, refl, ◌⊎◌, inl, inr, true, false, Option, none, some, List, [], ◌∷◌, arith, ltb,
  Bool-cases, Option-cases, option,
}
use shop_mall.Common.Table.{find_by, update_by, find_by-update_by}
use shop_mall.Common.Text.{Text, rune_count}
use shop_mall.Database.Rows.{is_zero, User}
use shop_mall.Database.Store.{Db, Error, Result, ok, err, ◌>>◌}
use shop_mall.Payment.Balance.{user_key}
use shop_mall.Buyers.Account.{
  Buyer, to_buyer, get_by_id, read_user, set_profile, store_profile, update_profile,
}

-- How a profile update ends: an error with no change, or the row of the buyer rewritten in the
-- fields that are given, and told as it then is.
abbrev pub ProfileUpdate :
    {H : Type 0} → Db H → ℕ → Option Text → Option Text → Result Buyer × Db H → Type 0
ProfileUpdate db id nickname avatar_url (err e, db') = db' ≡ db
ProfileUpdate db id nickname avatar_url (ok view, db') =
    (u : User) × (find_by user_key id db.users ≡ some u)
    × (view ≡ to_buyer [] (set_profile nickname avatar_url u))
    × (db' ≡ record db { users = update_by user_key id (set_profile nickname avatar_url) db.users })

update_by-same :
    (id : ℕ) (f : User → User) (us : List User)
    → ((u : User) → f u ≡ u)
    → update_by user_key id f us ≡ us
update_by-same id f [] h = refl
update_by-same id f (u ∷ us) h = ground (arith, h u, update_by-same id f us h)

update_by-missing :
    (id : ℕ) (f : User → User) (us : List User)
    → find_by user_key id us ≡ none
    → update_by user_key id f us ≡ us
update_by-missing id f [] h = refl
update_by-missing id f (u ∷ us) h = ground (arith, update_by-missing id f us)

-- The result of a read of one row.
abbrev told : {H : Type 0} → Db H → Option User → Result Buyer × Db H
told db none = (err Error.user_not_found, db)
told db (some u) = (ok (to_buyer [] u), db)

module _ {H : Type 0} where
  get_by_id-told :
      (id : ℕ) (db : Db H) (found : Option User)
      → is_zero id ≡ false
      → find_by user_key id db.users ≡ found
      → get_by_id id db ≡ told db found
  unfolding get_by_id read_user
  get_by_id-told id db none h found = ground arith
  get_by_id-told id db (some u) h found = ground arith

  get_by_id-zero :
      (id : ℕ) (db : Db H) → is_zero id ≡ true → get_by_id id db ≡ (err Error.user_id_required, db)
  unfolding get_by_id
  get_by_id-zero id db h = ground arith

  profile_unread :
      (id : ℕ) (nickname avatar_url : Option Text) (db : Db H)
      → ((u : User) → set_profile nickname avatar_url u ≡ u)
      → ProfileUpdate db id nickname avatar_url (get_by_id id db)
  profile_unread id nickname avatar_url db same = elim (Bool-cases (is_zero id)) [
    | inl zero_id ↦ rw (get_by_id-zero id db zero_id) refl
    | inr other ↦ elim (Option-cases (find_by user_key id db.users)) [
      | inl missing ↦ rw (get_by_id-told id db none other missing) refl
      | inr (u, found) ↦
          let kept = update_by-same id (set_profile nickname avatar_url) db.users same in
          rw (get_by_id-told id db (some u) other found) (u, found, rw (same u) refl, rw kept refl)
    ]
  ]

  -- The update, once the row is known.
  profile_written :
      (id : ℕ) (nickname avatar_url : Option Text) (db : Db H) (u : User)
      → is_zero id ≡ false
      → find_by user_key id db.users ≡ some u
      → let stored : Db H = record db {
        users = update_by user_key id (set_profile nickname avatar_url) db.users;
      } in
        ((store_profile id nickname avatar_url >> get_by_id id) db ≡ (err Error.value_too_long, db))
        ⊎ ((store_profile id nickname avatar_url >> get_by_id id) db
            ≡ (ok (to_buyer [] (set_profile nickname avatar_url u)), stored))
  unfolding store_profile
  profile_written id nickname avatar_url db u other found =
      let stored : Db H = record db {
        users = update_by user_key id (set_profile nickname avatar_url) db.users;
      } in
      let law =
        find_by-update_by user_key id id (set_profile nickname avatar_url) db.users (λ r. refl) in
      let now : find_by user_key id stored.users ≡ some (set_profile nickname avatar_url u) =
        ground (arith, law, found) in
      let read = get_by_id-told id stored (some (set_profile nickname avatar_url u)) other now in
      elim (Bool-cases (ltb 64 (rune_count (option [] (λ s. s) nickname)))) [
        | inl long ↦ inl (ground (arith, found, long))
        | inr short ↦ inr (ground (arith, found, short, read))
      ]

  profile_missing :
      (id : ℕ) (nickname avatar_url : Option Text) (db : Db H)
      → is_zero id ≡ false
      → find_by user_key id db.users ≡ none
      → (store_profile id nickname avatar_url >> get_by_id id) db ≡ (err Error.user_not_found, db)
  unfolding store_profile
  profile_missing id nickname avatar_url db other missing =
      let kept = update_by-missing id (set_profile nickname avatar_url) db.users missing in
      let read = get_by_id-told id db none other missing in ground (arith, missing, kept, read)

  -- The update of at least one field.
  profile_stored :
      (id : ℕ) (nickname avatar_url : Option Text) (db : Db H)
      → is_zero id ≡ false
      → ProfileUpdate db id nickname avatar_url
          ((store_profile id nickname avatar_url >> get_by_id id) db)
  profile_stored id nickname avatar_url db other =
      elim (Option-cases (find_by user_key id db.users)) [
        | inl missing ↦ rw (profile_missing id nickname avatar_url db other missing) refl
        | inr (u, found) ↦ elim (profile_written id nickname avatar_url db u other found) [
          | inl long ↦ rw long refl
          | inr done ↦ rw done (u, found, refl, refl)
        ]
      ]

  profile_run :
      (id : ℕ) (nickname avatar_url : Option Text) (db : Db H)
      → (update_profile id nickname avatar_url db ≡ (err Error.user_id_required, db))
        ⊎ (((nickname ≡ none)
              × (avatar_url ≡ none)
              × (update_profile id nickname avatar_url db ≡ get_by_id id db))
            ⊎ ((is_zero id ≡ false)
                × (update_profile id nickname avatar_url db
                    ≡ (store_profile id nickname avatar_url >> get_by_id id) db)))
  unfolding update_profile
  profile_run id none none db = elim (Bool-cases (is_zero id)) [
    | inl zero_id ↦ inl (rw zero_id refl)
    | inr other ↦ inr (inl (refl, refl, rw other refl))
  ]
  profile_run id (some s) a db = elim (Bool-cases (is_zero id)) [
    | inl zero_id ↦ inl (rw zero_id refl)
    | inr other ↦ inr (inr (other, rw other refl))
  ]
  profile_run id none (some s) db = elim (Bool-cases (is_zero id)) [
    | inl zero_id ↦ inl (rw zero_id refl)
    | inr other ↦ inr (inr (other, rw other refl))
  ]

  -- Every profile update either fails and changes no table, or finds the buyer, rewrites exactly the
  -- fields that are given of exactly that row, and tells the row as it then is.
  pub update_profile-ProfileUpdate :
      (id : ℕ) (nickname avatar_url : Option Text) (db : Db H)
      → ProfileUpdate db id nickname avatar_url (update_profile id nickname avatar_url db)
  unfolding set_profile
  update_profile-ProfileUpdate id nickname avatar_url db =
      elim (profile_run id nickname avatar_url db) [
        | inl refused ↦ rw refused refl
        | inr (inl (no_name, no_url, read)) ↦
            rw read (profile_unread id nickname avatar_url db (λ u. (rw (no_name, no_url) refl)))
        | inr (inr (other, write)) ↦ rw write (profile_stored id nickname avatar_url db other)
      ]
