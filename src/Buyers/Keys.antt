-- ===== src/Buyers/Keys.antt =====
-- The users table of internal/user/service.go by its two keys, the identifier and the openid.
use shop_mall.Common.Base.{
  ℕ, ◌≡◌, refl, inl, inr, Bool, true, false, some, List, [], ◌∷◌, arith, ◌==◌, Bool-cases,
}
use shop_mall.Common.Table.{find, any, find_by, update_by}
use shop_mall.Common.Text.{Text, text_eq, eq_of_text_eq}
use shop_mall.Database.Rows.{User}
use shop_mall.Payment.Balance.{user_key}
use shop_mall.Buyers.Account.{same_buyer}

-- The rows of an openid.
abbrev pub has_openid : Text → User → Bool
has_openid openid u = text_eq u.openid openid

-- The primary key: no two rows have one identifier.
abbrev pub UniqueIds : List User → Type 0
UniqueIds [] = Unit
UniqueIds (u ∷ us) = (any (λ v. v.id == u.id) us ≡ false) × UniqueIds us

pub has_openid-find :
    (openid : Text) (us : List User) (u : User)
    → find (has_openid openid) us ≡ some u
    → u.openid ≡ openid
has_openid-find openid [] u h = cc
has_openid-find openid (v ∷ us) u h = elim (Bool-cases (has_openid openid v)) [
  | inl same ↦ let e = eq_of_text_eq v.openid openid same in ground arith
  | inr other ↦ has_openid-find openid us u (rw other at h)
]

-- A row that is found has its identifier taken.
pub any-find :
    (p : User → Bool) (us : List User) (u : User) (id : ℕ)
    → find p us ≡ some u
    → u.id ≡ id
    → any (λ v. v.id == id) us ≡ true
any-find p [] u id h e = cc
any-find p (v ∷ us) u id h e = ground (arith, any-find p us u id)

pub UniqueIds-find :
    (p : User → Bool) (us : List User) (u : User)
    → UniqueIds us
    → find p us ≡ some u
    → find_by user_key u.id us ≡ some u
UniqueIds-find p [] u k h = cc
UniqueIds-find p (v ∷ us) u (fresh, k) h =
    ground (arith, UniqueIds-find p us u k, any-find p us u v.id)

-- A rewrite of the row that an openid finds, under its identifier.
pub find-update_by :
    (openid : Text) (f : User → User) (us : List User) (u : User)
    → ((v : User) → (f v).openid ≡ v.openid)
    → UniqueIds us
    → find (has_openid openid) us ≡ some u
    → find (has_openid openid) (update_by user_key u.id f us) ≡ some (f u)
find-update_by openid f [] u keeps ids h = cc
find-update_by openid f (v ∷ us) u keeps (fresh, ids) h =
    ground (
      arith,
      keeps v,
      find-update_by openid f us u keeps ids,
      any-find (has_openid openid) us u v.id,
    )

pub any-same_buyer :
    (id : ℕ) (openid : Text) (us : List User) (u : User)
    → find (has_openid openid) us ≡ some u
    → any (same_buyer id openid) us ≡ true
any-same_buyer id openid [] u h = cc
any-same_buyer id openid (v ∷ us) u h = ground (arith, any-same_buyer id openid us u)

pub any-same_id :
    (id : ℕ) (openid : Text) (us : List User)
    → any (same_buyer id openid) us ≡ false
    → any (λ v. v.id == id) us ≡ false
any-same_id id openid [] h = refl
any-same_id id openid (v ∷ us) h = ground (arith, any-same_id id openid us)

-- A rewrite of a row that keeps its identifier leaves the identifiers.
pub any-update_by :
    (id k : ℕ) (f : User → User) (us : List User)
    → ((v : User) → (f v).id ≡ v.id)
    → any (λ v. v.id == id) (update_by user_key k f us) ≡ any (λ v. v.id == id) us
any-update_by id k f [] keeps = refl
any-update_by id k f (v ∷ us) keeps = ground (arith, keeps v, any-update_by id k f us keeps)

pub UniqueIds-update_by :
    (k : ℕ) (f : User → User) (us : List User)
    → ((v : User) → (f v).id ≡ v.id)
    → UniqueIds us
    → UniqueIds (update_by user_key k f us)
UniqueIds-update_by k f [] keeps ids = tt
UniqueIds-update_by k f (v ∷ us) keeps (fresh, ids) = elim (Bool-cases (k == v.id)) [
  | inl same ↦ rw same (rw (keeps v) fresh, ids)
  | inr other ↦
      rw other (rw (any-update_by v.id k f us keeps) fresh, UniqueIds-update_by k f us keeps ids)
]
