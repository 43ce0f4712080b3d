-- ===== src/Common/Counts.antt =====
-- How many rows of a table meet a test, before and after the rewriting or the removal of one row.
use shop_mall.Common.Base.{
  ℕ, ◌+◌, ◌≡◌, refl, inl, inr, Bool, false, some, List, [], ◌∷◌, arith, ◌==◌, if◌then◌else◌,
  Bool-cases,
}
use shop_mall.Common.Table.{find_by, count, any, update_by, delete_by}

-- One or none, by a test.
abbrev pub one_if : Bool → ℕ
one_if b = if b then 1 else 0

module _ {R : Type 0} (key : R → ℕ) (p : R → Bool) where
  pub count-update_by :
      (id : ℕ) (f : R → R) (a : R) (rows : List R)
      → find_by key id rows ≡ some a
      → count p (update_by key id f rows) + one_if (p a) ≡ count p rows + one_if (p (f a))
  count-update_by id f a [] found = absurd (ground arith)
  count-update_by id f a (x ∷ xs) found = elim (Bool-cases (id == key x)) [
    | inl here ↦ let same : x ≡ a = ground arith in rw here (rw same (omega arith))
    | inr later ↦ rw later (omega (arith, count-update_by id f a xs (ground arith)))
  ]

  pub count-delete_by :
      (id : ℕ) (a : R) (rows : List R)
      → find_by key id rows ≡ some a
      → count p (delete_by key id rows) + one_if (p a) ≡ count p rows
  count-delete_by id a [] found = absurd (ground arith)
  count-delete_by id a (x ∷ xs) found = elim (Bool-cases (id == key x)) [
    | inl here ↦ let same : x ≡ a = ground arith in rw here (rw same (omega arith))
    | inr later ↦ rw later (omega (arith, count-delete_by id a xs (ground arith)))
  ]

pub count-none : {R : Type 0} (p : R → Bool) (rows : List R) → any p rows ≡ false → count p rows ≡ 0
count-none p [] h = refl
count-none p (a ∷ rows) h = ground (arith, count-none p rows)
