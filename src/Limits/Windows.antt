-- ===== src/Limits/Windows.antt =====
-- Go's maps with string keys, as the limiters use them, and the clock. A time is a number of
-- nanoseconds since the zero time of Go, so that 0 is `IsZero`.
use shop_mall.Common.Base.{
  ℕ, ◌+◌, ◌≡◌, refl, arith, Bool, false, Option, none, some, List, [], ◌∷◌, leb, if◌then◌else◌, ltb,
  Bool-cases, inl, inr,
}
use shop_mall.Common.Int.{ℤ, pos, negsuc}
use shop_mall.Common.Text.{Text, text_eq, text_eq_refl, eq_of_text_eq}

module _ {V : Type 0} where
  -- m[k]
  abbrev pub lookup : Text → List (Text × V) → Option V
  lookup k [] = none
  lookup k ((j, v) ∷ m) = if text_eq k j then some v else lookup k m

  -- m[k] = v
  abbrev pub put : Text → V → List (Text × V) → List (Text × V)
  put k v [] = (k, v) ∷ []
  put k v ((j, w) ∷ m) = if text_eq k j then (j, v) ∷ m else (j, w) ∷ put k v m

  -- delete(m, k)
  abbrev pub remove : Text → List (Text × V) → List (Text × V)
  remove k [] = []
  remove k ((j, w) ∷ m) = let rest = remove k m in if text_eq k j then rest else (j, w) ∷ rest

  pub lookup-put : (k : Text) (v : V) (m : List (Text × V)) → lookup k (put k v m) ≡ some v
  lookup-put k v [] = ground (arith, text_eq_refl k)
  lookup-put k v ((j, w) ∷ m) = ground (arith, lookup-put k v m)

  pub lookup-put_other :
      (i k : Text) (v : V) (m : List (Text × V))
      → text_eq i k ≡ false
      → lookup i (put k v m) ≡ lookup i m
  lookup-put_other i k v [] h = ground arith
  lookup-put_other i k v ((j, w) ∷ m) h = elim (Bool-cases (text_eq k j)) [
    | inl same ↦
        let e = eq_of_text_eq k j same in
        let apart : text_eq i j ≡ false = rw e at h in rw (same, apart) refl
    | inr other ↦ rw other (ground (arith, lookup-put_other i k v m h))
  ]

  pub lookup-remove : (k : Text) (m : List (Text × V)) → lookup k (remove k m) ≡ none
  lookup-remove k [] = refl
  lookup-remove k ((j, w) ∷ m) = ground (arith, lookup-remove k m)

-- `now.Sub(started) >= window` of a positive window: a difference beyond a Duration is cut off at
-- its end, which leaves the comparison as it is.
abbrev pub has_elapsed : ℕ → ℕ → ℕ → Bool
has_elapsed started window now = leb (started + window) now

-- A limit below 1 is 1.
unfoldable pub clamp_limit : ℤ → ℕ
clamp_limit (pos n) = if ltb n 1 then 1 else n
clamp_limit (negsuc n) = 1

-- time.Minute
abbrev pub minute : ℕ
minute = 60000000000

-- A window that is not positive is a minute.
unfoldable pub clamp_window : ℤ → ℕ
clamp_window (pos n) = if leb n 0 then minute else n
clamp_window (negsuc n) = minute
