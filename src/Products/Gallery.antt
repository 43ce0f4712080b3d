-- ===== src/Products/Gallery.antt =====
-- The gallery that internal/product/service.go makes of the keys of a request.
use shop_mall.Common.Base.{
  ◌≤◌, ◌≡◌, refl, sym, ap, ◌∙◌, ◌≢◌, inl, inr, true, false, not, ◌&&◌, ◌||◌, some, List, [], ◌∷◌,
  map, arith, Bool-cases, Option-cases,
}
use shop_mall.Common.Table.{length}
use shop_mall.Common.Text.{Text, trim_space, is_blank, text_eq, text_eq_refl, eq_of_text_eq}
use shop_mall.Products.Fields.{
  one_of, valid_object_key, distinct_keys, at_most_nine, normalize_image_keys,
}

abbrev pub AllKeys : List Text → Type 0
AllKeys [] = Unit
AllKeys (k ∷ ks) = (valid_object_key k ≡ true) × AllKeys ks

abbrev pub Distinct : List Text → Type 0
Distinct [] = Unit
Distinct (k ∷ ks) = (one_of k ks ≡ false) × Distinct ks

-- Object keys, each once, and no more than nine.
abbrev pub IsGallery : List Text → Type 0
IsGallery keys = (AllKeys keys) × (Distinct keys) × (length keys ≤ 9)

-- What the loop gives for the keys seen before: a key is in it exactly if it is asked for, with
-- spaces around it or not, is not blank and was not seen.
abbrev Collects : List Text → List Text → List Text → Type 0
Collects keys seen out =
    (AllKeys out)
    × (Distinct out)
    × ((k : Text)
        → one_of k out
          ≡ (one_of k (map trim_space keys) && not (is_blank k) && not (one_of k seen)))

same_text : (a b : Text) → text_eq a b ≡ true → a ≡ b
same_text a b h = eq_of_text_eq a b h

nothing_left : (seen out : List Text) → distinct_keys [] seen ≡ some out → out ≡ []
unfolding distinct_keys
nothing_left seen out h = ground arith

-- A key that has been taken is not collected again.
taken_once :
    (key : Text) (keys seen out : List Text)
    → one_of key out ≡ (one_of key keys && not (is_blank key) && not (one_of key (key ∷ seen)))
    → one_of key out ≡ false
taken_once key keys seen out h = let e = text_eq_refl key in ground arith

skip_blank :
    (key : Text) (keys seen out : List Text) (k : Text)
    → is_blank key ≡ true
    → one_of k out ≡ (one_of k keys && not (is_blank k) && not (one_of k seen))
    → one_of k out ≡ (one_of k (key ∷ keys) && not (is_blank k) && not (one_of k seen))
skip_blank key keys seen out k blank h = elim (Bool-cases (text_eq k key)) [
  | inl same ↦
      let e = same_text k key same in let b : is_blank k ≡ true = rw e blank in ground arith
  | inr other ↦ ground arith
]

skip_seen :
    (key : Text) (keys seen out : List Text) (k : Text)
    → one_of key seen ≡ true
    → one_of k out ≡ (one_of k keys && not (is_blank k) && not (one_of k seen))
    → one_of k out ≡ (one_of k (key ∷ keys) && not (is_blank k) && not (one_of k seen))
skip_seen key keys seen out k there h = elim (Bool-cases (text_eq k key)) [
  | inl same ↦
      let e = same_text k key same in let b : one_of k seen ≡ true = rw e there in ground arith
  | inr other ↦ ground arith
]

take_key :
    (key : Text) (keys seen out : List Text) (k : Text)
    → is_blank key ≡ false
    → one_of key seen ≡ false
    → one_of k out ≡ (one_of k keys && not (is_blank k) && not (one_of k (key ∷ seen)))
    → one_of k (key ∷ out) ≡ (one_of k (key ∷ keys) && not (is_blank k) && not (one_of k seen))
take_key key keys seen out k filled fresh h = elim (Bool-cases (text_eq k key)) [
  | inl same ↦
      let e = same_text k key same in
      let b : is_blank k ≡ false = rw e filled in
      let n : one_of k seen ≡ false = rw e fresh in ground arith
  | inr other ↦ ground arith
]

-- The ways of one step of the loop.
step_skips :
    (raw : Text) (keys seen : List Text)
    → (is_blank (trim_space raw)
        || (valid_object_key (trim_space raw) && one_of (trim_space raw) seen))
      ≡ true
    → distinct_keys (raw ∷ keys) seen ≡ distinct_keys keys seen
unfolding distinct_keys
step_skips raw keys seen h = ground arith

step_fails :
    (raw : Text) (keys seen out : List Text)
    → is_blank (trim_space raw) ≡ false
    → valid_object_key (trim_space raw) ≡ false
    → distinct_keys (raw ∷ keys) seen ≢ some out
unfolding distinct_keys
step_fails raw keys seen out filled bad h = ground arith

step_takes :
    (raw : Text) (keys seen out : List Text)
    → is_blank (trim_space raw) ≡ false
    → valid_object_key (trim_space raw) ≡ true
    → one_of (trim_space raw) seen ≡ false
    → distinct_keys (raw ∷ keys) seen ≡ some out
    → (rest : List Text) × (out ≡ trim_space raw ∷ rest)
      × (distinct_keys keys (trim_space raw ∷ seen) ≡ some rest)
unfolding distinct_keys
step_takes raw keys seen out filled valid fresh h =
    elim (Option-cases (distinct_keys keys (trim_space raw ∷ seen))) [
      | inl none_left ↦ absurd (ground arith)
      | inr (rest, left) ↦ (rest, ground arith, left)
    ]

distinct_keys-Collects :
    (keys seen out : List Text) → distinct_keys keys seen ≡ some out → Collects keys seen out
distinct_keys-Collects [] seen out h =
    let e : out ≡ [] = nothing_left seen out h in rw e (tt, tt, λ k. refl)
distinct_keys-Collects (raw ∷ keys) seen out h =
    let key = trim_space raw in
    elim (Bool-cases (is_blank key)) [
      | inl blank ↦
          let step = step_skips raw keys seen (ground arith) in
          let (all, once, asked) = distinct_keys-Collects keys seen out (sym step ∙ h) in
          (all, once, λ k. (skip_blank key (map trim_space keys) seen out k blank (asked k)))
      | inr filled ↦ elim (Bool-cases (valid_object_key key)) [
        | inr bad ↦ absurd (step_fails raw keys seen out filled bad h)
        | inl valid ↦ elim (Bool-cases (one_of key seen)) [
          | inl there ↦
              let step = step_skips raw keys seen (ground arith) in
              let (all, once, asked) = distinct_keys-Collects keys seen out (sym step ∙ h) in
              (all, once, λ k. (skip_seen key (map trim_space keys) seen out k there (asked k)))
          | inr fresh ↦
              let (rest, e, left) = step_takes raw keys seen out filled valid fresh h in
              let (all, once, asked) = distinct_keys-Collects keys (key ∷ seen) rest left in
              rw e (
                (valid, all),
                (taken_once key (map trim_space keys) seen rest (asked key), once),
                λ k. (take_key key (map trim_space keys) seen rest k filled fresh (asked k)),
              )
        ]
      ]
    ]

-- The keys that a gallery is made of: object keys, each once, no more than nine; and a key is among
-- them exactly if the request has it, with or without spaces around it, and it is not blank.
pub normalize_image_keys-IsGallery :
    (keys out : List Text)
    → normalize_image_keys keys ≡ some out
    → (IsGallery out)
      × ((k : Text) → one_of k out ≡ (one_of k (map trim_space keys) && not (is_blank k)))
unfolding normalize_image_keys at_most_nine
normalize_image_keys-IsGallery keys out h = elim (Option-cases (distinct_keys keys [])) [
  | inl failed ↦ absurd (ground arith)
  | inr (rest, made) ↦
      let same : rest ≡ out = ground arith in
      let few : length out ≤ 9 = ground arith in
      let (all, once, asked) = distinct_keys-Collects keys [] out (made ∙ ap some same) in
      ((all, once, few), λ k. (let e = asked k in ground arith))
]
