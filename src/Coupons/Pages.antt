-- ===== src/Coupons/Pages.antt =====
-- The pages of internal/coupon/service.go, put together.
use shop_mall.Common.Base.{
  ℕ, zero, suc, ◌+◌, ◌-◌, ◌*◌, ◌≤◌, ◌≡◌, refl, ap, ◌∙◌, List, [], ◌∷◌, ◌++◌, arith,
}
use shop_mall.Common.Int.{ℤ, pos}
use shop_mall.Common.Int64.{max_int64, mul64_exact}
use shop_mall.Common.Table.{length, insert_by, order_by}
use shop_mall.Database.Rows.{CouponTemplate, UserCoupon}
use shop_mall.Database.Store.{Db, Result, ok, err}
use shop_mall.Coupons.Templates.{template_key}
use shop_mall.Coupons.Listing.{
  reverse_onto, TemplateListItem, drop, take, clamp_page, clamp_page_size, page_offset, list_items,
  newest_first, list_templates,
}

take_add : {A : Type 0} (n m : ℕ) (xs : List A) → take (n + m) xs ≡ take n xs ++ take m (drop n xs)
take_add zero m xs = let e : 0 + m ≡ m = omega arith in rw e refl
take_add (suc n) zero [] = let e : suc n + 0 ≡ suc n = omega arith in rw e refl
take_add (suc n) (suc m) [] = let e : suc n + suc m ≡ suc (n + suc m) = omega arith in rw e refl
take_add (suc n) m (x ∷ xs) =
    let e : suc n + m ≡ suc (n + m) = omega arith in rw e (ap (λ r. x ∷ r) (take_add n m xs))

take_all : {A : Type 0} (n : ℕ) (xs : List A) → length xs ≤ n → take n xs ≡ xs
take_all zero [] h = refl
take_all zero (x ∷ xs) h = absurd (ground arith)
take_all (suc n) [] h = refl
take_all (suc n) (x ∷ xs) h = ap (λ r. x ∷ r) (take_all n xs (ground arith))

list_items-++ :
    (coupons : List UserCoupon) (xs ys : List CouponTemplate)
    → list_items coupons (xs ++ ys) ≡ list_items coupons xs ++ list_items coupons ys
list_items-++ coupons [] ys = refl
list_items-++ coupons (x ∷ xs) ys = ground (arith, list_items-++ coupons xs ys)

length-insert_by :
    (t : CouponTemplate) (ts : List CouponTemplate)
    → length (insert_by template_key t ts) ≡ suc (length ts)
length-insert_by t [] = refl
length-insert_by t (x ∷ xs) = ground (arith, length-insert_by t xs)

length-order_by : (ts : List CouponTemplate) → length (order_by template_key ts) ≡ length ts
length-order_by [] = refl
length-order_by (t ∷ ts) =
    length-insert_by t (order_by template_key ts) ∙ ap suc (length-order_by ts)

length-reverse_onto :
    (ts acc : List CouponTemplate) → length (reverse_onto ts acc) ≡ length ts + length acc
length-reverse_onto [] acc = let e : 0 + length acc ≡ length acc = omega arith in rw e refl
length-reverse_onto (t ∷ ts) acc = ground (arith, length-reverse_onto ts (t ∷ acc))

length-newest_first :
    {H : Type 0} (db : Db H) → length (newest_first db) ≡ length db.coupon_templates
unfolding newest_first
length-newest_first db =
    let e = length-reverse_onto (order_by template_key db.coupon_templates) [] in
    omega (arith, e, length-order_by db.coupon_templates)

-- The items that an answer has.
abbrev items_of : {H : Type 0} → Result (List TemplateListItem × ℕ) × Db H → List TemplateListItem
items_of (ok (items, total), db) = items
items_of (err e, db) = []

-- The first pages, one after another.
abbrev pub pages : {H : Type 0} → Db H → ℤ → ℕ → List TemplateListItem
pages db page_size zero = []
pages db page_size (suc k) =
    pages db page_size k ++ items_of (list_templates (pos (suc k)) page_size db)

page_offset_exact : (k size : ℕ) → k * size ≤ max_int64 → page_offset (suc k) size ≡ k * size
unfolding page_offset
page_offset_exact k size h =
    let e : suc k - 1 ≡ k = omega arith in rw (e, mul64_exact k size h) refl

clamp_page_next : (k : ℕ) → clamp_page (pos (suc k)) ≡ suc k
unfolding clamp_page
clamp_page_next k = ground arith

module _ {H : Type 0} where
  page_items :
      (db : Db H) (page_size : ℤ) (k : ℕ)
      → k * clamp_page_size page_size ≤ max_int64
      → items_of (list_templates (pos (suc k)) page_size db)
        ≡ list_items db.user_coupons (
            take
              (clamp_page_size page_size)
              (drop (k * clamp_page_size page_size) (newest_first db)))
  unfolding list_templates
  page_items db page_size k h =
      rw (clamp_page_next k, page_offset_exact k (clamp_page_size page_size) h) refl

  -- The first `k` pages of a size are the first templates, newest first, each with its redeemed
  -- count, if the offset of the last page fits in int64.
  pages-take :
      (db : Db H) (page_size : ℤ) (k : ℕ)
      → k * clamp_page_size page_size ≤ max_int64
      → pages db page_size k
        ≡ list_items db.user_coupons (take (k * clamp_page_size page_size) (newest_first db))
  pages-take db page_size zero h =
      let e : 0 * clamp_page_size page_size ≡ 0 = ground arith in rw e refl
  pages-take db page_size (suc k) h =
      let size = clamp_page_size page_size in
      let all = newest_first db in
      let next : suc k * size ≡ k * size + size = ground arith in
      let fits : k * size ≤ max_int64 = ground arith in
      rw
        (
          next,
          take_add (k * size) size all,
          list_items-++ db.user_coupons (take (k * size) all) (take size (drop (k * size) all)),
          pages-take db page_size k fits,
          page_items db page_size k fits,
        )
        refl

  -- Enough pages of one size for all rows, put together, are the items of the whole table in the
  -- order of the query, whatever size is asked for, if the offset behind them fits in int64.
  pub pages-list_items :
      (db : Db H) (page_size : ℤ) (k : ℕ)
      → k * clamp_page_size page_size ≤ max_int64
      → length db.coupon_templates ≤ k * clamp_page_size page_size
      → pages db page_size k ≡ list_items db.user_coupons (newest_first db)
  pages-list_items db page_size k fits enough =
      let all : length (newest_first db) ≤ k * clamp_page_size page_size =
        rw (length-newest_first db) enough in
      rw
        (
          pages-take db page_size k fits,
          take_all (k * clamp_page_size page_size) (newest_first db) all,
        )
        refl
