-- ===== src/Limits/Budget.antt =====
-- How many attempts the login limiter of internal/admin/rate_limit.go lets through in a span of
-- time: each attempt that a key gets through uses up room that only a new window gives back.
use shop_mall.Common.Base.{
  ℕ, ◌+◌, ◌-◌, ◌≤◌, ◌<◌, ◌≡◌, refl, arith, Bool, true, false, ◌&&◌, Option, none, some, List, [],
  ◌∷◌, ltb, if◌then◌else◌, Bool-cases, inl, inr,
}
use shop_mall.Common.Text.{Text, trim_space, is_blank, text_eq, text_eq_refl, eq_of_text_eq}
use shop_mall.Limits.Windows.{lookup, lookup-put, lookup-put_other}
use shop_mall.Limits.Login.{
  Bucket, Buckets, LoginRateLimiter, use_bucket, store_bucket, allow_into_bucket, account_key,
  allow_ip, allow_login,
}

-- How many more attempts a bucket can let through before the time `t` and a window: those of the
-- present count, and a full limit more if it can still start anew.
abbrev pub room : ℕ → ℕ → Option Bucket → ℕ
room t limit none = limit
room t limit (some b) = (if ltb b.started t then limit else 0) + (limit - b.count)

-- The bucket that a key has after an attempt.
abbrev after : Option Bucket → Option Bucket → Option Bucket
after old none = old
after old (some b) = some b

-- 1 for an attempt let through.
abbrev pub as_one : Bool → ℕ
as_one b = if b then 1 else 0

use_bucket-room :
    (o : Option Bucket) (t limit window now : ℕ)
    → 1 ≤ limit
    → t ≤ now
    → now < t + window
    → as_one (use_bucket o limit window now).0
        + room t limit (after o (use_bucket o limit window now).1)
      ≤ room t limit o
unfolding use_bucket
use_bucket-room none t limit window now one low high = ground arith
use_bucket-room (some b) t limit window now one low high = ground arith

lookup-store_bucket :
    (k : Text) (o : Option Bucket) (m : Buckets)
    → lookup k (store_bucket k o m) ≡ after (lookup k m) o
lookup-store_bucket k none m = refl
lookup-store_bucket k (some b) m = lookup-put k b m

lookup-store_bucket_other :
    (i k : Text) (o : Option Bucket) (m : Buckets)
    → text_eq i k ≡ false
    → lookup i (store_bucket k o m) ≡ lookup i m
lookup-store_bucket_other i k none m h = refl
lookup-store_bucket_other i k (some b) m h = lookup-put_other i k b m h

-- One attempt under the key `j`, seen from the key `k`.
pub allow_into_bucket-room :
    (m : Buckets) (k j : Text) (t limit window now : ℕ)
    → 1 ≤ limit
    → t ≤ now
    → now < t + window
    → as_one ((allow_into_bucket m j limit window now).0 && text_eq k j)
        + room t limit (lookup k (allow_into_bucket m j limit window now).1)
      ≤ room t limit (lookup k m)
unfolding allow_into_bucket
allow_into_bucket-room m k j t limit window now one low high =
    let out = use_bucket (lookup j m) limit window now in
    elim (Bool-cases (text_eq k j)) [
      | inl same ↦
          let e = eq_of_text_eq k j same in
          let kept : lookup j (store_bucket j out.1 m) ≡ after (lookup j m) out.1 =
            lookup-store_bucket j out.1 m in
          rw (e, text_eq_refl j, kept)
            (ground (arith, use_bucket-room (lookup j m) t limit window now one low high))
      | inr other ↦ rw (other, lookup-store_bucket_other k j out.1 m other) (ground arith)
    ]

-- An attempt to log in.
pub record Attempt : Type 0 where
  pub username : Text
  pub ip : Text
  pub now : ℕ

-- The attempts are made at `t` or later, and less than a window after it.
abbrev pub Within : ℕ → ℕ → List Attempt → Type 0
Within t window [] = Unit
Within t window (a ∷ rest) = (t ≤ a.now) × (a.now < t + window) × Within t window rest

-- A key that is not blank is apart from one that is.
blank_apart : (k s : Text) → is_blank k ≡ false → is_blank s ≡ true → text_eq k s ≡ false
unfolding text_eq
blank_apart [] s filled blank = cc
blank_apart (c ∷ k) [] filled blank = refl
blank_apart (c ∷ k) (d ∷ s) filled blank = cc

-- What the running window of a key has left; a key without a bucket has no window.
abbrev pub left_over : ℕ → Option Bucket → ℕ
left_over limit none = 0
left_over limit (some b) = limit - b.count

room-left_over : (t limit : ℕ) (o : Option Bucket) → room t limit o ≤ limit + left_over limit o
room-left_over t limit none = ground arith
room-left_over t limit (some b) = ground arith

module _ (to_lower : Text → Text) where
  -- The attempts of one account that the limiter lets through, one after another.
  abbrev pub admitted_account : LoginRateLimiter → Text → List Attempt → ℕ
  admitted_account l k [] = 0
  admitted_account l k (a ∷ rest) =
      let out = allow_login to_lower l a.username a.ip a.now in
      as_one (out.0 && text_eq k (account_key to_lower a.username)) + admitted_account out.1 k rest

  -- The attempts from one address that the limiter lets through.
  abbrev pub admitted_ip : LoginRateLimiter → Text → List Attempt → ℕ
  admitted_ip l k [] = 0
  admitted_ip l k (a ∷ rest) =
      let out = allow_login to_lower l a.username a.ip a.now in
      as_one (out.0 && text_eq k (trim_space a.ip)) + admitted_ip out.1 k rest

  -- What an attempt leaves of the first dimension, and of the limits.
  allow_login-account :
      (l : LoginRateLimiter) (username ip : Text) (now : ℕ)
      → let out = allow_login to_lower l username ip now in
        let dim =
          allow_into_bucket l.account_buckets
            (account_key to_lower username)
            l.account_limit
            l.account_window
            now in
        (out.1.account_buckets ≡ dim.1)
        × (out.1.account_limit ≡ l.account_limit)
        × (out.1.account_window ≡ l.account_window)
        × ((b : Bool) → as_one (out.0 && b) ≤ as_one (dim.0 && b))
  unfolding allow_login allow_ip
  allow_login-account l username ip now = ground arith

  pub admitted_account-room :
      (l : LoginRateLimiter) (k : Text) (t : ℕ) (attempts : List Attempt)
      → 1 ≤ l.account_limit
      → Within t l.account_window attempts
      → admitted_account l k attempts ≤ room t l.account_limit (lookup k l.account_buckets)
  admitted_account-room l k t [] one w = ground arith
  admitted_account-room l k t (a ∷ rest) one (low, high, w) =
      let out = allow_login to_lower l a.username a.ip a.now in
      let (eb, el, ew, le) = allow_login-account l a.username a.ip a.now in
      let ih = admitted_account-room out.1 k t rest (rw el one) (rw ew w) in
      let now_room =
        allow_into_bucket-room l.account_buckets k (account_key to_lower a.username) t
          l.account_limit l.account_window a.now one low high in
      let bound = rw (eb, el) at ih in
      omega (arith, now_room, bound, le (text_eq k (account_key to_lower a.username)))

  -- What an attempt leaves of the second dimension: an attempt that gets through has used it.
  allow_ip-room :
      (l : LoginRateLimiter) (ip k : Text) (t now : ℕ)
      → is_blank k ≡ false
      → 1 ≤ l.ip_limit
      → t ≤ now
      → now < t + l.ip_window
      → let out = allow_ip to_lower l ip now in
        (as_one (out.0 && text_eq k (trim_space ip)) + room t l.ip_limit (lookup k out.1.ip_buckets)
          ≤ room t l.ip_limit (lookup k l.ip_buckets))
        × (out.1.ip_limit ≡ l.ip_limit)
        × (out.1.ip_window ≡ l.ip_window)
  unfolding allow_ip
  allow_ip-room l ip k t now filled one low high = elim (Bool-cases (is_blank (trim_space ip))) [
    | inl blank ↦ ground (arith, blank, blank_apart k (trim_space ip) filled blank)
    | inr other ↦ ground (
      arith,
      other,
      allow_into_bucket-room l.ip_buckets k (trim_space ip) t l.ip_limit l.ip_window now one low
          high,
    )
  ]

  allow_login-ip :
      (l : LoginRateLimiter) (username ip k : Text) (t now : ℕ)
      → is_blank k ≡ false
      → 1 ≤ l.ip_limit
      → t ≤ now
      → now < t + l.ip_window
      → let out = allow_login to_lower l username ip now in
        (as_one (out.0 && text_eq k (trim_space ip)) + room t l.ip_limit (lookup k out.1.ip_buckets)
          ≤ room t l.ip_limit (lookup k l.ip_buckets))
        × (out.1.ip_limit ≡ l.ip_limit)
        × (out.1.ip_window ≡ l.ip_window)
  unfolding allow_login
  allow_login-ip l username ip k t now filled one low high =
      let dim =
        allow_into_bucket l.account_buckets (account_key to_lower username) l.account_limit
          l.account_window now in
      elim (Bool-cases dim.0) [
        | inl passed ↦
            rw passed
              (allow_ip-room (record l { account_buckets = dim.1 }) ip k t now filled one low high)
        | inr refused ↦ rw refused (ground arith)
      ]

  pub admitted_ip-room :
      (l : LoginRateLimiter) (k : Text) (t : ℕ) (attempts : List Attempt)
      → is_blank k ≡ false
      → 1 ≤ l.ip_limit
      → Within t l.ip_window attempts
      → admitted_ip l k attempts ≤ room t l.ip_limit (lookup k l.ip_buckets)
  admitted_ip-room l k t [] filled one w = ground arith
  admitted_ip-room l k t (a ∷ rest) filled one (low, high, w) =
      let out = allow_login to_lower l a.username a.ip a.now in
      let (now_room, el, ew) = allow_login-ip l a.username a.ip k t a.now filled one low high in
      let ih = admitted_ip-room out.1 k t rest filled (rw el one) (rw ew w) in
      let bound = rw el at ih in omega (arith, now_room, bound)

  -- Less than an account window apart, the attempts for one account that get through number at
  -- most the account limit and what the running window had left, whatever addresses they come from
  -- and whatever attempts of other accounts stand between. No reset falls between them.
  pub allow_login-account_budget :
      (l : LoginRateLimiter) (k : Text) (t : ℕ) (attempts : List Attempt)
      → 1 ≤ l.account_limit
      → Within t l.account_window attempts
      → admitted_account l k attempts
        ≤ l.account_limit + left_over l.account_limit (lookup k l.account_buckets)
  allow_login-account_budget l k t attempts one w = omega (
    arith,
    admitted_account-room l k t attempts one w,
    room-left_over t l.account_limit (lookup k l.account_buckets),
  )

  -- Less than an address window apart, the attempts from one address that is not blank that get
  -- through number at most the address limit and what the running window had left, whatever
  -- accounts they try. No reset falls between them.
  pub allow_login-ip_budget :
      (l : LoginRateLimiter) (k : Text) (t : ℕ) (attempts : List Attempt)
      → is_blank k ≡ false
      → 1 ≤ l.ip_limit
      → Within t l.ip_window attempts
      → admitted_ip l k attempts ≤ l.ip_limit + left_over l.ip_limit (lookup k l.ip_buckets)
  allow_login-ip_budget l k t attempts filled one w = omega (
    arith,
    admitted_ip-room l k t attempts filled one w,
    room-left_over t l.ip_limit (lookup k l.ip_buckets),
  )
