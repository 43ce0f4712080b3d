-- ===== src/Limits/Agreement.antt =====
-- The limiter of the buyers' login (internal/application/auth/rate_limit.go), against the limiter of
-- the routes (internal/middleware/rate_limit.go) and the dimension of the administrators' login
-- (internal/admin/rate_limit.go): three ways to write one window.
use shop_mall.Common.Base.{
  ℕ, ◌≡◌, ◌≢◌, refl, sym, arith, Bool, true, Option, none, some, List, [], ◌∷◌, map, ap,
  if◌then◌else◌, Bool-cases, inl, inr,
}
use shop_mall.Common.Int.{ℤ}
use shop_mall.Common.Text.{Text, trim_space, text_eq, is_blank}
use shop_mall.Limits.Windows.{lookup, put, remove, lookup-put, lookup-remove}
use shop_mall.Limits.Login.{
  Bucket, Buckets, use_bucket, store_bucket, allow_into_bucket, account_key, allow_ip, allow_login,
  reset_login, ClientLimiter, new_client_limiter, allow_client, RateLimitEntry, RateLimiter,
  new_rate_limiter, entry_of, use_entry, store_entry, allow_route, LoginRateLimiter,
}

-- The answers to a sequence of requests, each with its key and its time.
abbrev pub client_answers : ClientLimiter → List (Text × ℕ) → List Bool
client_answers l [] = []
client_answers l ((ip, now) ∷ rest) =
    let out = allow_client l ip now in out.0 ∷ client_answers out.1 rest

abbrev pub route_answers : RateLimiter → List (Text × ℕ) → List Bool
route_answers l [] = []
route_answers l ((key, now) ∷ rest) =
    let out = allow_route l key now in out.0 ∷ route_answers out.1 rest

-- The requests come after the zero time.
abbrev pub Timed : List (Text × ℕ) → Type 0
Timed [] = Unit
Timed ((key, now) ∷ rest) = (now ≢ 0) × Timed rest

-- The entries hold what the buckets hold, none of them the zero time.
data Same : Buckets → List (Text × RateLimitEntry) → Type 0 where
  none_held : Same [] []
  one_held :
      {m : Buckets} {n : List (Text × RateLimitEntry)} (k : Text) (b : Bucket)
      → b.started ≢ 0
      → Same m n
      → Same ((k, b) ∷ m) ((k, record { started = b.started; count = b.count }) ∷ n)

-- An entry and a bucket of one key.
abbrev Pair : Option Bucket → Option RateLimitEntry → Type 0
Pair none none = Unit
Pair none (some e) = ⊥
Pair (some b) none = ⊥
Pair (some b) (some e) = (b.started ≢ 0) × (e.started ≡ b.started) × (e.count ≡ b.count)

lookup-Pair :
    (k : Text) (m : Buckets) (n : List (Text × RateLimitEntry))
    → Same m n
    → Pair (lookup k m) (lookup k n)
lookup-Pair k [] [] none_held = tt
lookup-Pair k _ _ (one_held {m} {n} j b timed rest) = elim (Bool-cases (text_eq k j)) [
  | inl same ↦ rw same (timed, refl, refl)
  | inr other ↦ rw other (lookup-Pair k m n rest)
]

put-Same :
    (k : Text) (b : Bucket) (m : Buckets) (n : List (Text × RateLimitEntry))
    → b.started ≢ 0
    → Same m n
    → Same (put k b m) (put k (record { started = b.started; count = b.count }) n)
put-Same k b [] [] timed none_held = one_held k b timed none_held
put-Same k b _ _ timed (one_held {m} {n} j c t rest) = elim (Bool-cases (text_eq k j)) [
  | inl same ↦ rw same (one_held j b timed rest)
  | inr other ↦ rw other (one_held j c t (put-Same k b m n timed rest))
]

-- The entry that holds what a bucket holds.
abbrev as_entry : Option Bucket → Option RateLimitEntry
as_entry none = none
as_entry (some b) = some (record { started = b.started; count = b.count })

use_entry-use_bucket :
    (o : Option Bucket) (e : Option RateLimitEntry) (limit window now : ℕ)
    → Pair o e
    → use_entry (entry_of e) limit window now
      ≡ ((use_bucket o limit window now).0, as_entry (use_bucket o limit window now).1)
unfolding use_entry use_bucket
use_entry-use_bucket none none limit window now p = ground arith
use_entry-use_bucket none (some e) limit window now p = absurd p
use_entry-use_bucket (some b) none limit window now p = absurd p
use_entry-use_bucket (some b) (some e) limit window now (timed, same, count) = ground arith

-- What is written is not of the zero time.
use_bucket-timed :
    (o : Option Bucket) (e : Option RateLimitEntry) (limit window now : ℕ)
    → Pair o e
    → now ≢ 0
    → (b : Bucket) → (use_bucket o limit window now).1 ≡ some b
    → b.started ≢ 0
unfolding use_bucket
use_bucket-timed none e limit window now p timed b h = ground arith
use_bucket-timed (some c) none limit window now p timed b h = absurd p
use_bucket-timed (some c) (some e) limit window now (t, same, count) timed b h = ground arith

store-Same :
    (k : Text) (o : Option Bucket) (m : Buckets) (n : List (Text × RateLimitEntry))
    → ((b : Bucket) → o ≡ some b → b.started ≢ 0)
    → Same m n
    → Same (store_bucket k o m) (store_entry k (as_entry o) n)
store-Same k none m n timed same = same
store-Same k (some b) m n timed same = put-Same k b m n (timed b refl) same

answers_agree :
    (l : ClientLimiter) (r : RateLimiter) (requests : List (Text × ℕ))
    → l.limit ≡ r.limit
    → l.window ≡ r.window
    → Same l.buckets r.entries
    → Timed requests
    → client_answers l requests ≡ route_answers r (map (λ q. (trim_space q.0, q.1)) requests)
unfolding allow_client allow_route
answers_agree l r [] el ew same timed = refl
answers_agree l r ((ip, now) ∷ rest) el ew same (t, timed) =
    let key = trim_space ip in
    let pair = lookup-Pair key l.buckets r.entries same in
    let out = use_bucket (lookup key l.buckets) l.limit l.window now in
    let e : use_entry (entry_of (lookup key r.entries)) r.limit r.window now
        ≡ (out.0, as_entry out.1) =
      rw (sym el, sym ew)
        (use_entry-use_bucket (lookup key l.buckets) (lookup key r.entries) l.limit l.window now
          pair) in
    let written =
      use_bucket-timed (lookup key l.buckets) (lookup key r.entries) l.limit l.window now pair t in
    let kept = store-Same key out.1 l.buckets r.entries written same in
    let l' : ClientLimiter = record l { buckets = store_bucket key out.1 l.buckets } in
    let r' : RateLimiter = record r { entries = store_entry key (as_entry out.1) r.entries } in
    let ih = answers_agree l' r' rest el ew kept timed in rw e (ap (λ answers. out.0 ∷ answers) ih)

-- New limiters with the same settings, whatever these are, answer alike: the one of the buyers'
-- login asked for addresses, the one of the routes asked for the same keys without the spaces
-- around them, at any times after the zero time.
pub allow_client-allow_route :
    (limit window : ℤ) (requests : List (Text × ℕ))
    → Timed requests
    → client_answers (new_client_limiter limit window) requests
      ≡ route_answers (new_rate_limiter limit window) (map (λ q. (trim_space q.0, q.1)) requests)
unfolding new_client_limiter new_rate_limiter
allow_client-allow_route limit window requests timed =
    answers_agree (new_client_limiter limit window) (new_rate_limiter limit window) requests refl
      refl none_held timed

-- An attempt right after a reset of its account and its address gets through, and leaves one
-- attempt counted for the account, and for the address unless that is blank: then the bucket of
-- the blank address is left alone.
pub reset_login-allow_login :
    (to_lower : Text → Text) (l : LoginRateLimiter) (username ip : Text) (now : ℕ)
    → let out = allow_login to_lower (reset_login to_lower l username ip) username ip now in
      (out.0 ≡ true)
      × (lookup (account_key to_lower username) out.1.account_buckets
          ≡ some (record { started = now; count = 1 }))
      × (lookup (trim_space ip) out.1.ip_buckets ≡ (
          if is_blank (trim_space ip)
          then lookup (trim_space ip) l.ip_buckets
          else some (record { started = now; count = 1 })))
unfolding reset_login allow_login allow_ip allow_into_bucket use_bucket
reset_login-allow_login to_lower l username ip now =
    let key = account_key to_lower username in
    let first : Bucket = record { started = now; count = 1 } in
    let accounts = remove key l.account_buckets in
    elim (Bool-cases (is_blank (trim_space ip))) [
      | inl blank ↦
          rw (lookup-remove key l.account_buckets, blank)
            (refl, lookup-put key first accounts, refl)
      | inr filled ↦
          rw
            (
              lookup-remove key l.account_buckets,
              filled,
              lookup-remove (trim_space ip) l.ip_buckets,
            )
            (
              refl,
              lookup-put key first accounts,
              lookup-put (trim_space ip) first (remove (trim_space ip) l.ip_buckets),
            )
    ]
