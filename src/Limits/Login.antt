-- ===== src/Limits/Login.antt =====
-- The limiters: `LoginRateLimiter` of the administrators, with its two dimensions, the one of the
-- buyers, and the `RateLimiter` of the routes. strings.ToLower is a parameter.
use shop_mall.Common.Base.{
  ℕ, ◌+◌, Bool, true, false, Option, none, some, List, [], leb, ◌==◌, ◌||◌, if◌then◌else◌,
}
use shop_mall.Common.Int.{ℤ}
use shop_mall.Common.Text.{Text, trim_space, is_blank}
use shop_mall.Limits.Windows.{lookup, put, remove, has_elapsed, clamp_limit, clamp_window}

-- `loginRateBucket`
pub record Bucket : Type 0 where
  pub started : ℕ
  pub count : ℕ

abbrev pub Buckets : Type 0
Buckets = List (Text × Bucket)

-- `LoginRateLimiter` of the administrators, without its clock.
pub record LoginRateLimiter : Type 0 where
  pub account_limit : ℕ
  pub account_window : ℕ
  pub ip_limit : ℕ
  pub ip_window : ℕ
  pub account_buckets : Buckets
  pub ip_buckets : Buckets

-- `LoginRateLimiterConfig`
pub record LoginRateLimiterConfig : Type 0 where
  pub account_limit : ℤ
  pub account_window : ℤ
  pub ip_limit : ℤ
  pub ip_window : ℤ

-- `NewLoginRateLimiterConfig`
unfoldable pub new_login_rate_limiter_config : LoginRateLimiterConfig → LoginRateLimiter
unfolding clamp_limit clamp_window
new_login_rate_limiter_config cfg = record {
  account_limit = clamp_limit cfg.account_limit;
  account_window = clamp_window cfg.account_window;
  ip_limit = clamp_limit cfg.ip_limit;
  ip_window = clamp_window cfg.ip_window;
  account_buckets = [];
  ip_buckets = [];
}

-- `NewLoginRateLimiter`
unfoldable pub new_login_rate_limiter : ℤ → ℤ → LoginRateLimiter
unfolding new_login_rate_limiter_config
new_login_rate_limiter limit window = new_login_rate_limiter_config (record {
  account_limit = limit;
  account_window = window;
  ip_limit = limit;
  ip_window = window;
})

-- What becomes of a bucket: whether the attempt is allowed, and the bucket after it.
unfoldable pub use_bucket : Option Bucket → ℕ → ℕ → ℕ → Bool × Option Bucket
use_bucket none limit window now = (true, some (record { started = now; count = 1 }))
use_bucket (some b) limit window now =
    if has_elapsed b.started window now
    then (true, some (record { started = now; count = 1 }))
    else if leb limit b.count
    then (false, none)
    else (true, some (record b { count = b.count + 1 }))

-- The map after a write, where there is one.
abbrev pub store_bucket : Text → Option Bucket → Buckets → Buckets
store_bucket key none buckets = buckets
store_bucket key (some b) buckets = put key b buckets

-- `allowIntoBucket`
unfoldable pub allow_into_bucket : Buckets → Text → ℕ → ℕ → ℕ → Bool × Buckets
unfolding use_bucket
allow_into_bucket buckets key limit window now =
    let out = use_bucket (lookup key buckets) limit window now in
    (out.0, store_bucket key out.1 buckets)

module _ (to_lower : Text → Text) where
  -- The key of an account.
  unfoldable pub account_key : Text → Text
  account_key username = to_lower (trim_space username)

  -- The second dimension, once the first has allowed the attempt.
  unfoldable pub allow_ip : LoginRateLimiter → Text → ℕ → Bool × LoginRateLimiter
  allow_ip l ip now =
      let key = trim_space ip in
      if is_blank key
      then (true, l)
      else let out = allow_into_bucket l.ip_buckets key l.ip_limit l.ip_window now in
        (out.0, record l { ip_buckets = out.1 })

  -- `LoginRateLimiter.Allow` of a limiter that is not nil.
  unfoldable pub allow_login : LoginRateLimiter → Text → Text → ℕ → Bool × LoginRateLimiter
  unfolding account_key allow_ip
  allow_login l username ip now =
      let out =
        allow_into_bucket l.account_buckets (account_key username) l.account_limit l.account_window
          now in
      let l' = record l { account_buckets = out.1 } in
      if out.0 then allow_ip l' ip now else (false, l')

  -- `LoginRateLimiter.Reset`
  unfoldable pub reset_login : LoginRateLimiter → Text → Text → LoginRateLimiter
  unfolding account_key
  reset_login l username ip =
      let key = trim_space ip in
      record l {
        account_buckets = remove (account_key username) l.account_buckets;
        ip_buckets = if is_blank key then l.ip_buckets else remove key l.ip_buckets;
      }

-- `LoginRateLimiter` of the buyers, without its clock.
pub record ClientLimiter : Type 0 where
  pub limit : ℕ
  pub window : ℕ
  pub buckets : Buckets

-- Its `NewLoginRateLimiter`.
unfoldable pub new_client_limiter : ℤ → ℤ → ClientLimiter
unfolding clamp_limit clamp_window
new_client_limiter limit window = record {
  limit = clamp_limit limit;
  window = clamp_window window;
  buckets = [];
}

-- Its `Allow`, of a limiter that is not nil.
unfoldable pub allow_client : ClientLimiter → Text → ℕ → Bool × ClientLimiter
unfolding use_bucket
allow_client l ip now =
    let key = trim_space ip in
    let out = use_bucket (lookup key l.buckets) l.limit l.window now in
    (out.0, record l { buckets = store_bucket key out.1 l.buckets })

-- Its `Reset`.
unfoldable pub reset_client : ClientLimiter → Text → ClientLimiter
reset_client l ip = record l { buckets = remove (trim_space ip) l.buckets }

-- `rateLimitEntry`
pub record RateLimitEntry : Type 0 where
  pub started : ℕ
  pub count : ℕ

-- `RateLimiter`, without its clock.
pub record RateLimiter : Type 0 where
  pub limit : ℕ
  pub window : ℕ
  pub entries : List (Text × RateLimitEntry)

-- `NewRateLimiter`
unfoldable pub new_rate_limiter : ℤ → ℤ → RateLimiter
unfolding clamp_limit clamp_window
new_rate_limiter limit window = record {
  limit = clamp_limit limit;
  window = clamp_window window;
  entries = [];
}

-- `l.entries[key]`: the zero entry where there is none.
abbrev pub entry_of : Option RateLimitEntry → RateLimitEntry
entry_of none = record { started = 0; count = 0 }
entry_of (some e) = e

-- What becomes of an entry; `none` where nothing is written.
unfoldable pub use_entry : RateLimitEntry → ℕ → ℕ → ℕ → Bool × Option RateLimitEntry
use_entry e limit window now =
    if e.started == 0 || has_elapsed e.started window now
    then (true, some (record { started = now; count = 1 }))
    else if leb limit e.count
    then (false, none)
    else (true, some (record e { count = e.count + 1 }))

abbrev pub store_entry :
    Text → Option RateLimitEntry → List (Text × RateLimitEntry) → List (Text × RateLimitEntry)
store_entry key none entries = entries
store_entry key (some e) entries = put key e entries

-- `RateLimiter.Allow`
unfoldable pub allow_route : RateLimiter → Text → ℕ → Bool × RateLimiter
unfolding use_entry
allow_route l key now =
    let out = use_entry (entry_of (lookup key l.entries)) l.limit l.window now in
    (out.0, record l { entries = store_entry key out.1 l.entries })
