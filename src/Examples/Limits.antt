-- ===== src/Examples/Limits.antt =====
-- The rate limits at work, on small limiters; strings.ToLower leaves the keys of these examples
-- as they are.
use shop_mall.Common.Base.{◌+◌, ◌≤◌, ◌≡◌, refl, arith, List, [], ◌∷◌, map, true, if◌then◌else◌}
use shop_mall.Common.Int.{pos}
use shop_mall.Common.Base.{ℕ, some}
use shop_mall.Common.Text.{Text, trim_space, is_blank}
use shop_mall.Limits.Windows.{lookup}
use shop_mall.Limits.Login.{
  LoginRateLimiter, new_client_limiter, new_rate_limiter, allow_login, reset_login, account_key,
}
use shop_mall.Limits.Budget.{
  Attempt, Within, left_over, admitted_account, admitted_ip, allow_login-account_budget,
  allow_login-ip_budget,
}
use shop_mall.Limits.Agreement.{
  client_answers, route_answers, allow_client-allow_route, reset_login-allow_login,
}

abbrev as_is : Text → Text
as_is s = s

-- Two attempts per account and three per address in a window of 60; one account has made two.
abbrev limiter : LoginRateLimiter
limiter = record {
  account_limit = 2;
  account_window = 60;
  ip_limit = 3;
  ip_window = 60;
  account_buckets = (97 ∷ [], record { started = 100; count = 2 }) ∷ [];
  ip_buckets = [];
}

abbrev try_at : ℕ → ℕ → Attempt
try_at name now = record { username = name ∷ []; ip = 49 ∷ []; now = now }

abbrev attempts : List Attempt
attempts = try_at 97 150 ∷ try_at 97 165 ∷ try_at 98 166 ∷ try_at 97 170 ∷ try_at 97 171 ∷ []

attempts-Within : Within 150 60 attempts
attempts-Within = ground arith

allow_login-account_budget_example :
    admitted_account as_is limiter (97 ∷ []) attempts
    ≤ 2 + left_over 2 (lookup (97 ∷ []) limiter.account_buckets)
allow_login-account_budget_example =
    allow_login-account_budget as_is limiter (97 ∷ []) 150 attempts (ground arith) attempts-Within

allow_login-ip_budget_example : admitted_ip as_is limiter (49 ∷ []) attempts ≤ 3 + 0
allow_login-ip_budget_example =
    allow_login-ip_budget as_is limiter (49 ∷ []) 150 attempts refl (ground arith) attempts-Within

abbrev requests : List (Text × ℕ)
requests = (49 ∷ [], 10) ∷ (32 ∷ 49 ∷ [], 11) ∷ (49 ∷ [], 12) ∷ (49 ∷ [], 90) ∷ []

allow_client-allow_route_example :
    client_answers (new_client_limiter (pos 2) (pos 60)) requests
    ≡ route_answers (new_rate_limiter (pos 2) (pos 60)) (map (λ q. (trim_space q.0, q.1)) requests)
allow_client-allow_route_example =
    allow_client-allow_route (pos 2) (pos 60) requests
      (ground arith, (ground arith, (ground arith, (ground arith, tt))))

reset_login-allow_login_example :
    let out =
      allow_login as_is (reset_login as_is limiter (97 ∷ []) (49 ∷ [])) (97 ∷ []) (49 ∷ []) 101 in
    (out.0 ≡ true)
    × (lookup (account_key as_is (97 ∷ [])) out.1.account_buckets
        ≡ some (record { started = 101; count = 1 }))
    × (lookup (trim_space (49 ∷ [])) out.1.ip_buckets ≡ (
        if is_blank (trim_space (49 ∷ []))
        then lookup (trim_space (49 ∷ [])) limiter.ip_buckets
        else some (record { started = 101; count = 1 })))
reset_login-allow_login_example = reset_login-allow_login as_is limiter (97 ∷ []) (49 ∷ []) 101
