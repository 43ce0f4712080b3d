-- ===== src/Common/Int64.antt =====
-- Go's int64: an integer of 64 bits in two's complement, whose arithmetic wraps.
use shop_mall.Common.Base.{ℕ, ◌+◌, ◌*◌, ap, ◌∙◌, ◌-◌, ◌%◌, ◌≤◌, ◌≡◌, arith, ltb, if◌then◌else◌}
use shop_mall.Common.Int.{ℤ, pos, negsuc, ◌+ℤ◌, ◌-ℤ◌, ◌*ℤ◌}

-- math.MaxInt64
abbrev pub max_int64 : ℕ
max_int64 = 9223372036854775807

-- math.MaxInt32
abbrev pub max_int32 : ℕ
max_int32 = 2147483647

-- 2^64
abbrev pub modulus : ℕ
modulus = 18446744073709551616

-- The integer that a pattern of 64 bits stands for.
abbrev pub of_bits : ℕ → ℤ
of_bits m = if ltb max_int64 m then negsuc (modulus - 1 - m) else pos m

-- The int64 that an exact result wraps to.
abbrev pub wrap : ℤ → ℤ
wrap (pos n) = of_bits (n % modulus)
wrap (negsuc n) = of_bits (modulus - 1 - n % modulus)

unfoldable pub add64 : ℤ → ℤ → ℤ
add64 a b = wrap (a +ℤ b)

unfoldable pub sub64 : ℤ → ℤ → ℤ
sub64 a b = wrap (a -ℤ b)

unfoldable pub mul64 : ℤ → ℤ → ℤ
mul64 a b = wrap (a *ℤ b)

unfoldable pub neg64 : ℤ → ℤ
neg64 a = wrap (pos 0 -ℤ a)

-- The integers that fit in an int64.
abbrev pub IsInt64 : ℤ → Type 0
IsInt64 (pos n) = n ≤ max_int64
IsInt64 (negsuc n) = n ≤ max_int64

pub wrap_exact : (a : ℤ) → IsInt64 a → wrap a ≡ a
wrap_exact (pos n) h = ground arith
wrap_exact (negsuc n) h = ground arith

pub wrap-IsInt64 : (a : ℤ) → IsInt64 (wrap a)
wrap-IsInt64 (pos n) = ground arith
wrap-IsInt64 (negsuc n) = ground arith

-- The operations on natural numbers: a product wraps, and what fits is exact.
pub mul64_wraps : (p q : ℕ) → mul64 (pos p) (pos q) ≡ wrap (pos (p * q))
unfolding mul64 ◌*ℤ◌
mul64_wraps p q = let e : pos p *ℤ pos q ≡ pos (p * q) = ground arith in ap wrap e

pub mul64_exact : (p q : ℕ) → p * q ≤ max_int64 → mul64 (pos p) (pos q) ≡ pos (p * q)
mul64_exact p q h = mul64_wraps p q ∙ wrap_exact (pos (p * q)) h

pub add64_exact : (a b : ℕ) → a + b ≤ max_int64 → add64 (pos a) (pos b) ≡ pos (a + b)
unfolding add64 ◌+ℤ◌
add64_exact a b h = ground arith

pub sub64_exact : (a b : ℕ) → b ≤ a → a ≤ max_int64 → sub64 (pos a) (pos b) ≡ pos (a - b)
unfolding sub64 ◌-ℤ◌
sub64_exact a b h k = ground arith

pub neg64_exact : (n : ℕ) → n ≤ max_int64 → pos n +ℤ neg64 (pos n) ≡ pos 0
unfolding neg64 ◌-ℤ◌ ◌+ℤ◌
neg64_exact n h = ground arith
