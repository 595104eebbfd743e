-- ===== src/Go/Word.antt =====
-- Go's `uint64` and `int64`, both as bit patterns below 2 ^ 64, with the wrap-around written out.
use epochfill.Common.{
  ℕ, ◌+◌, ◌-◌, ◌*◌, ◌/◌, ◌%◌, ◌^◌, ◌<◌, ◌≡◌, Bool, true, false, ltb, if◌then◌else◌, arith,
}

abbrev pub u64_mod : ℕ
u64_mod = 2 ^ 64

abbrev pub i64_half : ℕ
i64_half = 2 ^ 63

abbrev pub IsU64 : ℕ → Type 0
IsU64 n = n < u64_mod

-- `a + b` and `a - b`; the pattern is the same for the signed and the unsigned type.
unfoldable pub add64 : ℕ → ℕ → ℕ
add64 a b = (a + b) % u64_mod

unfoldable pub sub64 : ℕ → ℕ → ℕ
sub64 a b = (a + u64_mod - b) % u64_mod

unfoldable pub mul64 : ℕ → ℕ → ℕ
mul64 a b = (a * b) % u64_mod

-- The absolute value of an `int64`, as a number, and a number with a sign as a pattern.
abbrev pub size_i64 : ℕ → ℕ
size_i64 a = if ltb a i64_half then a else u64_mod - a

abbrev pub with_sign : Bool → ℕ → ℕ
with_sign negative n = if negative then (u64_mod - n) % u64_mod else n % u64_mod

-- `a / b` between two `int64`, for a `b` that is not 0: it rounds towards 0.
unfoldable pub div_i64 : ℕ → ℕ → ℕ
div_i64 a b =
    if ltb a i64_half
    then with_sign (if ltb b i64_half then false else true) (a / size_i64 b)
    else with_sign (ltb b i64_half) (size_i64 a / size_i64 b)

-- `a < b` between two `int64` patterns: the order of the patterns with the sign bit flipped.
unfoldable pub lt_i64 : ℕ → ℕ → Bool
lt_i64 a b = ltb ((a + i64_half) % u64_mod) ((b + i64_half) % u64_mod)

pub lt_i64-small : (a b : ℕ) → a < i64_half → b < i64_half → lt_i64 a b ≡ ltb a b
unfolding lt_i64
lt_i64-small a b ha hb = ground arith

pub add64_exact : (a b : ℕ) → a + b < u64_mod → add64 a b ≡ a + b
unfolding add64
add64_exact a b h = omega arith
