-- ===== src/Progress/Units.antt =====
-- `humanBytes` of backfill/index.go: the unit that a count of bytes is printed in.
use epochfill.Common.{
  ℕ, zero, suc, ◌/◌, ◌^◌, ◌<◌, ◌≡◌, refl, inl, inr, Bool-cases, Option, some, ◌>>=◌, get_elem?,
  get_or, ltb, leb, ◌&&◌, if◌then◌else◌, arith,
}
use epochfill.Go.Text.{bytes_of}
use epochfill.Go.Word.{lt_i64, lt_i64-small, i64_half, mul64}

-- The number is `count / div` with one digit behind the point.
pub data Rendered : Type 0 where
  plain : ℕ → Rendered
  scaled : ℕ → ℕ → ℕ → Rendered

-- The loop, from `n / unit` on, which is not negative; it ends by its own test before the rounds do.
unfoldable pub unit_loop : ℕ → ℕ → ℕ → ℕ → ℕ × ℕ
unit_loop zero div exp v = (div, exp)
unit_loop (suc rounds) div exp v =
    let rest = unit_loop rounds (mul64 div 1024) (suc exp) (v / 1024) in
    if leb 1024 v && ltb exp 3 then rest else (div, exp)

-- `none` is the panic of an index out of range.
abbrev pub with_unit : ℕ → ℕ × ℕ → Option Rendered
with_unit n (div, exp) = do letter ← get_elem? (bytes_of "KMGT") exp; some (scaled n div letter)

unfoldable pub human_bytes : ℕ → Option Rendered
human_bytes n =
    if lt_i64 n 1024 then some (plain n) else with_unit n (unit_loop 4 1024 0 (n / 1024))

-- The unit for a count, and the number of its letter.
abbrev unit_of : ℕ → ℕ × ℕ
unit_of n =
    if ltb n (1024 ^ 2)
    then (1024, 0)
    else if ltb n (1024 ^ 3)
    then (1024 ^ 2, 1)
    else if ltb n (1024 ^ 4)
    then (1024 ^ 3, 2)
    else (1024 ^ 4, 3)

unit_loop-unit_of : (n : ℕ) → unit_loop 4 1024 0 (n / 1024) ≡ unit_of n
unfolding unit_loop mul64
unit_loop-unit_of n = ground arith

with_unit-unit_of :
    (n : ℕ)
    → with_unit n (unit_of n)
      ≡ some (scaled n (unit_of n).0 (get_or (bytes_of "KMGT") (unit_of n).1 0))
with_unit-unit_of n = elim (Bool-cases (ltb n (1024 ^ 2))) [
  | inl k ↦ rw k refl
  | inr above ↦ elim (Bool-cases (ltb n (1024 ^ 3))) [
    | inl m ↦ rw (above, m) refl
    | inr more ↦ elim (Bool-cases (ltb n (1024 ^ 4))) [
      | inl g ↦ rw (above, more, g) refl
      | inr t ↦ rw (above, more, t) refl
    ]
  ]
]

-- For a count that is not negative: no index is out of range, and the unit is the largest power of
-- 1024, up to the fourth, that the count reaches; below 1024 the count itself is printed.
pub human_bytes_lem :
    (n : ℕ)
    → n < i64_half
    → human_bytes n
      ≡ some (
          if ltb n 1024
          then plain n
          else scaled n (unit_of n).0 (get_or (bytes_of "KMGT") (unit_of n).1 0))
unfolding human_bytes
human_bytes_lem n h = elim (Bool-cases (ltb n 1024)) [
  | inl few ↦ rw (lt_i64-small n 1024 h (omega arith), few) refl
  | inr many ↦
      rw (lt_i64-small n 1024 h (omega arith), many, unit_loop-unit_of n) (with_unit-unit_of n)
]
