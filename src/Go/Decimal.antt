-- ===== src/Go/Decimal.antt =====
-- `strconv.ParseInt(s, 10, 64)`, with the value that it returns beside an error, as a pattern; and
-- how `fmt` prints a `uint64`.
use epochfill.Common.{
  ℕ, zero, suc, ◌+◌, ◌-◌, ◌*◌, ◌/◌, ◌%◌, ◌++◌, Bool, true, false, arith, Option, none, some, [],
  ◌∷◌, nat_eq, ltb, leb, ◌&&◌, not, Bool-cases, inl, inr, ◌<◌, ◌^◌, ◌≡◌, ◌∙◌, refl, ap, sym,
  if◌then◌else◌,
}
use epochfill.Go.Text.{GoString}
use epochfill.Go.Word.{u64_mod, i64_half, sub64, IsU64}

abbrev max_u64 : ℕ
max_u64 = u64_mod - 1

abbrev cutoff : ℕ
cutoff = max_u64 / 10 + 1

abbrev is_digit : ℕ → Bool
is_digit c = leb b'0' c && leb c b'9'

-- The loop of `ParseUint`: `none` is a syntax error. A value out of range ends it at once.
unfoldable pub parse_digits : ℕ → GoString → Option ℕ
parse_digits n [] = some n
parse_digits n (c ∷ s) =
    let rest = parse_digits (n * 10 + (c - b'0')) s in
    if not (is_digit c)
    then none
    else if leb cutoff n
    then some max_u64
    else if ltb max_u64 (n * 10 + (c - b'0'))
    then some max_u64
    else rest

unfoldable pub parse_uint : GoString → Option ℕ
unfolding parse_digits
parse_uint [] = none
parse_uint (c ∷ s) = parse_digits 0 (c ∷ s)

-- The sign has been read. A syntax error returns 0; a value out of range, the nearest `int64`.
abbrev signed : Bool → Option ℕ → ℕ
signed negative none = 0
signed negative (some n) =
    if negative
    then (if ltb i64_half n then i64_half else sub64 0 n)
    else (if leb i64_half n then i64_half - 1 else n)

unfoldable pub parse_int : GoString → ℕ
parse_int [] = 0
parse_int (c ∷ s) =
    if nat_eq c b'-'
    then signed true (parse_uint s)
    else if nat_eq c b'+'
    then signed false (parse_uint s)
    else signed false (parse_uint (c ∷ s))

-- `strconv.Atoi`, as a pattern: `none` is an error, of the syntax or of the range.
abbrev in_range : Bool → Option ℕ → Option ℕ
in_range negative none = none
in_range negative (some n) =
    if negative
    then (if ltb i64_half n then none else some (sub64 0 n))
    else (if leb i64_half n then none else some n)

unfoldable pub atoi : GoString → Option ℕ
atoi [] = none
atoi (c ∷ s) =
    if nat_eq c b'-'
    then in_range true (parse_uint s)
    else if nat_eq c b'+'
    then in_range false (parse_uint s)
    else in_range false (parse_uint (c ∷ s))

signed-IsU64 : (negative : Bool) (o : Option ℕ) → IsU64 (signed negative o)
unfolding sub64
signed-IsU64 negative none = omega arith
signed-IsU64 negative (some n) = ground arith

pub parse_int-IsU64 : (s : GoString) → IsU64 (parse_int s)
unfolding parse_int
parse_int-IsU64 [] = omega arith
parse_int-IsU64 (c ∷ s) = ground (
  arith,
  signed-IsU64 true (parse_uint s),
  signed-IsU64 false (parse_uint s),
  signed-IsU64 false (parse_uint (c ∷ s)),
)

-- A value that is there is below 2 ^ 64.
abbrev pub FitsU64 : Option ℕ → Type 0
FitsU64 none = Unit
FitsU64 (some n) = IsU64 n

in_range-FitsU64 : (negative : Bool) (o : Option ℕ) → FitsU64 (in_range negative o)
unfolding sub64
in_range-FitsU64 negative none = tt
in_range-FitsU64 true (some n) = elim (Bool-cases (ltb i64_half n)) [
  | inl large ↦ rw large tt
  | inr small ↦ rw small (omega arith)
]
in_range-FitsU64 false (some n) = elim (Bool-cases (leb i64_half n)) [
  | inl large ↦ rw large tt
  | inr small ↦ rw small (ground (arith, small))
]

pub atoi-FitsU64 : (s : GoString) → FitsU64 (atoi s)
unfolding atoi
atoi-FitsU64 [] = tt
atoi-FitsU64 (c ∷ s) = elim (Bool-cases (nat_eq c b'-')) [
  | inl minus ↦ rw minus (in_range-FitsU64 true (parse_uint s))
  | inr other ↦ elim (Bool-cases (nat_eq c b'+')) [
    | inl plus ↦ rw (other, plus) (in_range-FitsU64 false (parse_uint s))
    | inr digit ↦ rw (other, digit) (in_range-FitsU64 false (parse_uint (c ∷ s)))
  ]
]

-- `%d` of a `uint64`: one round for each of the 20 digits that there may be.
unfoldable pub format_digits : ℕ → ℕ → GoString
format_digits zero n = []
format_digits (suc fuel) n =
    let rest = format_digits fuel (n / 10) in
    if ltb n 10 then (b'0' + n) ∷ [] else rest ++ ((b'0' + n % 10) ∷ [])

unfoldable pub format_uint : ℕ → GoString
unfolding format_digits
format_uint n = format_digits 20 n

-- The number that digits stand for, most significant first.
digits_value : ℕ → GoString → ℕ
digits_value n [] = n
digits_value n (c ∷ s) = digits_value (n * 10 + (c - b'0')) s

digits_value-append :
    (n : ℕ) (s t : GoString) → digits_value n (s ++ t) ≡ digits_value (digits_value n s) t
unfolding digits_value
digits_value-append n [] t = refl
digits_value-append n (c ∷ s) t = digits_value-append (n * 10 + (c - b'0')) s t

digits_value-format_digits :
    (fuel n : ℕ) → n < 10 ^ fuel → digits_value 0 (format_digits fuel n) ≡ n
unfolding digits_value format_digits
digits_value-format_digits zero n h = omega arith
digits_value-format_digits (suc fuel) n h = elim (Bool-cases (ltb n 10)) [
  | inl last ↦ rw last (omega arith)
  | inr more ↦
      rw
        (
          more,
          digits_value-append 0 (format_digits fuel (n / 10)) ((b'0' + n % 10) ∷ []),
          digits_value-format_digits fuel (n / 10) (omega arith),
        )
        (omega arith)
]

-- Two numbers that are printed alike are the same.
pub format_uint-inj : (m n : ℕ) → IsU64 m → IsU64 n → format_uint m ≡ format_uint n → m ≡ n
unfolding format_uint
format_uint-inj m n hm hn e =
    sym (digits_value-format_digits 20 m (omega arith))
    ∙ (ap (digits_value 0) e ∙ digits_value-format_digits 20 n (omega arith))
