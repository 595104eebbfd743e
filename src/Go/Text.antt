-- ===== src/Go/Text.antt =====
-- Go strings as their bytes, and what the program uses of `strings`, `sort` and `strconv`. A
-- quoted text gives the bytes of an ASCII literal.
pub mod Split
pub mod Sort
use Prim.Native.Char.{code}
use Prim.Native.String
use Prim.Native.String.{String}
use epochfill.Common.{
  ℕ, zero, suc, ◌+◌, ◌-◌, ◌*◌, ◌/◌, ◌%◌, Bool, true, false, List, [], ◌∷◌, ◌++◌, nat_eq, ltb, leb,
  ◌&&◌, ◌||◌, if◌then◌else◌,
}
use mathlib.Core.List.{reverse}

abbrev pub GoString : Type 0
GoString = List ℕ

abbrev pub bytes_of : String → GoString
bytes_of String.[] = []
bytes_of (String.◌∷◌ c s) = code c ∷ bytes_of s

-- `strings.HasPrefix` and `strings.HasSuffix`.
unfoldable pub has_prefix : GoString → GoString → Bool
has_prefix s [] = true
has_prefix [] (d ∷ p) = false
has_prefix (c ∷ s) (d ∷ p) = nat_eq c d && has_prefix s p

unfoldable pub has_suffix : GoString → GoString → Bool
unfolding has_prefix
has_suffix s suffix = has_prefix (reverse s) (reverse suffix)

-- `strings.Split(s, sep)` for a separator of one byte: there is always a first part.
abbrev pub onto_first : ℕ → List GoString → List GoString
onto_first c [] = (c ∷ []) ∷ []
onto_first c (part ∷ parts) = (c ∷ part) ∷ parts

unfoldable pub split : ℕ → GoString → List GoString
split sep [] = [] ∷ []
split sep (c ∷ s) = if nat_eq c sep then [] ∷ split sep s else onto_first c (split sep s)

-- `strings.Join(parts, sep)`.
unfoldable pub join : GoString → List GoString → GoString
join sep [] = []
join sep (part ∷ []) = part
join sep (part ∷ next ∷ parts) = part ++ (sep ++ join sep (next ∷ parts))

-- The space bytes of ASCII: \t \n \v \f \r and the blank.
abbrev pub is_space : ℕ → Bool
is_space c = nat_eq c 32 || (leb 9 c && leb c 13)

unfoldable pub trim_left : GoString → GoString
trim_left [] = []
trim_left (c ∷ s) = let rest = trim_left s in if is_space c then rest else c ∷ s

-- `strings.TrimSpace` on ASCII text.
unfoldable pub trim_space : GoString → GoString
unfolding trim_left
trim_space s = reverse (trim_left (reverse (trim_left s)))

-- `s < t`, byte by byte.
abbrev pub text_ltb : GoString → GoString → Bool
text_ltb [] [] = false
text_ltb [] (_ ∷ _) = true
text_ltb (_ ∷ _) [] = false
text_ltb (c ∷ s) (d ∷ t) = ltb c d || (nat_eq c d && text_ltb s t)

-- `sort.Strings`.
abbrev pub insert_sorted : GoString → List GoString → List GoString
insert_sorted s [] = s ∷ []
insert_sorted s (t ∷ r) = if text_ltb t s then t ∷ insert_sorted s r else s ∷ (t ∷ r)

unfoldable pub sort_strings : List GoString → List GoString
sort_strings [] = []
sort_strings (s ∷ r) = insert_sorted s (sort_strings r)
