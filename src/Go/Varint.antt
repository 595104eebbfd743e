-- ===== src/Go/Varint.antt =====
-- `binary.Uvarint` and `binary.PutUvarint` of encoding/binary. Shifts and masks are written as
-- products and remainders: `place` is `1 << s`.
use epochfill.Common.{
  ℕ, zero, suc, ◌+◌, ◌*◌, ◌/◌, ◌%◌, ◌^◌, ◌≤◌, ◌<◌, ◌≡◌, refl, inl, inr, Bool-cases, length-append,
  Option, none, some, List, [], ◌∷◌, ◌++◌, length, ltb, nat_eq, ◌&&◌, if◌then◌else◌, arith, ap,
}
use native.Mathlib.Nat.{div-add-mod}
use epochfill.Go.Word.{IsU64}

-- `none` is a returned count `n <= 0`: the buffer is too short, or the value overflows.
uvarint_loop : List ℕ → ℕ → ℕ → ℕ → Option (ℕ × ℕ)
uvarint_loop [] i x place = none
uvarint_loop (b ∷ buf) i x place =
    let more = uvarint_loop buf (i + 1) (x + b % 128 * place) (place * 128) in
    if nat_eq i 10
    then none
    else if ltb b 128
    then (if nat_eq i 9 && ltb 1 b then none else some (x + b * place, i + 1))
    else more

-- The value and the number of bytes read.
unfoldable pub uvarint : List ℕ → Option (ℕ × ℕ)
unfolding uvarint_loop
uvarint buf = uvarint_loop buf 0 0 1

-- At most `k + 1` bytes.
put_groups : ℕ → ℕ → List ℕ
put_groups zero v = v ∷ []
put_groups (suc k) v =
    let rest = put_groups k (v / 128) in if ltb v 128 then v ∷ [] else (v % 128 + 128) ∷ rest

-- A `uint64` takes ten bytes at most.
unfoldable pub put_uvarint : ℕ → List ℕ
unfolding put_groups
put_uvarint v = put_groups 9 v

group_value : (v place x : ℕ) → x + v % 128 * place + v / 128 * (place * 128) ≡ x + v * place
group_value v place x = omega (arith, ap (λ (t : ℕ). t * place) (div-add-mod v 128))

uvarint_loop-put_groups :
    (k v i x place : ℕ) (rest : List ℕ)
    → i + k ≡ 9
    → v < 2 * 128 ^ k
    → uvarint_loop (put_groups k v ++ rest) i x place
      ≡ some (x + v * place, i + length (put_groups k v))
unfolding uvarint_loop put_groups
uvarint_loop-put_groups zero v i x place rest hi hv = ground arith
uvarint_loop-put_groups (suc k) v i x place rest hi hv = ground (
  arith,
  group_value v place x,
  uvarint_loop-put_groups k (v / 128) (i + 1) (x + v % 128 * place) (place * 128) rest,
)

-- Reading back what was written gives the value and the count, whatever follows.
pub uvarint-put_uvarint :
    (v : ℕ) (rest : List ℕ)
    → IsU64 v
    → uvarint (put_uvarint v ++ rest) ≡ some (v, length (put_uvarint v))
unfolding uvarint put_uvarint
uvarint-put_uvarint v rest h = ground (arith, uvarint_loop-put_groups 9 v 0 0 1 rest)

-- A count that is returned is between 1 and the length of the buffer.
uvarint_loop_count :
    (buf : List ℕ) (i x place : ℕ) {v n : ℕ}
    → uvarint_loop buf i x place ≡ some (v, n)
    → (i < n) × (n ≤ i + length buf)
unfolding uvarint_loop
uvarint_loop_count [] i x place h = cc
uvarint_loop_count (b ∷ buf) i x place {v} {n} h =
    ground
      (arith, uvarint_loop_count buf (i + 1) (x + b % 128 * place) (place * 128) {v = v} {n = n})

pub uvarint_count :
    (buf : List ℕ) {v n : ℕ} → uvarint buf ≡ some (v, n) → (0 < n) × (n ≤ length buf)
unfolding uvarint
uvarint_count buf h = omega (arith, uvarint_loop_count buf 0 0 1 h)

one_byte : (v b : ℕ) (l m : List ℕ) → v ∷ [] ≡ b ∷ (l ++ m) → 0 < length m → ⊥
one_byte v b l m e some_left =
    let lengths : 1 ≡ suc (length (l ++ m)) = ap length e in omega (arith, length-append l m)

uvarint_loop-cut :
    (k v i x place : ℕ) (l m : List ℕ)
    → put_groups k v ≡ l ++ m
    → 0 < length m
    → uvarint_loop l i x place ≡ none
unfolding uvarint_loop put_groups
uvarint_loop-cut k v i x place [] m e some_left = refl
uvarint_loop-cut zero v i x place (b ∷ l) m e some_left = absurd (one_byte v b l m e some_left)
uvarint_loop-cut (suc k) v i x place (b ∷ l) m e some_left = elim (Bool-cases (ltb v 128)) [
  | inl low ↦ absurd (one_byte v b l m (rw low at e) some_left)
  | inr high ↦
      let first : v % 128 + 128 ≡ b = (let h = rw high at e in cc) in
      let others : put_groups k (v / 128) ≡ l ++ m = (let h = rw high at e in cc) in
      let ih =
        uvarint_loop-cut k (v / 128) (i + 1) (x + b % 128 * place) (place * 128) l m others
          some_left in
      ground (arith, ih, first)
]

-- What was written, cut off before its last byte, is too short to be read.
pub uvarint-cut : (v : ℕ) (l m : List ℕ) → put_uvarint v ≡ l ++ m → 0 < length m → uvarint l ≡ none
unfolding uvarint put_uvarint
uvarint-cut v l m e some_left = uvarint_loop-cut 9 v 0 0 1 l m e some_left
