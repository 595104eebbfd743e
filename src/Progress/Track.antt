-- ===== src/Progress/Track.antt =====
-- The percentage and the track of the bar of backfill/progress.go stay in their ranges.
use native.Mathlib.Nat.{div-mul-le_self, div-le_self, le-div_iff_mul-le}
use epochfill.Common.{
  ℕ, zero, suc, ◌+◌, ◌-◌, ◌*◌, ◌/◌, ◌%◌, ◌<◌, ◌≤◌, ◌≡◌, ◌∙◌, refl, inl, inr, false, Bool-cases,
  some, List, ◌++◌, length, replicate, ltb, if◌then◌else◌, arith,
}
use epochfill.Go.Word.{i64_half, u64_mod, lt_i64, lt_i64-small, mul64, div_i64, sub64}
use epochfill.Progress.{percent, track, bar_width}

-- Counts of bytes that 100 times over are still an `int64`.
abbrev pub Small : ℕ → Type 0
Small done = 100 * done < i64_half

div_small : (a b : ℕ) → a < i64_half → b < i64_half → div_i64 a b ≡ (a / b) % u64_mod
unfolding div_i64
div_small a b ha hb = ground arith

-- The percentage without the words.
abbrev pub share : ℕ → ℕ → ℕ
share total done = if ltb 100 (100 * done / total) then 100 else 100 * done / total

abbrev pub nat_percent : ℕ → ℕ → ℕ
nat_percent total done = if ltb 0 total then share total done else 0

hundred_small : 100 < i64_half
hundred_small = omega arith

pub percent-nat_percent :
    (total done : ℕ) → total < i64_half → Small done → percent total done ≡ nat_percent total done
unfolding percent mul64
percent-nat_percent total done ht hd =
    let whole : (100 * done) % u64_mod ≡ 100 * done = omega arith in
    let under : 100 * done / total < i64_half =
      (let h = div-le_self (100 * done) total in omega arith) in
    let exact : 100 * done / total % u64_mod ≡ 100 * done / total = omega arith in
    rw (
      whole,
      div_small (100 * done) total hd ht,
      exact,
      lt_i64-small 0 total (omega arith) ht,
      lt_i64-small 100 (100 * done / total) hundred_small under,
    )

pub nat_percent_le : (total done : ℕ) → nat_percent total done ≤ 100
nat_percent_le total done = ground arith

share_mono : (total a b : ℕ) → 0 < total → a ≤ b → share total a ≤ share total b
share_mono total a b pos h =
    let below : 100 * a / total ≤ 100 * b / total =
      (le-div_iff_mul-le pos).1 (let k = div-mul-le_self (100 * a) total in omega arith) in
    ground arith

pub nat_percent_mono : (total a b : ℕ) → a ≤ b → nat_percent total a ≤ nat_percent total b
nat_percent_mono total a b h = elim (Bool-cases (ltb 0 total)) [
  | inl pos ↦ rw pos (share_mono total a b (ground (arith, pos)) h)
  | inr zero_total ↦ rw zero_total (omega arith)
]

length-replicate_append : (m n c d : ℕ) → length (replicate m c ++ replicate n d) ≡ m + n
length-replicate_append zero zero c d = refl
length-replicate_append zero (suc n) c d = ground (arith, length-replicate_append zero n c d)
length-replicate_append (suc m) n c d = ground (arith, length-replicate_append m n c d)

not_negative : (n : ℕ) → n < i64_half → lt_i64 n 0 ≡ false
unfolding lt_i64
not_negative n h = ground arith

-- The track of a percentage has 32 cells, and drawing it does not panic.
pub track_cells :
    (pct : ℕ) → pct ≤ 100 → (cells : List ℕ) × (track pct ≡ some cells) × (length cells ≡ bar_width)
unfolding track mul64 sub64
track_cells pct h =
    let whole : (bar_width * pct) % u64_mod ≡ 32 * pct = omega arith in
    let filled : div_i64 (32 * pct) 100 ≡ 32 * pct / 100 =
      div_small (32 * pct) 100 (omega arith) hundred_small ∙ (omega arith) in
    let empty : (bar_width + u64_mod - 32 * pct / 100) % u64_mod ≡ 32 - 32 * pct / 100 =
      omega arith in
    (
      replicate (32 * pct / 100) 9608 ++ replicate (32 - 32 * pct / 100) 9617,
      rw (
        whole,
        filled,
        empty,
        not_negative (32 * pct / 100) (omega arith),
        not_negative (32 - 32 * pct / 100) (omega arith),
      ),
      length-replicate_append (32 * pct / 100) (32 - 32 * pct / 100) 9608 9617 ∙ (omega arith),
    )
