-- ===== src/Car/Fuel.antt =====
-- The walk ends on every region, and what a length that is no `int` does to it.
use epochfill.Common.{
  ℕ, zero, suc, ◌+◌, ◌≤◌, ◌<◌, ◌≡◌, ◌≢◌, ◌∙◌, refl, Option, none, some, List, length, drop, arith,
}
use native.Mathlib.Decide.{dec_lt}
use epochfill.Go.Word.{IsU64, i64_half, add64, lt_i64}
use epochfill.Go.Varint.{uvarint, uvarint_count}
use epochfill.Car.{
  Section, slice, Visit, next, stop, Outcome, stuck, panicked, walk, walk_step, walk_end,
  walk_sections, with_length, with_cid, visit_section,
}

module _ {Cid E S : Type 0} (cid_from_bytes : List ℕ → Option (ℕ × Cid))
    (visit : S → Section Cid → Visit E S) where
  visit_section-ne-stuck :
      (continue : ℕ → S → Outcome E S) (end : ℕ) (v : Visit E S)
      → ((s : S) → continue end s ≢ stuck)
      → visit_section cid_from_bytes visit continue end v ≢ stuck
  visit_section-ne-stuck continue end (next s) h = h s
  visit_section-ne-stuck continue end (stop e) h = λ p. cc

  with_cid-ne-stuck :
      (continue : ℕ → S → Outcome E S) (buf : List ℕ) (start end : ℕ) (s : S)
      (found : Option (ℕ × Cid))
      → ((s : S) → continue end s ≢ stuck)
      → with_cid cid_from_bytes visit continue buf start end s found ≢ stuck
  with_cid-ne-stuck continue buf start end s none h = λ p. cc
  with_cid-ne-stuck continue buf start end s (some (cid_len, c)) h = ground (
    arith,
    visit_section-ne-stuck continue end
        (visit s (record { cid = c; bytes = slice buf (start + cid_len) end })) h,
  )

  -- A round is stuck only if the rest of the walk is, from a later position in the region.
  with_length-ne-stuck :
      (continue : ℕ → S → Outcome E S) (buf : List ℕ) (pos : ℕ) (s : S) (read : Option (ℕ × ℕ))
      → ((sec_len n : ℕ) → read ≡ some (sec_len, n) → 0 < n)
      → ((end : ℕ) (s : S) → pos < end → end ≤ length buf → continue end s ≢ stuck)
      → with_length cid_from_bytes visit continue buf pos s read ≢ stuck
  with_length-ne-stuck continue buf pos s none h onward = λ p. cc
  with_length-ne-stuck continue buf pos s (some (sec_len, n)) h onward = ground (
    arith,
    h sec_len n refl,
    λ (fits : pos + n ≤ add64 (pos + n) sec_len × (add64 (pos + n) sec_len ≤ length buf)).
        with_cid-ne-stuck continue buf (pos + n) (add64 (pos + n) sec_len) s
          (cid_from_bytes (slice buf (pos + n) (add64 (pos + n) sec_len)))
          (λ s'. onward (add64 (pos + n) sec_len) s' (omega (arith, h sec_len n refl)) fits.1),
  )

  walk-ne-stuck :
      (fuel : ℕ) (buf : List ℕ) (pos : ℕ) (s : S)
      → length buf < fuel + pos
      → pos ≤ length buf
      → walk cid_from_bytes visit fuel buf pos s ≢ stuck
  walk-ne-stuck zero buf pos s enough inside = absurd (omega arith)
  walk-ne-stuck (suc fuel) buf pos s enough inside = elim (dec_lt pos (length buf)) [
    | yes more ↦ rw (walk_step cid_from_bytes visit fuel buf pos s more) (
        with_length-ne-stuck (walk cid_from_bytes visit fuel buf) buf pos s (uvarint (drop pos buf))
          (λ l n e. (uvarint_count (drop pos buf) e).0)
          (λ end s' further fits. walk-ne-stuck fuel buf end s' (omega arith) fits))
    | no over ↦ rw (walk_end cid_from_bytes visit fuel buf pos s (omega arith)) (λ p. cc)
  ]

  -- For every CID decoder and callback, the walk ends on every region: the fuel that it is given,
  -- one round more than the region has bytes, never runs out.
  pub walk_sections-ne-stuck :
      (buf : List ℕ) (s : S) → walk_sections cid_from_bytes visit buf s ≢ stuck
  unfolding walk_sections
  walk_sections-ne-stuck buf s =
      walk-ne-stuck (suc (length buf)) buf 0 s (omega arith) (omega arith)

  -- In a region below 2 ^ 63 bytes that starts with a section length of 2 ^ 63 or more, the walk
  -- panics: the length is negative as an `int`, so the test for a section that runs past the
  -- region does not catch it, and the slice expression is out of range.
  pub walk_sections-huge_length :
      (buf : List ℕ) (s : S) (sec_len n : ℕ)
      → length buf < i64_half
      → uvarint buf ≡ some (sec_len, n)
      → i64_half ≤ sec_len
      → IsU64 sec_len
      → walk_sections cid_from_bytes visit buf s ≡ panicked
  unfolding walk_sections add64 lt_i64
  walk_sections-huge_length buf s sec_len n small read huge wide =
      walk_step cid_from_bytes visit (length buf) buf 0 s (omega (arith, uvarint_count buf read))
      ∙ rw read (ground (arith, uvarint_count buf read))
