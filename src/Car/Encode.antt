-- ===== src/Car/Encode.antt =====
-- Walking what a CAR writer wrote: `encodeSection` of backfill/backfill_test.go, section by section.
use epochfill.Common.{
  ℕ, zero, suc, ◌+◌, ◌-◌, ◌≤◌, ◌<◌, ◌≡◌, refl, sym, ◌∙◌, Option, some, List, [], ◌∷◌, ◌++◌, length,
  ltb, drop, length-append, take_all-append, drop_all-append, arith,
}
use mathlib.Core.List.{append_assoc, append-nil}
use epochfill.Go.Word.{add64, add64_exact, i64_half, lt_i64, lt_i64-small}
use epochfill.Go.Varint.{uvarint, put_uvarint, uvarint-put_uvarint}
use epochfill.Car.{
  Section, Visit, next, stop, Outcome, done, failed, visit_failed, slice, walk, walk_step, walk_end,
  walk_sections, with_length, visit_section, walk_step, walk_end,
}

module _ {Cid : Type 0} (cid_bytes : Cid → List ℕ) where
  abbrev pub body : Section Cid → List ℕ
  body x = cid_bytes x.cid ++ x.bytes

  unfoldable pub encode_section : Section Cid → List ℕ
  encode_section x = put_uvarint (length (body x)) ++ body x

  abbrev pub encode_all : List (Section Cid) → List ℕ
  encode_all [] = []
  encode_all (x ∷ r) = encode_section x ++ encode_all r

module _ {Cid E S : Type 0} (visit : S → Section Cid → Visit E S) where
  -- The callback on one section after the other, up to its first error.
  abbrev pub visit_all : List (Section Cid) → S → Outcome E S
  visit_all [] s = done s
  visit_all (x ∷ r) s = elim (visit s x) [
    | next s' ↦ visit_all r s'
    | stop e ↦ failed (visit_failed e)
  ]

sub_left : (m n : ℕ) → m + n - m ≡ n
sub_left m n = omega arith

slice_found {ℓ} :
    {A : Type ℓ} {buf : List A} {from to : ℕ} (front middle back : List A)
    → buf ≡ front ++ (middle ++ back)
    → from ≡ length front
    → to ≡ length front + length middle
    → slice buf from to ≡ middle
slice_found front middle back split start end =
    rw (split, start, end, drop_all-append, sub_left (length front) (length middle))
      (take_all-append middle back)

module _ {Cid E S : Type 0} (cid_from_bytes : List ℕ → Option (ℕ × Cid))
    (visit : S → Section Cid → Visit E S) where
  -- One round of the loop at a section that lies whole in the region.
  with_length_found :
      (continue : ℕ → S → Outcome E S) (buf : List ℕ) (pos sec_len n cid_len : ℕ) (c : Cid) (s : S)
      → 0 < sec_len
      → pos + n + sec_len ≤ length buf
      → length buf < i64_half
      → cid_len ≤ sec_len
      → cid_from_bytes (slice buf (pos + n) (pos + n + sec_len)) ≡ some (cid_len, c)
      → with_length cid_from_bytes visit continue buf pos s (some (sec_len, n))
        ≡ visit_section cid_from_bytes visit continue (pos + n + sec_len) (
            visit s (record { cid = c; bytes = slice buf (pos + n + cid_len) (pos + n + sec_len) }))
  with_length_found continue buf pos sec_len n cid_len c s positive fits small inside found =
      rw (end_exact, no_overrun, found) (ground arith)
    where
      end_exact : add64 (pos + n) sec_len ≡ pos + n + sec_len
      end_exact = add64_exact (pos + n) sec_len (omega arith)

      no_overrun : lt_i64 (length buf) (pos + n + sec_len) ≡ ltb (length buf) (pos + n + sec_len)
      no_overrun = lt_i64-small (length buf) (pos + n + sec_len) small (omega arith)

  module _ (cid_bytes : Cid → List ℕ)
      (decodes : (c : Cid) (d : List ℕ)
        → cid_from_bytes (cid_bytes c ++ d) ≡ some (length (cid_bytes c), c))
      (nonempty : (c : Cid) → 0 < length (cid_bytes c)) where
    -- One round at a section that the writer wrote, wherever it lies.
    pub round-encode_section :
        (continue : ℕ → S → Outcome E S) (front back : List ℕ) (x : Section Cid) (s : S)
        → length (front ++ (encode_section cid_bytes x ++ back)) < i64_half
        → with_length cid_from_bytes visit continue
            (front ++ (encode_section cid_bytes x ++ back))
            (length front)
            s
            (uvarint (drop (length front) (front ++ (encode_section cid_bytes x ++ back))))
          ≡ visit_section cid_from_bytes visit continue
              (length front + length (encode_section cid_bytes x))
              (visit s x)
    unfolding encode_section
    round-encode_section continue front back x s small = rw read (
        with_length_found continue buf (length front) (length (body cid_bytes x)) (length head)
          (length key) x.cid s (omega (arith, lengths, nonempty x.cid)) (omega (arith, total)) small
          (omega (arith, lengths)) (rw whole (decodes x.cid x.bytes))
        ∙ rw (payload, end))
      where
        head : List ℕ
        head = put_uvarint (length (body cid_bytes x))

        key : List ℕ
        key = cid_bytes x.cid

        buf : List ℕ
        buf = front ++ (encode_section cid_bytes x ++ back)

        lengths : length (body cid_bytes x) ≡ length key + length x.bytes
        lengths = length-append key x.bytes

        total : length buf ≡ length front + length head + length (body cid_bytes x) + length back
        total = simp length-append (omega arith)

        end :
            length front + length head + length (body cid_bytes x)
            ≡ length front + length (encode_section cid_bytes x)
        end = rw (length-append head (body cid_bytes x)) (omega arith)

        read : uvarint (drop (length front) buf) ≡ some (length (body cid_bytes x), length head)
        read =
            rw (drop_all-append, append_assoc)
              (uvarint-put_uvarint (length (body cid_bytes x)) (body cid_bytes x ++ back)
                (omega (arith, total)))

        whole :
            slice buf
              (length front + length head)
              (length front + length head + length (body cid_bytes x))
            ≡ body cid_bytes x
        whole =
            slice_found {buf = buf} (front ++ head) (body cid_bytes x) back (simp append_assoc)
              (sym (length-append front head)) (rw (length-append front head))

        payload :
            slice buf
              (length front + length head + length key)
              (length front + length head + length (body cid_bytes x))
            ≡ x.bytes
        payload =
            slice_found {buf = buf} ((front ++ head) ++ key) x.bytes back (simp append_assoc)
              (simp length-append) (simp length-append (omega arith))

    visit_section_cases :
        (continue : ℕ → S → Outcome E S) (end : ℕ) (r : List (Section Cid)) (v : Visit E S)
        → ((s : S) → continue end s ≡ visit_all visit r s)
        → visit_section cid_from_bytes visit continue end v
          ≡ (elim v [ next s ↦ visit_all visit r s | stop e ↦ failed (visit_failed e) ])
    visit_section_cases continue end r (next s) h = h s
    visit_section_cases continue end r (stop e) h = refl

    pub length-encode_section : (x : Section Cid) → 0 < length (encode_section cid_bytes x)
    unfolding encode_section
    length-encode_section x = simp length-append (omega (arith, nonempty x.cid))

    -- The same walk, with the section that was read counted to the front.
    pub walk-reassociate :
        (fuel : ℕ) (front e rest : List ℕ) (s : S)
        → walk cid_from_bytes visit fuel (front ++ (e ++ rest)) (length front + length e) s
          ≡ walk cid_from_bytes visit fuel ((front ++ e) ++ rest) (length (front ++ e)) s
    walk-reassociate fuel front e rest s = rw (length-append, append_assoc)

    walk-encode_all :
        (xs : List (Section Cid)) (fuel : ℕ) (front : List ℕ) (s : S)
        → length xs ≤ fuel
        → length (front ++ encode_all cid_bytes xs) < i64_half
        → walk cid_from_bytes visit (suc fuel) (front ++ encode_all cid_bytes xs) (length front) s
          ≡ visit_all visit xs s
    walk-encode_all [] fuel front s enough small =
        rw append-nil (walk_end cid_from_bytes visit fuel front (length front) s (omega arith))
    walk-encode_all (x ∷ r) zero front s enough small = absurd (omega arith)
    walk-encode_all (x ∷ r) (suc fuel) front s enough small =
        walk_step cid_from_bytes visit (suc fuel) buf (length front) s
          (rw (length-append, length-append) (omega (arith, length-encode_section x)))
        ∙ round-encode_section (walk cid_from_bytes visit (suc fuel) buf) front
            (encode_all cid_bytes r) x s small
        ∙ visit_section_cases (walk cid_from_bytes visit (suc fuel) buf)
            (length front + length (encode_section cid_bytes x)) r (visit s x)
            (λ s'.
              walk-reassociate (suc fuel) front (encode_section cid_bytes x)
                (encode_all cid_bytes r) s'
              ∙ walk-encode_all r fuel (front ++ encode_section cid_bytes x) s' (omega arith)
                  (rw append_assoc small))
      where
        buf : List ℕ
        buf = front ++ (encode_section cid_bytes x ++ encode_all cid_bytes r)

    pub length-encode_all : (xs : List (Section Cid)) → length xs ≤ length (encode_all cid_bytes xs)
    length-encode_all [] = omega arith
    length-encode_all (x ∷ r) =
        rw length-append (omega (arith, length-encode_section x, length-encode_all r))

    -- For a CID decoder that reads back each CID from the front of any bytes and CIDs that are
    -- not empty: walking what the writer wrote for a list of sections, below 2 ^ 63 bytes, calls
    -- the callback on exactly those sections, in order, and stops at its first error.
    pub walk_sections-encode_all :
        (xs : List (Section Cid)) (s : S)
        → length (encode_all cid_bytes xs) < i64_half
        → walk_sections cid_from_bytes visit (encode_all cid_bytes xs) s ≡ visit_all visit xs s
    unfolding walk_sections
    walk_sections-encode_all xs s small =
        walk-encode_all xs (length (encode_all cid_bytes xs)) [] s (length-encode_all xs) small
