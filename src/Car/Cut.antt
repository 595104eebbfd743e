-- ===== src/Car/Cut.antt =====
-- Walking a region that ends inside a section, as `walkSections` of backfill/block.go.
use epochfill.Common.{
  ℕ, zero, suc, ◌+◌, ◌≤◌, ◌<◌, ◌≡◌, refl, sym, ap, ◌∙◌, ◌⊎◌, inl, inr, Option, some, List, [], ◌∷◌,
  ◌++◌, length, ltb, length-append, drop_all-append, if◌then◌else◌, true, arith,
}
use mathlib.Core.List.{append_assoc}
use mathlib.Core.Path.{subst}
use epochfill.Go.Word.{add64, add64_exact, i64_half, lt_i64, lt_i64-small}
use epochfill.Go.Varint.{uvarint, put_uvarint, uvarint-put_uvarint, uvarint-cut}
use epochfill.Car.{
  Section, Visit, next, stop, Outcome, failed, WalkError, bad_section_length, runs_past_region,
  visit_failed, walk, walk_step, walk_sections, with_length, visit_section,
}
use epochfill.Car.Encode.{
  body, encode_section, encode_all, round-encode_section, length-encode_section, length-encode_all,
  walk-reassociate,
}

-- The cut is in the first part, or in the second.
Split : List ℕ → List ℕ → List ℕ → List ℕ → Type 0
Split tail missing head rest =
    ((m : List ℕ) × (head ≡ tail ++ m) × (0 < length m))
    ⊎ ((t : List ℕ) × (tail ≡ head ++ t) × (rest ≡ t ++ missing))

Split-cons :
    (c : ℕ) (tail missing head rest : List ℕ)
    → Split tail missing head rest
    → Split (c ∷ tail) missing (c ∷ head) rest
unfolding Split
Split-cons c tail missing head rest (inl (m, e, left)) = inl (m, ap (λ (l : List ℕ). c ∷ l) e, left)
Split-cons c tail missing head rest (inr (t, e, same)) = inr (t, ap (λ (l : List ℕ). c ∷ l) e, same)

append-Split :
    (tail missing head rest : List ℕ)
    → tail ++ missing ≡ head ++ rest
    → Split tail missing head rest
unfolding Split
append-Split [] missing [] rest e = inr ([], refl, sym e)
append-Split [] missing (h ∷ head) rest e = inl (h ∷ head, refl, omega arith)
append-Split (c ∷ tail) missing [] rest e = inr (c ∷ tail, refl, sym e)
append-Split (c ∷ tail) missing (h ∷ head) rest e =
    let same : c ≡ h = cc in
    let others : tail ++ missing ≡ head ++ rest = cc in
    subst (λ d. Split (c ∷ tail) missing (d ∷ head) rest) same
      (Split-cons c tail missing head rest (append-Split tail missing head rest others))

module _ {Cid E S : Type 0} (visit : S → Section Cid → Visit E S) where
  -- The callback on one section after the other, up to its first error, and then the error of the
  -- walk.
  abbrev pub visit_all_then : WalkError E → List (Section Cid) → S → Outcome E S
  visit_all_then error [] s = failed error
  visit_all_then error (x ∷ r) s = elim (visit s x) [
    | next s' ↦ visit_all_then error r s'
    | stop e ↦ failed (visit_failed e)
  ]

module _ {Cid : Type 0} (E : Type 0) (cid_bytes : Cid → List ℕ) where
  -- The error on the first bytes of a section: the length itself may be cut off.
  abbrev pub cut_error : Section Cid → List ℕ → ℕ → WalkError E
  cut_error x tail pos =
      if ltb (length tail) (length (put_uvarint (length (body cid_bytes x))))
      then bad_section_length pos
      else runs_past_region pos

module _ {Cid E S : Type 0} (cid_from_bytes : List ℕ → Option (ℕ × Cid))
    (visit : S → Section Cid → Visit E S) (cid_bytes : Cid → List ℕ)
    (decodes : (c : Cid) (d : List ℕ)
      → cid_from_bytes (cid_bytes c ++ d) ≡ some (length (cid_bytes c), c))
    (nonempty : (c : Cid) → 0 < length (cid_bytes c)) where
  with_length-Split :
      (continue : ℕ → S → Outcome E S) (front tail missing : List ℕ) (x : Section Cid) (s : S)
      → Split tail missing (put_uvarint (length (body cid_bytes x))) (body cid_bytes x)
      → 0 < length missing
      → length front + length tail + length missing < i64_half
      → with_length cid_from_bytes visit continue (front ++ tail) (length front) s (uvarint tail)
        ≡ failed (cut_error E cid_bytes x tail (length front))
  unfolding Split
  with_length-Split continue front tail missing x s (inl (m, e, left)) more small =
      let l = length-append tail m in
      let lengths : length (put_uvarint (length (body cid_bytes x))) ≡ length tail + length m =
        ap length e ∙ l in
      rw (uvarint-cut (length (body cid_bytes x)) tail m e left) (ground (arith, lengths))
  with_length-Split continue front tail missing x s (inr (t, e, same)) more small =
      let n = length (body cid_bytes x) in
      let head = put_uvarint n in
      let whole : n ≡ length t + length missing = ap length same ∙ length-append t missing in
      let total : length tail ≡ length head + length t = ap length e ∙ length-append head t in
      let read : uvarint tail ≡ some (n, length head) =
        ap uvarint e ∙ uvarint-put_uvarint n t (omega arith) in
      let exact : add64 (length front + length head) n ≡ length front + length head + n =
        add64_exact (length front + length head) n (omega arith) in
      let buf : length (front ++ tail) ≡ length front + length tail = length-append front tail in
      let past : lt_i64 (length (front ++ tail)) (length front + length head + n) ≡ true =
        lt_i64-small (length (front ++ tail)) (length front + length head + n) (omega arith)
          (omega arith)
        ∙ (ground arith) in
      rw (read, exact, past) (ground arith)

  visit_section_then :
      (continue : ℕ → S → Outcome E S) (error : WalkError E) (end : ℕ) (r : List (Section Cid))
      (v : Visit E S)
      → ((s : S) → continue end s ≡ visit_all_then visit error r s)
      → visit_section cid_from_bytes visit continue end v
        ≡ (elim v [ next s ↦ visit_all_then visit error r s | stop e ↦ failed (visit_failed e) ])
  visit_section_then continue error end r (next s) h = h s
  visit_section_then continue error end r (stop e) h = refl

  walk-cut :
      (xs : List (Section Cid)) (fuel : ℕ) (front tail missing : List ℕ) (x : Section Cid) (s : S)
      → tail ++ missing ≡ encode_section cid_bytes x
      → 0 < length tail
      → 0 < length missing
      → length xs ≤ fuel
      → length (front ++ (encode_all cid_bytes xs ++ tail)) + length missing < i64_half
      → walk cid_from_bytes visit
          (suc fuel)
          (front ++ (encode_all cid_bytes xs ++ tail))
          (length front)
          s
        ≡ visit_all_then visit
            (cut_error E cid_bytes x tail (length front + length (encode_all cid_bytes xs)))
            xs
            s
  unfolding encode_section
  walk-cut [] fuel front tail missing x s split some_there more enough small =
      walk_step cid_from_bytes visit fuel (front ++ tail) (length front) s
        (rw length-append (omega arith))
      ∙ (rw drop_all-append (
          with_length-Split (walk cid_from_bytes visit fuel (front ++ tail)) front tail missing x s
            (append-Split tail missing (put_uvarint (length (body cid_bytes x))) (body cid_bytes x)
              split)
            more (omega (arith, length-append front tail))
          ∙ ap (λ n. failed (cut_error E cid_bytes x tail n)) (omega arith)))
  walk-cut (y ∷ r) zero front tail missing x s split some_there more enough small =
      absurd (omega arith)
  walk-cut (y ∷ r) (suc fuel) front tail missing x s split some_there more enough small =
      let section = encode_section cid_bytes y in
      let later = encode_all cid_bytes r ++ tail in
      let error =
        cut_error E cid_bytes x tail (length front + length (section ++ encode_all cid_bytes r)) in
      let regroup : (section ++ encode_all cid_bytes r) ++ tail ≡ section ++ later =
        append_assoc section (encode_all cid_bytes r) tail in
      let fits : length (front ++ (section ++ later)) + length missing < i64_half =
        (rw regroup at small) in
      let here : length (front ++ section) + length (encode_all cid_bytes r)
          ≡ length front + length (section ++ encode_all cid_bytes r) =
        omega
          (arith, length-append front section, length-append section (encode_all cid_bytes r)) in
      ap (λ l. walk cid_from_bytes visit (suc (suc fuel)) (front ++ l) (length front) s) regroup
      ∙ (walk_step cid_from_bytes visit (suc fuel) (front ++ (section ++ later)) (length front) s (
            rw (length-append, length-append)
              (omega
                (arith, length-encode_section cid_from_bytes visit cid_bytes decodes nonempty y)))
          ∙ (round-encode_section cid_from_bytes visit cid_bytes decodes nonempty
                (walk cid_from_bytes visit (suc fuel) (front ++ (section ++ later))) front later y s
                (omega arith)
              ∙ visit_section_then
                  (walk cid_from_bytes visit (suc fuel) (front ++ (section ++ later))) error
                  (length front + length section) r (visit s y)
                  (λ s'.
                    walk-reassociate cid_from_bytes visit cid_bytes decodes nonempty (suc fuel)
                      front section later s'
                    ∙ (walk-cut r fuel (front ++ section) tail missing x s' split some_there more
                          (omega arith) (rw append_assoc fits)
                        ∙ ap (λ n. visit_all_then visit (cut_error E cid_bytes x tail n) r s')
                            here))))

  -- For a CID decoder that reads back each CID from the front of any bytes and CIDs that are not
  -- empty, and a region that ends inside a section, below 2 ^ 63 bytes with the bytes of it that are
  -- missing: the callback is called on exactly the sections before, in order, up to its first error;
  -- with none, the walk returns the error on the cut section, with the position of its length: a bad
  -- length if that is cut off itself, and else a section that runs past the region.
  pub walk_sections-cut :
      (xs : List (Section Cid)) (tail missing : List ℕ) (x : Section Cid) (s : S)
      → tail ++ missing ≡ encode_section cid_bytes x
      → 0 < length tail
      → 0 < length missing
      → length (encode_all cid_bytes xs ++ tail) + length missing < i64_half
      → walk_sections cid_from_bytes visit (encode_all cid_bytes xs ++ tail) s
        ≡ visit_all_then visit
            (cut_error E cid_bytes x tail (length (encode_all cid_bytes xs)))
            xs
            s
  unfolding walk_sections
  walk_sections-cut xs tail missing x s split some_there more small =
      walk-cut xs (length (encode_all cid_bytes xs ++ tail)) [] tail missing x s split some_there
        more
        (omega (
          arith,
          length-append (encode_all cid_bytes xs) tail,
          length-encode_all cid_from_bytes visit cid_bytes decodes nonempty xs,
        ))
        small
      ∙ ap (λ n. visit_all_then visit (cut_error E cid_bytes x tail n) xs s) (omega arith)
