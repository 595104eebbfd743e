-- ===== src/Block/Truncated.antt =====
-- `parseRegion` of backfill/block.go on a region that ends inside a section.
use epochfill.Common.{◌+◌, ◌<◌, ◌≡◌, refl, ◌∙◌, ℕ, some, List, [], ◌∷◌, ◌++◌, length, Eq}
use epochfill.Go.Word.{i64_half}
use epochfill.Car.{Section, Visit, next, stop, Outcome, WalkError, visit_failed, failed}
use epochfill.Car.Encode.{encode_section, encode_all}
use epochfill.Car.Cut.{visit_all_then, cut_error, walk_sections-cut}
use epochfill.Block.Ipld.{Ipld}
use epochfill.Block.Region.{
  DecodeError, Region, walk_failed, empty_region, visit_node, parse_region,
}

module _ (ipld : Ipld) ⦃e : Eq ipld.Cid⦄ where
  open ipld use {Cid, cid_from_bytes}

  -- The walk ends with some error.
  Fails : (S : Type 0) → Outcome DecodeError S → Type 0
  Fails S o = (err : WalkError DecodeError) × (o ≡ failed err)

  visit-Fails :
      (v : Visit DecodeError (Region ipld))
      (later : Region ipld → Outcome DecodeError (Region ipld))
      → ((r : Region ipld) → Fails (Region ipld) (later r))
      → Fails (Region ipld) (elim v [ next r ↦ later r | stop err ↦ failed (visit_failed err) ])
  unfolding Fails
  visit-Fails (next r) later h = h r
  visit-Fails (stop err) later h = (visit_failed err, refl)

  visit_all_then-Fails :
      (want : Cid) (error : WalkError DecodeError) (xs : List (Section Cid)) (r : Region ipld)
      → Fails (Region ipld) (visit_all_then (visit_node ipld want) error xs r)
  unfolding Fails
  visit_all_then-Fails want error [] r = (error, refl)
  visit_all_then-Fails want error (x ∷ xs) r =
      visit-Fails (visit_node ipld want r x) (visit_all_then (visit_node ipld want) error xs)
        (visit_all_then-Fails want error xs)

  module _ (cid_bytes : Cid → List ℕ)
      (decodes : (c : Cid) (d : List ℕ)
        → cid_from_bytes (cid_bytes c ++ d) ≡ some (length (cid_bytes c), c))
      (nonempty : (c : Cid) → 0 < length (cid_bytes c)) where
    -- For a CID decoder that reads back each CID and CIDs that are not empty: a region that ends
    -- inside a section, below 2 ^ 63 bytes with the bytes of it that are missing, is refused with
    -- an error of the walk, also if the wanted block's node lies before the cut: no block is made of
    -- a part of its region.
    pub parse_region-cut :
        (xs : List (Section Cid)) (tail missing : List ℕ) (x : Section Cid) (want : Cid)
        → tail ++ missing ≡ encode_section cid_bytes x
        → 0 < length tail
        → 0 < length missing
        → length (encode_all cid_bytes xs ++ tail) + length missing < i64_half
        → (err : WalkError DecodeError) × (parse_region ipld (encode_all cid_bytes xs ++ tail) want
            ≡ walk_failed err)
    unfolding parse_region Fails
    parse_region-cut xs tail missing x want split some_there more small =
        let error = cut_error DecodeError cid_bytes x tail (length (encode_all cid_bytes xs)) in
        let (err, fails) = visit_all_then-Fails want error xs (empty_region ipld) in
        (
          err,
          rw
              (walk_sections-cut cid_from_bytes (visit_node ipld want) cid_bytes decodes nonempty xs
                  tail missing x (empty_region ipld) split some_there more small
                ∙ fails)
              refl,
        )
