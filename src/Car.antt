-- ===== src/Car.antt =====
-- `section` and `walkSections` of backfill/block.go: the sections of a CAR region, each a uvarint
-- length, a CID and the node's bytes. The CID decoder is go-cid's `CidFromBytes`, a parameter: the
-- bytes that it read, and the CID. Lengths and positions are Go's 64-bit `int`.
pub mod Encode
pub mod Cut
pub mod Fuel
use epochfill.Common.{
  ℕ, zero, suc, ◌+◌, ◌-◌, Bool, Option, none, some, List, length, take, drop, ltb, leb, nat_eq,
  if◌then◌else◌, ◌&&◌, ◌<◌, ◌≤◌, ◌≡◌, lt→ltb, le→ltb,
}
use epochfill.Go.Word.{lt_i64, add64}
use epochfill.Go.Varint.{uvarint}

pub record Section (Cid : Type 0) : Type 0 where
  pub cid : Cid
  pub bytes : List ℕ

-- The errors of the walk, by message and position; `visit_failed` is the callback's own.
pub data WalkError (E : Type 0) : Type 0 where
  bad_section_length : ℕ → WalkError E
  runs_past_region : ℕ → WalkError E
  bad_cid : ℕ → WalkError E
  visit_failed : E → WalkError E

-- `panicked` is a slice expression out of range; `stuck` is no Go value: the fuel ran out.
pub data Outcome (E S : Type 0) : Type 0 where
  done : S → Outcome E S
  failed : WalkError E → Outcome E S
  panicked : Outcome E S
  stuck : Outcome E S

-- What the callback returns: nil, with the variables that it captures as `S`, or an error.
pub data Visit (E S : Type 0) : Type 0 where
  next : S → Visit E S
  stop : E → Visit E S

-- `buf[from:to]` does not panic. A negative `to` is a pattern above every length.
abbrev pub slice_ok : ℕ → ℕ → ℕ → Bool
slice_ok from to len = leb from to && leb to len

abbrev pub slice {ℓ} : {A : Type ℓ} → List A → ℕ → ℕ → List A
slice buf from to = take (to - from) (drop from buf)

module _ {Cid E S : Type 0} (cid_from_bytes : List ℕ → Option (ℕ × Cid))
    (visit : S → Section Cid → Visit E S) where
  -- The last lines of the loop's body: the callback, and the next round from `end`.
  abbrev pub visit_section : (ℕ → S → Outcome E S) → ℕ → Visit E S → Outcome E S
  visit_section continue end (next s) = continue end s
  visit_section continue end (stop e) = failed (visit_failed e)

  abbrev pub with_cid : (ℕ → S → Outcome E S) → List ℕ → ℕ → ℕ → S → Option (ℕ × Cid) → Outcome E S
  with_cid continue buf start end s none = failed (bad_cid start)
  with_cid continue buf start end s (some (cid_len, c)) =
      if slice_ok (start + cid_len) end (length buf)
      then visit_section continue end
          (visit s (record { cid = c; bytes = slice buf (start + cid_len) end }))
      else panicked

  abbrev pub with_length : (ℕ → S → Outcome E S) → List ℕ → ℕ → S → Option (ℕ × ℕ) → Outcome E S
  with_length continue buf pos s none = failed (bad_section_length pos)
  with_length continue buf pos s (some (sec_len, n)) =
      let start = pos + n in
      let end = add64 start sec_len in
      if nat_eq sec_len 0
      then failed (bad_section_length pos)
      else if lt_i64 (length buf) end
      then failed (runs_past_region pos)
      else if slice_ok start end (length buf)
      then with_cid continue buf start end s (cid_from_bytes (slice buf start end))
      else panicked

  -- `for pos := 0; pos < len(buf);`, from `pos` on.
  pub walk : ℕ → List ℕ → ℕ → S → Outcome E S
  walk zero buf pos s = stuck
  walk (suc fuel) buf pos s =
      if ltb pos (length buf)
      then with_length (walk fuel buf) buf pos s (uvarint (drop pos buf))
      else done s

  -- Every round reads one byte at least.
  unfoldable pub walk_sections : List ℕ → S → Outcome E S
  unfolding walk
  walk_sections buf s = walk (suc (length buf)) buf 0 s

  pub walk_step :
      (fuel : ℕ) (buf : List ℕ) (pos : ℕ) (s : S)
      → pos < length buf
      → walk (suc fuel) buf pos s ≡ with_length (walk fuel buf) buf pos s (uvarint (drop pos buf))
  unfolding walk
  walk_step fuel buf pos s h = rw (lt→ltb pos (length buf) h)

  pub walk_end :
      (fuel : ℕ) (buf : List ℕ) (pos : ℕ) (s : S)
      → length buf ≤ pos
      → walk (suc fuel) buf pos s ≡ done s
  unfolding walk
  walk_end fuel buf pos s h = rw (le→ltb pos (length buf) h)
