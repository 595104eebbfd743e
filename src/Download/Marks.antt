-- ===== src/Download/Marks.antt =====
-- What the steps of a download leave of the sidecar's claims and of the data file.
use epochfill.Common.{
  ℕ, zero, suc, ◌+◌, ◌<◌, ◌≡◌, refl, Bool, true, false, Bool-cases, inl, inr, List, [], ◌∷◌, ◌++◌,
  length, set, get_or, elem, nat_eq, ltb, nat_equality, arith,
}
use native.Mathlib.Nat.{zero-add}
use epochfill.Go.Word.{lt_i64, i64_half}
use epochfill.Parts.{
  PartsFile, Disk, sync_every, pending, pending_from, mark_done, WriteEnd, whole, not_opened, cut,
  flush, maybe_flush,
}
use epochfill.Parts.Claims.{claims, claims-pending_from}
use epochfill.Download.{ChunkError}

claims-set_self : (l : List ℕ) (i : ℕ) → i < length l → claims (set l i 1) i ≡ true
claims-set_self [] i h = absurd (omega arith)
claims-set_self (x ∷ r) zero h = refl
claims-set_self (x ∷ r) (suc i) h = claims-set_self r i (omega arith)

claims-get_or : (l : List ℕ) (i : ℕ) → nat_eq (get_or l i 0) 1 ≡ true → claims l i ≡ true
claims-get_or [] i h = cc
claims-get_or (x ∷ r) zero h = ground arith
claims-get_or (x ∷ r) (suc i) h = claims-get_or r i h

pub mark_done_marks :
    (i : ℕ) (p : PartsFile)
    → i < length p.state
    → length p.state < i64_half
    → claims (mark_done i p).state i ≡ true
unfolding mark_done lt_i64
mark_done_marks i p inside small =
    ground (arith, claims-set_self p.state i, claims-get_or p.state i)

pending_from_below : (l : List ℕ) (i j : ℕ) → j < i → elem j (pending_from l i) ≡ false
unfolding pending_from
pending_from_below [] i j h = refl
pending_from_below (b ∷ r) i j h = ground (arith, pending_from_below r (suc i) j)

pending_from-claims :
    (l : List ℕ) (i k : ℕ) → elem (i + k) (pending_from l i) ≡ true → claims l k ≡ false
unfolding pending_from
pending_from-claims [] i k h = cc
pending_from-claims (b ∷ r) i zero h = ground (arith, pending_from_below r (suc i) (i + 0))
pending_from-claims (b ∷ r) i (suc k) h = pending_from-claims r (suc i) k (rw shift (ground arith))
  where
    shift : suc i + k ≡ i + suc k
    shift = omega arith

pending_from-lt : (l : List ℕ) (i j : ℕ) → elem j (pending_from l i) ≡ true → j < i + length l
unfolding pending_from
pending_from-lt [] i j h = cc
pending_from-lt (b ∷ r) i j h = ground (arith, pending_from-lt r (suc i) j)

pub pending-lt : (p : PartsFile) (i : ℕ) → elem i (pending p) ≡ true → i < length p.state
pending-lt p i h = omega (arith, pending_from-lt p.state 0 i h)

-- A chunk is to do exactly if the sidecar does not claim it.
pub pending-claims : (p : PartsFile) (i : ℕ) → elem i (pending p) ≡ true → claims p.state i ≡ false
pending-claims p i h = pending_from-claims p.state 0 i (rw zero-add h)

pub claims-pending :
    (p : PartsFile) (i : ℕ)
    → i < length p.state
    → elem i (pending p) ≡ false
    → claims p.state i ≡ true
claims-pending p i inside h = claims-pending_from p.state 0 i inside (rw zero-add h)

flush_keeps :
    (sync_ok : Bool) (end : WriteEnd) (p : PartsFile) (d : Disk)
    → ((flush sync_ok end p d).1.state ≡ p.state) × ((flush sync_ok end p d).2.written ≡ d.written)
unfolding flush
flush_keeps false end p d = (refl, refl)
flush_keeps true whole p d = (refl, refl)
flush_keeps true not_opened p d = (refl, refl)
flush_keeps true (cut k) p d = (refl, refl)

pub maybe_flush_keeps :
    (sync_ok : Bool) (end : WriteEnd) (p : PartsFile) (d : Disk)
    → ((maybe_flush sync_ok end p d).1.state ≡ p.state)
      × ((maybe_flush sync_ok end p d).2.written ≡ d.written)
unfolding maybe_flush
maybe_flush_keeps sync_ok end p d = elim (Bool-cases (ltb p.dirty sync_every)) [
  | inl few ↦ rw few (refl, refl)
  | inr many ↦ rw many (flush_keeps sync_ok end p d)
]

abbrev pub has_error : List ChunkError → Bool
has_error [] = false
has_error (_ ∷ _) = true

pub has_error-append : (l : List ChunkError) (e : ChunkError) → has_error (l ++ (e ∷ [])) ≡ true
has_error-append [] e = refl
has_error-append (x ∷ l) e = refl
