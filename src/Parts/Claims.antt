-- ===== src/Parts/Claims.antt =====
-- Which chunks the bytes of a sidecar claim.
use epochfill.Common.{
  ℕ, zero, suc, ◌+◌, ◌<◌, ◌≡◌, refl, ap, Bool, true, false, not, Option, none, some, List, [], ◌∷◌,
  length, take, get_elem?, set, replicate, elem, nat_eq, nat_equality, arith,
}
use epochfill.Parts.{PartsFile, pending_from, mark_done}

abbrev nonzero : Option ℕ → Bool
nonzero none = false
nonzero (some b) = not (nat_eq b 0)

abbrev pub claims : List ℕ → ℕ → Bool
claims l i = nonzero (get_elem? l i)

claims-set :
    (l : List ℕ) (i j : ℕ) → claims (set l i 1) j ≡ true → (nat_eq i j ≡ false → claims l j ≡ true)
claims-set [] i j h = λ k. h
claims-set (x ∷ r) zero zero h = λ k. cc
claims-set (x ∷ r) zero (suc j) h = λ k. h
claims-set (x ∷ r) (suc i) zero h = λ k. h
claims-set (x ∷ r) (suc i) (suc j) h = λ k. claims-set r i j h (ground arith)

set-claims : (l : List ℕ) (i j : ℕ) → claims l j ≡ true → claims (set l i 1) j ≡ true
set-claims [] i j h = h
set-claims (x ∷ r) zero zero h = refl
set-claims (x ∷ r) zero (suc j) h = h
set-claims (x ∷ r) (suc i) zero h = h
set-claims (x ∷ r) (suc i) (suc j) h = set-claims r i j h

length-set : (l : List ℕ) (i v : ℕ) → length (set l i v) ≡ length l
length-set [] i v = refl
length-set (x ∷ r) zero v = refl
length-set (x ∷ r) (suc i) v = ap suc (length-set r i v)

pub length-mark_done : (i : ℕ) (p : PartsFile) → length (mark_done i p).state ≡ length p.state
unfolding mark_done
length-mark_done i p = ground (arith, length-set p.state i 1)

pub mark_done-claims :
    (i j : ℕ) (p : PartsFile) → claims p.state j ≡ true → claims (mark_done i p).state j ≡ true
unfolding mark_done
mark_done-claims i j p h = ground (arith, set-claims p.state i j)

pub claims-mark_done :
    (i j : ℕ) (p : PartsFile)
    → claims (mark_done i p).state j ≡ true
    → nat_eq i j ≡ false
    → claims p.state j ≡ true
unfolding mark_done
claims-mark_done i j p h k = ground (arith, claims-set p.state i j)

pub length-replicate : (n : ℕ) → length {A = ℕ} (replicate n 0) ≡ n
length-replicate zero = refl
length-replicate (suc n) = ap suc (length-replicate n)

pub claims-replicate : (n i : ℕ) → claims (replicate n 0) i ≡ false
claims-replicate zero i = refl
claims-replicate (suc n) zero = refl
claims-replicate (suc n) (suc i) = claims-replicate n i

-- A write that broke off and is as long as the whole is the whole.
pub take_whole : (k : ℕ) (l : List ℕ) → length (take k l) ≡ length l → take k l ≡ l
take_whole zero [] h = refl
take_whole zero (x ∷ r) h = absurd (omega arith)
take_whole (suc k) [] h = refl
take_whole (suc k) (x ∷ r) h = ap (λ (t : List ℕ). x ∷ t) (take_whole k r (omega arith))

pub claims-pending_from :
    (l : List ℕ) (i k : ℕ)
    → k < length l
    → elem (i + k) (pending_from l i) ≡ false
    → claims l k ≡ true
unfolding pending_from
claims-pending_from [] i k h absent = absurd (omega arith)
claims-pending_from (b ∷ r) i zero h absent = ground arith
claims-pending_from (b ∷ r) i (suc k) h absent =
    claims-pending_from r (suc i) k (omega arith) (rw shift (ground arith))
  where
    shift : suc i + k ≡ i + suc k
    shift = omega arith
