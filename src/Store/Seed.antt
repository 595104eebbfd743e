-- ===== src/Store/Seed.antt =====
-- Seeding the work list in batches is inserting the slots one by one.
use Prim.Native.Nat.{min}
use epochfill.Common.{
  ℕ, zero, suc, ◌+◌, ◌-◌, ◌*◌, ◌/◌, ◌≤◌, ◌<◌, ◌≡◌, ◌∙◌, refl, sym, ap, Bool, false, ◌||◌, List, [],
  ◌∷◌, ◌++◌, length, take, drop, length-drop, lt→ltb, le→ltb, if◌then◌else◌, arith,
}
use native.Mathlib.Decide.{dec_lt}
use native.Mathlib.Nat.{zero-add, suc-add, add-zero}
use epochfill.Car.{slice}
use epochfill.Store.{
  EpochDb, success, failure, going, broken, insert_chunk, batch, seed_loop, seed_slots,
}

insert_chunk-append :
    (l m : List ℕ) (db : EpochDb) → insert_chunk (l ++ m) db ≡ insert_chunk m (insert_chunk l db)
unfolding insert_chunk
insert_chunk-append [] m db = refl
insert_chunk-append (s ∷ r) m db = insert_chunk-append r m _

-- Some statement from the `n`-th on, of `k`, fails.
abbrev pub any_fault : (ℕ → Bool) → ℕ → ℕ → Bool
any_fault faults n zero = false
any_fault faults n (suc k) = faults n || any_fault faults (n + 1) k

drop-add {ℓ} : {A : Type ℓ} (m n : ℕ) (l : List A) → drop n (drop m l) ≡ drop (m + n) l
drop-add zero n l = rw zero-add
drop-add (suc m) zero [] = rw suc-add
drop-add (suc m) (suc n) [] = rw suc-add
drop-add (suc m) n (x ∷ l) = rw suc-add (drop-add m n l)

chunk_split {ℓ} :
    {A : Type ℓ} (b n : ℕ) (l : List A) → n ≡ min b (length l) → take n l ++ drop b l ≡ l
chunk_split zero zero l h = refl
chunk_split (suc b) zero [] h = refl
chunk_split (suc b) zero (x ∷ l) h = absurd (omega arith)
chunk_split zero (suc n) l h = absurd (omega arith)
chunk_split (suc b) (suc n) [] h = absurd (omega arith)
chunk_split {A} (suc b) (suc n) (x ∷ l) h =
    ap (λ (t : List A). x ∷ t) (chunk_split b n l (omega arith))

drop_past {ℓ} : {A : Type ℓ} (n : ℕ) (l : List A) → length l ≤ n → drop n l ≡ []
drop_past zero [] h = refl
drop_past zero (x ∷ l) h = absurd (omega arith)
drop_past (suc n) [] h = refl
drop_past (suc n) (x ∷ l) h = drop_past n l (omega arith)

-- One batch and what follows it.
next_batch :
    (slots : List ℕ) (start : ℕ) (db : EpochDb)
    → insert_chunk
        (drop (start + batch) slots)
        (insert_chunk (slice slots start (min (start + batch) (length slots))) db)
      ≡ insert_chunk (drop start slots) db
next_batch slots start db =
    sym (
      insert_chunk-append (slice slots start (min (start + batch) (length slots)))
        (drop (start + batch) slots) db)
    ∙ rw (← drop-add start batch slots) (
        ap (λ (t : List ℕ). insert_chunk t db)
          (chunk_split batch (min (start + batch) (length slots) - start) (drop start slots)
            (rw length-drop (omega arith))))

-- The number of batches left at `start`.
abbrev pub batches : ℕ → ℕ → ℕ
batches len start = (len - start + 499) / 500

one_more : (start len : ℕ) → start < len → batches len start ≡ suc (batches len (start + batch))
one_more start len h = omega arith

none_left : (start len : ℕ) → len ≤ start → batches len start ≡ 0
none_left start len h = omega arith

-- A fault now or a fault later.
pub later :
    (now after : Bool) (n k : ℕ) (db : EpochDb)
    → (if now then broken else (if after then broken else going (n + 1 + k) db))
      ≡ (if now || after then broken else going (n + suc k) db)
later now after n k db = ground arith

seed_loop_lem :
    (fuel : ℕ) (faults : ℕ → Bool) (n : ℕ) (slots : List ℕ) (start : ℕ) (db : EpochDb)
    → 0 < fuel
    → length slots + batch ≤ start + fuel * batch
    → seed_loop fuel faults n slots start db ≡ (
        if any_fault faults n (batches (length slots) start)
        then broken
        else going (n + batches (length slots) start) (insert_chunk (drop start slots) db))
unfolding seed_loop
seed_loop_lem zero faults n slots start db h enough = absurd (omega arith)
seed_loop_lem (suc fuel) faults n slots start db h enough = elim (dec_lt start (length slots)) [
  | yes more ↦
      rw
        (
          lt→ltb start (length slots) more,
          one_more start (length slots) more,
          seed_loop_lem fuel faults (n + 1) slots (start + batch)
              (insert_chunk (slice slots start (min (start + batch) (length slots))) db)
              (omega arith) (omega arith),
          next_batch slots start db,
        )
        (later (faults n) (any_fault faults (n + 1) (batches (length slots) (start + batch))) n
          (batches (length slots) (start + batch)) (insert_chunk (drop start slots) db))
  | no over ↦
      rw (le→ltb start (length slots) (omega arith), none_left start (length slots) (omega arith))
        (rw (drop_past start slots (omega arith), add-zero) (unfold insert_chunk in refl))
]

pub any_fault_last :
    (faults : ℕ → Bool) (n k : ℕ)
    → any_fault faults n (suc k) ≡ (any_fault faults n k || faults (n + k))
any_fault_last faults n zero = rw add-zero (ground arith)
any_fault_last faults n (suc k) = rw (any_fault_last faults (n + 1) k, shift) (ground arith)
  where
    shift : n + 1 + k ≡ n + suc k
    shift = omega arith

-- `SeedSlots` on a work list that is not empty, whatever fails: if `Begin`, a batch of 500 or the
-- `Commit` fails, the database is unchanged and an error is returned; otherwise the result is that
-- of inserting the slots one by one, in order.
pub seed_slots_lem :
    (faults : ℕ → Bool) (db : EpochDb) (s : ℕ) (r : List ℕ)
    → seed_slots faults db (s ∷ r) ≡ (
        if any_fault faults 0 (suc (suc (batches (length (s ∷ r)) 0)))
        then (failure, db)
        else (success, insert_chunk (s ∷ r) db))
unfolding seed_slots
seed_slots_lem faults db s r =
    rw
      (
        seed_loop_lem (suc (length (s ∷ r))) faults 1 (s ∷ r) 0 db (omega arith) (omega arith),
        any_fault_last faults 1 (batches (length (s ∷ r)) 0),
      )
      (ground arith)
