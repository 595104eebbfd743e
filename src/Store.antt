-- ===== src/Store.antt =====
-- backfill/store.go: the landing rows of one epoch and the work list that makes an interrupted run
-- resumable. The SQL statements act on tables as lists. Each statement of a call may fail, as
-- `faults` says by its number in the call (0 is `Begin`); a transaction that is not committed is
-- rolled back.
pub mod Table
pub mod Slots
pub mod Order
pub mod Write
pub mod Seed
pub mod Resume
pub mod History
pub mod SigSet
pub mod Path
use Prim.Native.Nat.{min}
use epochfill.Common.{
  ℕ, zero, suc, ◌+◌, Bool, true, false, List, [], ◌∷◌, length, ltb, if◌then◌else◌, Option, none,
  some, text_equality,
}
use epochfill.Car.{slice}
use epochfill.Go.Map.{lookup, insert}
use epochfill.Go.Text.{GoString}
use epochfill.Landing.{Landing}
pub use epochfill.Store.Table.{EpochDb}
use epochfill.Store.Table.{
  insert_landing, insert_slot, update_done, undone, order_slots, count_slots, sum_done,
}

-- A nil error, or the first error that a statement returned. `out_of_fuel` is no Go value.
pub data SqlResult : Type 0 where
  success failure out_of_fuel : SqlResult

-- `Meta`: a missing key and a failed query read as "".
unfoldable pub meta_value : (ℕ → Bool) → EpochDb → GoString → GoString
meta_value faults db key =
    if faults 0 then [] else elim (lookup key db.meta) [ none ↦ [] | some v ↦ v ]

-- `SetMeta`.
unfoldable pub set_meta : (ℕ → Bool) → EpochDb → GoString → GoString → SqlResult × EpochDb
set_meta faults db key value =
    if faults 0 then (failure, db) else (success, record db { meta = insert key value db.meta })

-- A transaction in a loop of statements: it goes on at the statement of that number, or one failed.
pub data Loop : Type 0 where
  going : ℕ → EpochDb → Loop
  broken : Loop
  stuck : Loop

-- The rest of the transaction, and its `Commit`; a deferred `Rollback` drops what was done.
abbrev pub commit : (ℕ → Bool) → EpochDb → Loop → SqlResult × EpochDb
commit faults db (going n work) = if faults n then (failure, db) else (success, work)
commit faults db broken = (failure, db)
commit faults db stuck = (out_of_fuel, db)

-- The rows of one multi-row `INSERT`, in order.
unfoldable pub insert_chunk : List ℕ → EpochDb → EpochDb
insert_chunk [] db = db
insert_chunk (s ∷ r) db = insert_chunk r (record db { slots = insert_slot s db.slots })

abbrev pub batch : ℕ
batch = 500

-- `for start := 0; start < len(slots); start += batch`.
unfoldable pub seed_loop : ℕ → (ℕ → Bool) → ℕ → List ℕ → ℕ → EpochDb → Loop
seed_loop zero faults n slots start db = stuck
seed_loop (suc fuel) faults n slots start db =
    let end = min (start + batch) (length slots) in
    let rest =
      seed_loop fuel faults (n + 1) slots (start + batch)
        (insert_chunk (slice slots start end) db) in
    if ltb start (length slots) then (if faults n then broken else rest) else going n db

-- `SeedSlots`.
unfoldable pub seed_slots : (ℕ → Bool) → EpochDb → List ℕ → SqlResult × EpochDb
seed_slots faults db [] = (success, db)
seed_slots faults db (s ∷ r) =
    if faults 0
    then (failure, db)
    else commit faults db (seed_loop (suc (length (s ∷ r))) faults 1 (s ∷ r) 0 db)

-- `PendingSlots`; `none` is an error.
unfoldable pub pending_slots : (ℕ → Bool) → EpochDb → Option (List ℕ)
pending_slots faults db = if faults 0 then none else some (order_slots (undone db.slots))

-- `Counts`: how many slots are done, and how many are known.
unfoldable pub counts : (ℕ → Bool) → EpochDb → ℕ × ℕ
counts faults db = if faults 0 then (0, 0) else (sum_done db.slots, count_slots db.slots)

-- `for _, l := range landings`.
unfoldable pub insert_loop : (ℕ → Bool) → ℕ → List Landing → EpochDb → Loop
insert_loop faults n [] db = going n db
insert_loop faults n (l ∷ r) db =
    let rest =
      insert_loop faults (n + 1) r (record db { landings = insert_landing l db.landings }) in
    if faults n then broken else rest

-- The `UPDATE` after the loop.
abbrev pub then_update : (ℕ → Bool) → ℕ → Loop → Loop
then_update faults slot (going n db) =
    if faults n then broken else going (n + 1) (record db { slots = update_done slot db.slots })
then_update faults slot broken = broken
then_update faults slot stuck = stuck

-- `WriteSlot`.
unfoldable pub write_slot : (ℕ → Bool) → EpochDb → ℕ → List Landing → SqlResult × EpochDb
unfolding insert_loop
write_slot faults db slot landings =
    if faults 0
    then (failure, db)
    else commit faults db (then_update faults slot (insert_loop faults 1 landings db))
