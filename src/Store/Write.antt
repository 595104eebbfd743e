-- ===== src/Store/Write.antt =====
-- `WriteSlot` commits all of a slot or nothing of it, and may be repeated.
use epochfill.Common.{
  ℕ, suc, ◌+◌, ◌≡◌, ◌∙◌, ap, Bool, ◌||◌, List, [], ◌∷◌, length, if◌then◌else◌, arith, text_equality,
  nat_equality,
}
use native.Mathlib.Nat.{add-zero}
use epochfill.Landing.{Landing}
use epochfill.Store.Table.{insert_landing, update_done}
use epochfill.Store.Seed.{any_fault, any_fault_last, later}
use epochfill.Store.{EpochDb, SqlResult, success, failure, going, broken, insert_loop, write_slot}

-- The rows of a slot, inserted one after the other.
abbrev pub insert_landings : List Landing → List Landing → List Landing
insert_landings [] rows = rows
insert_landings (l ∷ r) rows = insert_landings r (insert_landing l rows)

insert_loop_lem :
    (faults : ℕ → Bool) (n : ℕ) (ls : List Landing) (db : EpochDb)
    → insert_loop faults n ls db ≡ (
        if any_fault faults n (length ls)
        then broken
        else going (n + length ls) (record db { landings = insert_landings ls db.landings }))
unfolding insert_loop
insert_loop_lem faults n [] db = rw add-zero
insert_loop_lem faults n (l ∷ r) db =
    rw (insert_loop_lem faults (n + 1) r (record db { landings = insert_landing l db.landings })) (
      later (faults n) (any_fault faults (n + 1) (length r)) n (length r)
        (record db { landings = insert_landings r (insert_landing l db.landings) }))

last_two :
    (faults : ℕ → Bool) (k : ℕ)
    → any_fault faults 1 (suc (suc k))
      ≡ (any_fault faults 1 k || faults (1 + k) || faults (1 + k + 1))
last_two faults k = any_fault_last faults 1 (suc k) ∙ rw (any_fault_last faults 1 k, shift)
  where
    shift : 1 + suc k ≡ 1 + k + 1
    shift = omega arith

-- The database after the slot is written.
abbrev pub written : ℕ → List Landing → EpochDb → EpochDb
written slot ls db = record db {
  landings = insert_landings ls db.landings;
  slots = update_done slot db.slots;
}

-- Whatever fails: if `Begin`, an insert, the update or the `Commit` fails, the database is
-- unchanged and an error is returned; otherwise all rows are inserted and the slot is marked.
pub write_slot_lem :
    (faults : ℕ → Bool) (db : EpochDb) (slot : ℕ) (ls : List Landing)
    → write_slot faults db slot ls ≡ (
        if any_fault faults 0 (suc (suc (suc (length ls))))
        then (failure, db)
        else (success, written slot ls db))
unfolding write_slot
write_slot_lem faults db slot ls =
    rw
      (
        insert_loop_lem faults 1 ls db,
        ap {B = SqlResult × EpochDb}
            (λ b. if faults 0 || b then (failure, db) else (success, written slot ls db))
            (last_two faults (length ls)),
      )
      (ground arith)
