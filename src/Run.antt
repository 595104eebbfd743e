-- ===== src/Run.antt =====
-- `discover` of backfill/run.go, and a run as the calls that it makes on the database.
pub mod Complete
pub mod Process
pub mod Sane
pub mod Finished
pub mod Disk
pub mod Lifecycle
pub mod Ending
pub mod Exact
pub mod Union
pub mod Refines
pub mod Sound
pub mod Rows
pub mod EndToEnd
pub mod Signals
pub mod Live
pub mod Discovery
pub mod Files
pub mod Owned
pub mod Indexes
use epochfill.Common.{
  ℕ, Bool, Option, none, some, List, [], ◌∷◌, text_eq, text_equality, if◌then◌else◌,
}
use epochfill.Go.Text.{GoString, bytes_of}
use epochfill.Landing.{Landing}
use epochfill.Store.{
  EpochDb, SqlResult, success, failure, out_of_fuel, meta_value, set_meta, seed_slots, write_slot,
}
use epochfill.Store.History.{fresh}

unfoldable pub meta_discovered : GoString
meta_discovered = bytes_of "discovered"

unfoldable pub yes_text : GoString
yes_text = bytes_of "1"

-- `return db.SetMeta(...)` after `SeedSlots` returned a nil error.
abbrev pub after_seed : (ℕ → Bool) → SqlResult × EpochDb → SqlResult × EpochDb
after_seed faults (success, db) = set_meta faults db meta_discovered yes_text
after_seed faults (failure, db) = (failure, db)
after_seed faults (out_of_fuel, db) = (out_of_fuel, db)

-- `discoverSlots` is given by its result; `none` is an error.
abbrev pub with_slots : (ℕ → Bool) → (ℕ → Bool) → EpochDb → Option (List ℕ) → SqlResult × EpochDb
with_slots seed_faults set_faults db none = (failure, db)
with_slots seed_faults set_faults db (some slots) =
    after_seed set_faults (seed_slots seed_faults db slots)

-- The faults of the three calls on the database, in order.
unfoldable pub discover :
    (ℕ → Bool) → (ℕ → Bool) → (ℕ → Bool) → EpochDb → Option (List ℕ) → SqlResult × EpochDb
discover get_faults seed_faults set_faults db slots =
    if text_eq (meta_value get_faults db meta_discovered) yes_text
    then (success, db)
    else with_slots seed_faults set_faults db slots

-- Runs on one database, one after the other: `discover`, and then the writes of `process`, in any
-- order. Each call may be the last one of its run. Discovery fails, or finds the slots `wanted`;
-- `collected` is what reading a slot's block gives. (Rows that are read again differ in `ts`, which
-- no statement compares.)
module _ (wanted : List ℕ) (collected : ℕ → List Landing) where
  pub data RunStep (db : EpochDb) : EpochDb → Type 0 where
    discovery_failed : (f g h : ℕ → Bool) → RunStep db (discover f g h db none).1
    discovery : (f g h : ℕ → Bool) → RunStep db (discover f g h db (some wanted)).1
    slot_read : (f : ℕ → Bool) (slot : ℕ) → RunStep db (write_slot f db slot (collected slot)).1

  pub data RunReach : EpochDb → Type 0 where
    first_run : RunReach fresh
    run_on : {db db' : EpochDb} → RunReach db → RunStep db db' → RunReach db'
