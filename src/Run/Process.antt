-- ===== src/Run/Process.antt =====
-- `process` of backfill/run.go: the feeder of the slots, the workers that read them, the writer, and
-- the way they stop. A slot is followed through its phases. `collected` is what reading a slot's
-- block and `collect` give.
use epochfill.Common.{
  ℕ, suc, ◌<◌, ◌≡◌, ◌≢◌, ◌⊎◌, Bool, true, false, List, elem, nat_eq, nat_equality, if◌then◌else◌,
}
use epochfill.Landing.{Landing}
use epochfill.Store.{EpochDb, SqlResult, success, write_slot}

-- `ready` is a slot whose result the worker offers, `sent` one that the writer has taken.
-- `dropped` is one whose worker has returned since the context is done.
pub data SlotPhase : Type 0 where
  outside waiting reading ready sent written failed dropped : SlotPhase

-- `free` workers wait for a slot. `fed`: the feeder has returned, and `work` is closed.
pub record Process : Type 0 where
  pub phase : ℕ → SlotPhase
  pub free : ℕ
  pub fed : Bool
  pub cancelled : Bool
  pub slots_done : ℕ
  pub failures : ℕ
  pub db : EpochDb

unfoldable pub first_slot_phase : List ℕ → ℕ → SlotPhase
first_slot_phase pending slot = if elem slot pending then waiting else outside

abbrev pub process_start : ℕ → List ℕ → EpochDb → Process
process_start workers pending db = record {
  phase = first_slot_phase pending;
  free = workers;
  fed = false;
  cancelled = false;
  slots_done = 0;
  failures = 0;
  db = db;
}

abbrev pub to_phase : ℕ → SlotPhase → (ℕ → SlotPhase) → ℕ → SlotPhase
to_phase slot ph f other = if nat_eq slot other then ph else f other

module _ (collected : ℕ → List Landing) where
  -- `db.WriteSlot(res.slot, res.landings)`
  abbrev pub wrote_slot : (ℕ → Bool) → ℕ → Process → SqlResult × EpochDb
  wrote_slot faults slot s = write_slot faults s.db slot (collected slot)

  pub data ProcessStep (s : Process) : Process → Type 0 where
    -- `work <- s`, the slots ascending
    feed :
        (slot k : ℕ)
        → s.fed ≡ false
        → s.phase slot ≡ waiting
        → ((other : ℕ) → other < slot → s.phase other ≢ waiting)
        → s.free ≡ suc k
        → ProcessStep s (record s { phase = to_phase slot reading s.phase; free = k })
    close_work :
        ((slot : ℕ) → s.phase slot ≢ waiting) ⊎ (s.cancelled ≡ true)
        → ProcessStep s (record s { fed = true })
    cancel : ProcessStep s (record s { cancelled = true })
    read_fails :
        (slot : ℕ)
        → s.phase slot ≡ reading
        → ProcessStep s (record s {
          phase = to_phase slot failed s.phase;
          free = suc s.free;
          failures = suc s.failures;
        })
    read_ends :
        (slot : ℕ)
        → s.phase slot ≡ reading
        → ProcessStep s (record s { phase = to_phase slot ready s.phase })
    deliver :
        (slot : ℕ)
        → s.phase slot ≡ ready
        → ProcessStep s (record s { phase = to_phase slot sent s.phase; free = suc s.free })
    give_way :
        (slot : ℕ)
        → s.phase slot ≡ ready
        → s.cancelled ≡ true
        → ProcessStep s (record s { phase = to_phase slot dropped s.phase })
    write_ends :
        (faults : ℕ → Bool) (slot : ℕ)
        → s.phase slot ≡ sent
        → (wrote_slot faults slot s).0 ≡ success
        → ProcessStep s (record s {
          phase = to_phase slot written s.phase;
          slots_done = suc s.slots_done;
          db = (wrote_slot faults slot s).1;
        })
    write_fails :
        (faults : ℕ → Bool) (slot : ℕ)
        → s.phase slot ≡ sent
        → (wrote_slot faults slot s).0 ≢ success
        → ProcessStep s (record s {
          phase = to_phase slot failed s.phase;
          failures = suc s.failures;
          db = (wrote_slot faults slot s).1;
        })

  pub data ProcessReach (workers : ℕ) (pending : List ℕ) (db : EpochDb) : Process → Type 0 where
    started : ProcessReach workers pending db (process_start workers pending db)
    moved :
        {s s' : Process}
        → ProcessReach workers pending db s
        → ProcessStep s s'
        → ProcessReach workers pending db s'

abbrev pub under_way : SlotPhase → Bool
under_way reading = true
under_way ready = true
under_way sent = true
under_way _ = false

-- After the loop over `results`: the feeder and the workers have returned, and every result that
-- was sent is dealt with.
pub record ProcessEnded (s : Process) : Type 0 where
  pub no_work : s.fed ≡ true
  pub quiet : (slot : ℕ) → under_way (s.phase slot) ≡ false

-- `return ctx.Err()`: true is nil.
abbrev pub process_ok : Process → Bool
process_ok s = if s.cancelled then false else true
