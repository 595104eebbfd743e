-- ===== src/Examples/Slots.antt =====
-- A call of `process` with one pending slot and one worker.
use epochfill.Common.{
  ◌+◌, length, List, suc, zero, ℕ, ◌≡◌, ◌≢◌, ◌<◌, refl, inl, true, false, some, [], ◌∷◌, elem,
  nat_equality, text_equality, arith, ◌⊎◌,
}
use epochfill.Go.Map.{lookup}
use epochfill.Store.{
  success, EpochDb, seed_slots, seed_loop, insert_chunk, set_meta, meta_value, write_slot,
  pending_slots,
}
use epochfill.Store.Table.{insert_slot, order_slots, order_slot}
use epochfill.Store.Resume.{AllPresent}
use epochfill.Store.History.{fresh}
use epochfill.Run.{meta_discovered, yes_text, discover, RunReach, first_run, run_on, discovery}
use epochfill.Run.Process.{
  waiting, reading, ready, sent, written, Process, first_slot_phase, process_start, to_phase,
  wrote_slot, ProcessReach, started, moved, feed, close_work, read_ends, deliver, write_ends,
  under_way, ProcessStep, ProcessEnded,
}
use epochfill.Run.Ending.{above, Moves}
use epochfill.Run.Live.{GoesOn, process_ends}
use epochfill.Run.Union.{union_all}
use epochfill.Run.Refines.{process_refines}
use epochfill.Store.Write.{write_slot_lem}
use epochfill.Store.Seed.{any_fault}
use epochfill.Store.SigSet.{sigs_of}
use epochfill.Landing.{Landing}
use epochfill.Run.Finished.{process_complete}
use epochfill.Examples.Database.{no_fault, rows_of}

abbrev pub found : EpochDb
found = (discover no_fault no_fault no_fault fresh (some (7 ∷ []))).1

pub one_run : (collected : ℕ → List Landing) → RunReach (7 ∷ []) collected found
one_run collected = run_on first_run (discovery no_fault no_fault no_fault)

pub flagged : lookup meta_discovered found.meta ≡ some yes_text
unfolding discover seed_slots seed_loop insert_chunk insert_slot set_meta meta_value meta_discovered
    yes_text
flagged = refl

pub empty_table : found.landings ≡ []
unfolding discover seed_slots seed_loop insert_chunk insert_slot set_meta meta_value meta_discovered
    yes_text
empty_table = refl

pub one_pending : pending_slots no_fault found ≡ some (7 ∷ [])
unfolding discover seed_slots seed_loop insert_chunk insert_slot set_meta meta_value meta_discovered
    yes_text pending_slots order_slots order_slot
one_pending = refl

abbrev pub feeding : Process
feeding = record (process_start 1 (7 ∷ []) found) {
  phase = to_phase 7 reading (first_slot_phase (7 ∷ []));
  free = 0;
}

abbrev pub offering : Process
offering = record feeding { phase = to_phase 7 ready feeding.phase }

abbrev pub sending : Process
sending = record offering { phase = to_phase 7 sent offering.phase; free = 1 }

no_earlier : (other : ℕ) → other < 7 → first_slot_phase (7 ∷ []) other ≢ waiting
unfolding first_slot_phase
no_earlier other h = ground arith

no_fault_none : (n k : ℕ) → any_fault no_fault n k ≡ false
no_fault_none n zero = refl
no_fault_none n (suc k) = no_fault_none (n + 1) k

-- The slot has any rows.
module _ (collected : ℕ → List Landing) where
  abbrev writing : Process
  writing = record sending {
    phase = to_phase 7 written sending.phase;
    slots_done = 1;
    db = (wrote_slot collected no_fault 7 sending).1;
  }

  abbrev pub at_end : Process
  at_end = record writing { fed = true }

  none_waits : (slot : ℕ) → writing.phase slot ≢ waiting
  unfolding first_slot_phase
  none_waits slot = ground arith

  all_quiet : (slot : ℕ) → under_way (at_end.phase slot) ≡ false
  unfolding first_slot_phase
  all_quiet slot = ground arith

  pub ended : ProcessEnded at_end
  ended = record { no_work = refl; quiet = all_quiet }

  write_succeeds : (db : EpochDb) → (write_slot no_fault db 7 (collected 7)).0 ≡ success
  write_succeeds db = rw (
    write_slot_lem no_fault db 7 (collected 7),
    no_fault_none 0 (suc (suc (suc (length (collected 7))))),
  )

  pub ran : ProcessReach collected 1 (7 ∷ []) found at_end
  unfolding first_slot_phase
  ran =
      moved
        (moved
          (moved (moved (moved started (feed 7 0 refl refl no_earlier refl)) (read_ends 7 refl))
            (deliver 7 refl))
          (write_ends no_fault 7 refl (write_succeeds found)))
        (close_work (inl none_waits))

process_complete_example :
    (pending_slots no_fault (at_end rows_of).db ≡ some [])
    × ((slot : ℕ)
        → elem slot (7 ∷ []) ≡ true
        → AllPresent (rows_of slot) (at_end rows_of).db.landings)
process_complete_example =
    process_complete (7 ∷ []) rows_of {s = at_end rows_of} 1 no_fault (one_run rows_of) flagged
      one_pending (ran rows_of) (ended rows_of) refl refl

process_refines_example :
    sigs_of (at_end rows_of).db.landings
    ≡ union_all rows_of (λ _. true) (7 ∷ []) (sigs_of found.landings)
process_refines_example =
    process_refines (7 ∷ []) rows_of {s = at_end rows_of} no_fault (one_run rows_of) one_pending
      (ran rows_of) (ended rows_of) refl refl

fed_one : ProcessReach rows_of 1 (7 ∷ []) found feeding
unfolding first_slot_phase
fed_one = moved started (feed 7 0 refl refl no_earlier refl)

process_ends_example :
    (ProcessEnded feeding ⊎ GoesOn rows_of (above (7 ∷ [])) 1 feeding)
    × ((s' : Process) → ProcessStep rows_of feeding s' → Moves rows_of (above (7 ∷ [])) feeding s')
process_ends_example =
    process_ends rows_of 1 {pending = 7 ∷ []} {db = found} {s = feeding} (omega arith) fed_one
