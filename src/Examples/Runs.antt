-- ===== src/Examples/Runs.antt =====
-- Two runs of one backfill, and a small history of signatures.
use epochfill.Common.{◌≡◌, refl, some, [], ◌∷◌, nat_equality, text_equality}
use epochfill.Go.Map.{lookup}
use epochfill.Store.{
  EpochDb, seed_slots, seed_loop, insert_chunk, set_meta, meta_value, write_slot, insert_loop,
  pending_slots,
}
use epochfill.Store.Table.{insert_slot, update_done, order_slots}
use epochfill.Store.Resume.{AllPresent}
use epochfill.Store.History.{fresh}
use epochfill.Run.{
  meta_discovered, yes_text, discover, RunReach, first_run, run_on, discovery, slot_read,
}
use epochfill.Run.Complete.{run_complete}
use epochfill.Examples.Database.{no_fault, third_fails, rows_of}

abbrev found : EpochDb
found = (discover no_fault no_fault no_fault fresh (some (7 ∷ []))).1

abbrev tried : EpochDb
tried = (write_slot third_fails found 7 (rows_of 7)).1

abbrev resumed : EpochDb
resumed = (discover no_fault no_fault no_fault tried (some (7 ∷ []))).1

abbrev finished : EpochDb
finished = (write_slot no_fault resumed 7 (rows_of 7)).1

two_runs : RunReach (7 ∷ []) rows_of finished
two_runs =
    run_on
      (run_on
        (run_on (run_on first_run (discovery no_fault no_fault no_fault)) (slot_read third_fails 7))
        (discovery no_fault no_fault no_fault))
      (slot_read no_fault 7)

flagged : lookup meta_discovered finished.meta ≡ some yes_text
unfolding discover seed_slots seed_loop insert_chunk insert_slot set_meta meta_value write_slot
    insert_loop update_done meta_discovered yes_text
flagged = refl

none_left : pending_slots no_fault finished ≡ some []
unfolding discover seed_slots seed_loop insert_chunk insert_slot set_meta meta_value write_slot
    insert_loop update_done meta_discovered yes_text pending_slots order_slots
none_left = refl

run_complete_example : AllPresent (rows_of 7) finished.landings
run_complete_example = run_complete (7 ∷ []) rows_of no_fault 7 two_runs flagged none_left refl
