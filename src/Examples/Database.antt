-- ===== src/Examples/Database.antt =====
-- A database with two rows and two slots, one of them with a failing statement on the way.
use epochfill.Common.{
  ℕ, suc, ◌≡◌, refl, Bool, true, false, some, ◌>>=◌, List, [], ◌∷◌, length, nat_eq, if◌then◌else◌,
  nat_equality, arith,
}
use epochfill.Go.Map.{Map, lookup}
use epochfill.Go.Text.{GoString, bytes_of}
use epochfill.Landing.{Landing, row, read_row, read_row-row}
use epochfill.Store.{
  EpochDb, success, failure, insert_chunk, seed_slots, write_slot, pending_slots, seed_loop,
  insert_loop,
}
use epochfill.Store.Table.{order_slots, insert_slot, update_done, order_slot}
use epochfill.Store.Slots.{IsTable}
use epochfill.Store.Seed.{any_fault, batches, seed_slots_lem}
use epochfill.Store.Write.{written, write_slot_lem}
use epochfill.Store.Resume.{AllPresent, write_slot_again}
use epochfill.Store.History.{fresh, Reach, start, later, seed, write, pending_slots_complete}

abbrev pub landing_of : GoString → Landing
landing_of s = record {
  sig = s;
  slot = 7;
  block_index = 3;
  block_tx_count = some 4;
  position_pct = some (300, 4);
  leader = [];
  leader_version = [];
  landed = true;
  fee_lamports = 5000;
  priority_fee_lamports = 0;
  sol_delta_lamports = 12;
  wsol_delta_lamports = 0;
  tip_lamports = 0;
  tip_lane = [];
  is_tip_leg = false;
  num_ix = 1;
  cu_consumed = 150;
  cost_units = 900;
  programs = [];
  ts = 1700000000;
}

read_row-row_example :
    (row (landing_of (bytes_of "a")) >>= read_row) ≡ some (landing_of (bytes_of "a"))
read_row-row_example = read_row-row (landing_of (bytes_of "a"))

abbrev pub no_fault : ℕ → Bool
no_fault n = false

abbrev pub third_fails : ℕ → Bool
third_fails n = nat_eq n 2

-- What is read from each slot.
abbrev pub rows_of : ℕ → List Landing
rows_of slot =
    if nat_eq slot 7 then landing_of (bytes_of "a") ∷ landing_of (bytes_of "b") ∷ [] else []

abbrev work : Map ℕ ℕ
work = (9, 0) ∷ (7, 1) ∷ (8, 0) ∷ []

work-IsTable : IsTable work
work-IsTable = (refl, omega arith, (refl, omega arith, (refl, omega arith, tt)))

seed_slots_lem_example : seed_slots no_fault fresh (9 ∷ 7 ∷ []) ≡ (
    if any_fault no_fault 0 (suc (suc (batches 2 0)))
    then (failure, fresh)
    else (success, insert_chunk (9 ∷ 7 ∷ []) fresh))
seed_slots_lem_example = seed_slots_lem no_fault fresh 9 (7 ∷ [])

write_slot_lem_example : write_slot third_fails fresh 7 (rows_of 7) ≡ (
    if any_fault third_fails 0 (suc (suc (suc (length (rows_of 7)))))
    then (failure, fresh)
    else (success, written 7 (rows_of 7) fresh))
write_slot_lem_example = write_slot_lem third_fails fresh 7 (rows_of 7)

wrote : write_slot no_fault fresh 7 (rows_of 7) ≡ (success, written 7 (rows_of 7) fresh)
wrote = write_slot_lem no_fault fresh 7 (rows_of 7)

write_slot_again_example :
    (write_slot third_fails (written 7 (rows_of 7) fresh) 7 (rows_of 7)).1
    ≡ written 7 (rows_of 7) fresh
write_slot_again_example =
    write_slot_again no_fault third_fails fresh (written 7 (rows_of 7) fresh) 7 (rows_of 7) wrote

-- Two slots are seeded, one write of slot 7 fails, and the next succeeds.
abbrev after_seed : EpochDb
after_seed = (seed_slots no_fault fresh (9 ∷ 7 ∷ [])).1

abbrev after_failure : EpochDb
after_failure = (write_slot third_fails after_seed 7 (rows_of 7)).1

abbrev after_write : EpochDb
after_write = (write_slot no_fault after_failure 7 (rows_of 7)).1

run : Reach rows_of after_write
run =
    later (later (later start (seed no_fault (9 ∷ 7 ∷ []))) (write third_fails 7))
      (write no_fault 7)

still_pending : pending_slots no_fault after_write ≡ some (9 ∷ [])
unfolding pending_slots seed_slots write_slot insert_chunk insert_slot update_done order_slot
    order_slots seed_loop insert_loop
still_pending = refl

marked_done : lookup 7 after_write.slots ≡ some 1
unfolding seed_slots write_slot insert_chunk insert_slot update_done seed_loop insert_loop
marked_done = refl

pending_slots_complete_example : AllPresent (rows_of 7) after_write.landings
pending_slots_complete_example =
    pending_slots_complete rows_of no_fault (9 ∷ []) 7 run still_pending (rw marked_done (λ p. cc))
      refl
