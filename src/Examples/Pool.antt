-- ===== src/Examples/Pool.antt =====
-- A download of one chunk by one worker.
use epochfill.Common.{
  ℕ, zero, suc, ◌<◌, ◌≤◌, ◌+◌, ◌*◌, ◌≡◌, ◌≢◌, ◌⊎◌, refl, inl, Bool, true, false, Option, none, List,
  [], ◌∷◌, elem, nat_equality, arith,
}
use epochfill.Go.Word.{lt_i64}
use epochfill.Parts.{
  PartsFile, Disk, opened, new_parts, open_parts, pending, pending_from, mark_done, whole, flush,
  maybe_flush, close,
}
use epochfill.Parts.Steps.{reading, running, start, Reach, begin, next}
use epochfill.Download.{
  chunk_count, chunk_size, chunks_result, first_phase, queued, fetching, stored, marked, finished,
  download_chunk,
}
use epochfill.Download.Pool.{
  Pool, PoolStep, Ended, initial, PoolReach, started, moved, send, close_jobs, chunk_written,
  chunk_marked, chunk_flushed, in_flight, set_phase, wrote,
}
use epochfill.Download.Ending.{Moves}
use epochfill.Download.Live.{GoesOn, download_ends}
use epochfill.Download.Result.{download_complete, download_again, chunks_tile}

abbrev empty_disk : Disk
empty_disk = record { written = λ i. false; durable = λ i. false; sidecar = none }

opened_one : open_parts false (reading none) 1 ≡ opened (new_parts 1) none
unfolding open_parts
opened_one = refl

begun : Reach 1 (running (new_parts 1) empty_disk)
begun = next begin (start {side = none} false opened_one)

abbrev sending : Pool
sending = record (initial 1 (new_parts 1) empty_disk) {
  phase = set_phase 0 fetching (first_phase (new_parts 1));
  free = 0;
}

abbrev writing : Pool
writing = record sending {
  phase = set_phase 0 stored sending.phase;
  disk = wrote 0 true sending.disk;
}

abbrev marking : Pool
marking = record writing {
  phase = set_phase 0 marked writing.phase;
  parts = mark_done 0 writing.parts;
}

abbrev flushing : Pool
flushing = record marking {
  phase = set_phase 0 finished marking.phase;
  free = 1;
  parts = (maybe_flush true whole marking.parts marking.disk).1;
  disk = (maybe_flush true whole marking.parts marking.disk).2;
}

abbrev at_end : Pool
at_end = record flushing { closed = true }

none_waits : (i : ℕ) → i < 1 → flushing.phase i ≢ queued
none_waits zero h = λ e. cc
none_waits (suc i) h = absurd (omega arith)

ran : PoolReach 1 1 (new_parts 1) empty_disk at_end
unfolding first_phase pending_from maybe_flush mark_done lt_i64
ran =
    moved
      (moved
        (moved
          (moved (moved started (send 0 0 refl refl (λ j h. absurd (omega arith)) refl))
            (chunk_written 0 refl))
          (chunk_marked 0 refl))
        (chunk_flushed 0 true whole refl refl))
      (close_jobs (inl none_waits))

all_idle : (i : ℕ) → i < 1 → in_flight (at_end.phase i) ≡ false
all_idle zero h = refl
all_idle (suc i) h = absurd (omega arith)

abbrev closing : Bool × PartsFile × Disk
closing = flush true whole at_end.parts at_end.disk

nil : chunks_result closing.0 at_end.parent_done at_end.errs ≡ none
unfolding chunks_result flush maybe_flush mark_done lt_i64
nil = refl

download_complete_example :
    (closing.2.written 0 ≡ true)
    × (closing.2.durable 0 ≡ true)
    × (elem 0 (pending closing.1) ≡ false)
download_complete_example =
    download_complete 1 (omega arith) {s = at_end} 1 true whole 0 begun ran
      (record { no_jobs = refl; idle = all_idle }) nil (omega arith)

download_again_example :
    (q : PartsFile) × (side : Option (List ℕ)) × (open_parts false
        (reading (close false (record { state = 1 ∷ []; dirty = 0 }) empty_disk).1.sidecar)
        1
      ≡ opened q side)
    × (elem 0 (pending q) ≡ true)
download_again_example =
    download_again 1 0 (record { state = 1 ∷ []; dirty = 0 }) empty_disk false refl (omega arith)

chunks_tile_example :
    (idx : ℕ) × (idx < chunk_count 33554433)
    × (idx * download_chunk ≤ 33554432)
    × (33554432 < idx * download_chunk + chunk_size 33554433 idx)
    × (chunk_size 33554433 idx ≤ download_chunk)
    × (idx * download_chunk + chunk_size 33554433 idx ≤ 33554433)
    × ((other : ℕ)
        → other < chunk_count 33554433
        → other * download_chunk ≤ 33554432
        → 33554432 < other * download_chunk + chunk_size 33554433 other
        → other ≡ idx)
chunks_tile_example = chunks_tile 33554433 33554432 (omega arith) (omega arith)

sent_one : PoolReach 1 1 (new_parts 1) empty_disk sending
unfolding first_phase pending_from
sent_one = moved started (send 0 0 refl refl (λ j h. absurd (omega arith)) refl)

download_ends_example :
    (Ended 1 sending ⊎ GoesOn 1 sending)
    × ((s' : Pool) → PoolStep 1 sending s' → Moves 1 sending s')
download_ends_example = download_ends 1 1 {s = sending} (omega arith) (omega arith) begun sent_one
