-- ===== src/Client/Sizes.antt =====
-- The pool of connections of backfill/oldfaithful.go is large enough for the workers of both phases.
use epochfill.Common.{ℕ, ◌<◌, ◌≤◌, arith}
use epochfill.Go.Word.{IsU64, i64_half, lt_i64}
use epochfill.Client.{new_client, client_for, slot_workers, worker_count}

-- For any values of the two flags, and a count of chunks to do below 2 ^ 63: `Run` has a worker for
-- the slots, and a connection for each of its workers; a download has a connection for each of its
-- workers, no more of them than chunks, and one at least if there is a chunk to do.
pub client_for_fits :
    (concurrency download_concurrency todo : ℕ)
    → IsU64 concurrency
    → IsU64 download_concurrency
    → todo < i64_half
    → (0 < slot_workers concurrency)
      × (slot_workers concurrency
          ≤ (client_for (slot_workers concurrency) download_concurrency).max_conns)
      × (worker_count
            (client_for (slot_workers concurrency) download_concurrency).download_concurrency
            todo
          ≤ (client_for (slot_workers concurrency) download_concurrency).max_conns)
      × (worker_count
            (client_for (slot_workers concurrency) download_concurrency).download_concurrency
            todo
          ≤ todo)
      × (0 < todo
          → 0
            < worker_count
                (client_for (slot_workers concurrency) download_concurrency).download_concurrency
                todo)
unfolding client_for slot_workers worker_count new_client lt_i64
client_for_fits concurrency download_concurrency todo hc hd ht = ground arith
