-- ===== src/Download/Pool.antt =====
-- The steps of `runChunks` of backfill/oldfaithful.go: one for each action of the dispatcher and of
-- a worker.
use epochfill.Common.{
  ℕ, suc, ◌<◌, ◌≡◌, ◌≢◌, ◌⊎◌, Bool, true, false, List, [], ◌∷◌, ◌++◌, nat_eq, if◌then◌else◌,
}
use epochfill.Parts.{PartsFile, Disk, mark_done, WriteEnd, maybe_flush}
use epochfill.Parts.Steps.{put}
use epochfill.Download.{
  ChunkError, read_failed, write_failed, flush_failed, Phase, queued, fetching, stored, marked,
  finished, lost, first_phase,
}

-- `free` workers wait for a job. `closed`: the dispatcher has left its loop. `stopping` and
-- `parent_done` are the derived and the caller's context.
pub record Pool : Type 0 where
  pub phase : ℕ → Phase
  pub free : ℕ
  pub closed : Bool
  pub stopping : Bool
  pub parent_done : Bool
  pub errs : List ChunkError
  pub parts : PartsFile
  pub disk : Disk

abbrev pub set_phase : ℕ → Phase → (ℕ → Phase) → ℕ → Phase
set_phase i ph f j = if nat_eq i j then ph else f j

-- `errs <- e; cancel(); return`
abbrev pub give_up : ℕ → ChunkError → Pool → Pool
give_up i e s = record s {
  phase = set_phase i lost s.phase;
  stopping = true;
  errs = s.errs ++ (e ∷ []);
}

abbrev pub wrote : ℕ → Bool → Disk → Disk
wrote i b d = record d { written = put i b d.written; durable = put i false d.durable }

abbrev pub initial : ℕ → PartsFile → Disk → Pool
initial workers p d = record {
  phase = first_phase p;
  free = workers;
  closed = false;
  stopping = false;
  parent_done = false;
  errs = [];
  parts = p;
  disk = d;
}

pub data PoolStep (n : ℕ) (s : Pool) : Pool → Type 0 where
  -- `jobs <- idx`, in the order of `todo`
  send :
      (i k : ℕ)
      → s.closed ≡ false
      → s.phase i ≡ queued
      → ((j : ℕ) → j < i → s.phase j ≢ queued)
      → s.free ≡ suc k
      → PoolStep n s (record s { phase = set_phase i fetching s.phase; free = k })
  -- the loop has run out of chunks, or a context is done
  close_jobs :
      ((i : ℕ) → i < n → s.phase i ≢ queued) ⊎ ((s.stopping ≡ true) ⊎ (s.parent_done ≡ true))
      → PoolStep n s (record s { closed = true })
  interrupt : PoolStep n s (record s { parent_done = true })
  read_error : (i : ℕ) → s.phase i ≡ fetching → PoolStep n s (give_up i (read_failed i) s)
  -- a write that fails leaves the chunk right or wrong
  write_error :
      (i : ℕ) (b : Bool)
      → s.phase i ≡ fetching
      → PoolStep n s (give_up i (write_failed i) (record s { disk = wrote i b s.disk }))
  chunk_written :
      (i : ℕ)
      → s.phase i ≡ fetching
      → PoolStep n s (record s { phase = set_phase i stored s.phase; disk = wrote i true s.disk })
  chunk_marked :
      (i : ℕ)
      → s.phase i ≡ stored
      → PoolStep n s (record s { phase = set_phase i marked s.phase; parts = mark_done i s.parts })
  flush_error :
      (i : ℕ) (sync_ok : Bool) (end : WriteEnd)
      → s.phase i ≡ marked
      → (maybe_flush sync_ok end s.parts s.disk).0 ≡ false
      → PoolStep n s (
          give_up i flush_failed (record s {
            parts = (maybe_flush sync_ok end s.parts s.disk).1;
            disk = (maybe_flush sync_ok end s.parts s.disk).2;
          }))
  chunk_flushed :
      (i : ℕ) (sync_ok : Bool) (end : WriteEnd)
      → s.phase i ≡ marked
      → (maybe_flush sync_ok end s.parts s.disk).0 ≡ true
      → PoolStep n s (record s {
        phase = set_phase i finished s.phase;
        free = suc s.free;
        parts = (maybe_flush sync_ok end s.parts s.disk).1;
        disk = (maybe_flush sync_ok end s.parts s.disk).2;
      })

pub data PoolReach (n workers : ℕ) (p : PartsFile) (d : Disk) : Pool → Type 0 where
  started : PoolReach n workers p d (initial workers p d)
  moved : {s s' : Pool} → PoolReach n workers p d s → PoolStep n s s' → PoolReach n workers p d s'

-- A worker holds the chunk.
abbrev pub in_flight : Phase → Bool
in_flight fetching = true
in_flight stored = true
in_flight marked = true
in_flight _ = false

-- After `wg.Wait()`: the jobs are closed and no worker holds a chunk.
pub record Ended (n : ℕ) (s : Pool) : Type 0 where
  pub no_jobs : s.closed ≡ true
  pub idle : (i : ℕ) → i < n → in_flight (s.phase i) ≡ false
