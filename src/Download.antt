-- ===== src/Download.antt =====
-- `DownloadResumable` and `runChunks` of backfill/oldfaithful.go: the dispatcher, the workers, the
-- channel of errors, and the way they stop. A chunk is followed through its phases; the sidecar and
-- the disk are those of `Parts`.
pub mod Pool
pub mod Marks
pub mod Complete
pub mod Result
pub mod Ending
pub mod Live
use epochfill.Common.{
  ℕ, zero, suc, ◌+◌, ◌-◌, ◌*◌, ◌/◌, Bool, true, false, not, Option, none, some, List, [], ◌∷◌, ltb,
  elem, nat_eq, nat_equality, if◌then◌else◌,
}
use epochfill.Go.Word.{add64, sub64, mul64, div_i64, lt_i64}
use epochfill.Parts.{PartsFile, pending}

-- 32 MiB
abbrev pub download_chunk : ℕ
download_chunk = 33554432

-- `int((total + downloadChunk - 1) / downloadChunk)`; the size is an `int64`, which may be negative.
unfoldable pub chunk_count : ℕ → ℕ
chunk_count total = div_i64 (sub64 (add64 total download_chunk) 1) download_chunk

-- The bytes of chunk `idx`: `n` of the worker's loop.
unfoldable pub chunk_size : ℕ → ℕ → ℕ
chunk_size total idx =
    let rem = sub64 total (mul64 idx download_chunk) in
    if lt_i64 rem download_chunk then rem else download_chunk

-- What is sent to `errs`.
pub data ChunkError : Type 0 where
  read_failed write_failed : ℕ → ChunkError
  flush_failed : ChunkError

-- `lost` is a chunk whose worker has ended with an error; `kept` is one that was not to do.
pub data Phase : Type 0 where
  kept queued fetching stored marked finished lost : Phase

-- What `runChunks` starts with: the chunks that `pending` lists are to do.
unfoldable pub first_phase : PartsFile → ℕ → Phase
first_phase p i = if elem i (pending p) then queued else kept

pub data DownloadError : Type 0 where
  last_flush_failed cancelled : DownloadError
  chunk_failed : ChunkError → DownloadError

-- `<-errs`: nil if the channel is empty, since it is closed.
abbrev pub first_error : List ChunkError → Option DownloadError
first_error [] = none
first_error (e ∷ _) = some (chunk_failed e)

-- The end of `runChunks`, after the last flush; `none` is nil.
unfoldable pub chunks_result : Bool → Bool → List ChunkError → Option DownloadError
chunks_result flush_ok parent_done errs =
    if not flush_ok
    then some last_flush_failed
    else if parent_done
    then some cancelled
    else first_error errs
