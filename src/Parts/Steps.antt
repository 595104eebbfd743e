-- ===== src/Parts/Steps.antt =====
-- A download with its sidecar, interrupted anywhere: the workers of `runChunks` and
-- `DownloadResumable` of backfill/oldfaithful.go as steps on the sidecar and the disk. The data file
-- is not touched by others, and the object keeps its size, so the number of chunks is the same.
use epochfill.Common.{
  ℕ, ◌≡◌, Bool, true, false, Option, none, some, List, nat_eq, if◌then◌else◌, nat_equality,
}
use epochfill.Parts.{
  PartsFile, Disk, FileRead, missing, contents, opened, open_parts, mark_done, WriteEnd, flush,
  maybe_flush, close,
}
use epochfill.Parts.Claims.{claims}

abbrev pub reading : Option (List ℕ) → FileRead
reading none = missing
reading (some l) = contents l

abbrev pub put : ℕ → Bool → (ℕ → Bool) → ℕ → Bool
put i b f j = if nat_eq i j then b else f j

-- The disk, and the sidecar of the download that runs, if one does.
pub record System : Type 0 where
  pub disk : Disk
  pub process : Option PartsFile

abbrev pub running : PartsFile → Disk → System
running p d = record { disk = d; process = some p }

abbrev pub stopped : Disk → System
stopped d = record { disk = d; process = none }

abbrev pub blank : System
blank = stopped (record { written = λ i. false; durable = λ i. false; sidecar = none })

module _ (n : ℕ) where
  -- `store` is `WriteAt` of a chunk that was to do, whether it ends well or not, and `mark` follows
  -- one that did. The operating system writes back when it likes (`settle`). After a crash, a chunk
  -- that was not synced is there or not.
  pub data Step : System → System → Type 0 where
    start :
        {d : Disk} {p : PartsFile} {side : Option (List ℕ)} (remove_fails : Bool)
        → open_parts remove_fails (reading d.sidecar) n ≡ opened p side
        → Step (stopped d) (running p (record d { sidecar = side }))
    store :
        {d : Disk} {p : PartsFile} (i : ℕ) (b : Bool)
        → claims p.state i ≡ false
        → Step
            (running p d)
            (running p (record d { written = put i b d.written; durable = put i false d.durable }))
    mark :
        {d : Disk} {p : PartsFile} (i : ℕ)
        → d.written i ≡ true
        → Step (running p d) (running (mark_done i p) d)
    settle :
        {d : Disk} {p : PartsFile} (i : ℕ)
        → d.written i ≡ true
        → Step (running p d) (running p (record d { durable = put i true d.durable }))
    flush_maybe :
        {d : Disk} {p : PartsFile} (sync_ok : Bool) (end : WriteEnd)
        → Step
            (running p d)
            (running (maybe_flush sync_ok end p d).1 (maybe_flush sync_ok end p d).2)
    flush_last :
        {d : Disk} {p : PartsFile} (sync_ok : Bool) (end : WriteEnd)
        → Step (running p d) (running (flush sync_ok end p d).1 (flush sync_ok end p d).2)
    finish :
        {d : Disk} {p : PartsFile} (remove_fails : Bool)
        → Step (running p d) (stopped (close remove_fails p d).1)
    crash :
        {d : Disk} {process : Option PartsFile} (left : ℕ → Bool)
        → ((i : ℕ) → d.durable i ≡ true → left i ≡ true)
        → ((i : ℕ) → left i ≡ true → d.written i ≡ true)
        → Step
            (record { disk = d; process = process })
            (stopped (record d { written = left; durable = left }))

  pub data Reach : System → Type 0 where
    begin : Reach blank
    next : {s s' : System} → Reach s → Step s s' → Reach s'
