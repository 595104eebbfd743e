-- ===== src/Parts.antt =====
-- backfill/parts.go: the sidecar of a download, one byte for each chunk. The mutex makes each method
-- one step. What is on disk is two facts for each chunk, whether the file has the chunk's bytes and
-- whether it would still have them after a crash, and the bytes of the sidecar.
pub mod Claims
pub mod Steps
pub mod Open
pub mod Crash
use epochfill.Common.{
  ℕ, zero, suc, ◌+◌, Bool, true, false, not, ◌||◌, Option, none, some, List, [], ◌∷◌, length, take,
  get_or, set, replicate, all_of, ltb, leb, nat_eq, if◌then◌else◌,
}
use epochfill.Go.Word.{lt_i64}

pub record PartsFile : Type 0 where
  pub state : List ℕ
  pub dirty : ℕ

pub record Disk : Type 0 where
  pub written : ℕ → Bool
  pub durable : ℕ → Bool
  pub sidecar : Option (List ℕ)

abbrev pub sync_every : ℕ
sync_every = 16

-- What `os.ReadFile` returns of the sidecar.
pub data FileRead : Type 0 where
  missing unreadable : FileRead
  contents : List ℕ → FileRead

-- The sidecar in memory, and what is then on disk of it; or an error.
pub data Opened : Type 0 where
  opened : PartsFile → Option (List ℕ) → Opened
  open_failed : Opened

abbrev pub new_parts : ℕ → PartsFile
new_parts n = record { state = replicate n 0; dirty = 0 }

-- `openParts`; `remove_fails` is the error of `os.Remove`.
unfoldable pub open_parts : Bool → FileRead → ℕ → Opened
open_parts remove_fails missing n = opened (new_parts n) none
open_parts remove_fails unreadable n = open_failed
open_parts remove_fails (contents existing) n =
    if nat_eq (length existing) n
    then opened (record { state = existing; dirty = 0 }) (some existing)
    else if remove_fails
    then open_failed
    else opened (new_parts n) none

-- `for i, b := range p.state`, from index `i` on.
unfoldable pub pending_from : List ℕ → ℕ → List ℕ
pending_from [] i = []
pending_from (b ∷ r) i = if nat_eq b 0 then i ∷ pending_from r (suc i) else pending_from r (suc i)

abbrev pub pending : PartsFile → List ℕ
pending p = pending_from p.state 0

unfoldable pub mark_done : ℕ → PartsFile → PartsFile
mark_done idx p =
    if lt_i64 idx 0 || (leb (length p.state) idx || nat_eq (get_or p.state idx 0) 1)
    then p
    else record { state = set p.state idx 1; dirty = p.dirty + 1 }

-- How `os.WriteFile` ends: it truncates the file when it opens it, and may break off after some
-- bytes.
pub data WriteEnd : Type 0 where
  whole not_opened : WriteEnd
  cut : ℕ → WriteEnd

abbrev pub synced : Disk → Disk
synced d = record d { durable = d.written }

-- `flushLocked`: whether the error is nil, the sidecar in memory, and the disk. The data file is
-- never nil where it is called.
unfoldable pub flush : Bool → WriteEnd → PartsFile → Disk → Bool × PartsFile × Disk
flush false end p d = (false, p, d)
flush true whole p d = (true, record p { dirty = 0 }, record (synced d) { sidecar = some p.state })
flush true not_opened p d = (false, p, synced d)
flush true (cut k) p d = (false, p, record (synced d) { sidecar = some (take k p.state) })

unfoldable pub maybe_flush : Bool → WriteEnd → PartsFile → Disk → Bool × PartsFile × Disk
maybe_flush sync_ok end p d = if ltb p.dirty sync_every then (true, p, d) else flush sync_ok end p d

-- `Close`.
unfoldable pub close : Bool → PartsFile → Disk → Bool × Disk
close remove_fails p d =
    if not (all_of (λ b. not (nat_eq b 0)) p.state)
    then (true, d)
    else if remove_fails
    then (false, d)
    else (true, record d { sidecar = none })
