-- ===== src/Run/Lifecycle.antt =====
-- `Run` of backfill/run.go from end to end, with the index files of backfill/index.go, and the exit
-- code of main.go. `Calls` has the results of what is called outside; the files are those in the
-- index directory.
use epochfill.Common.{
  ℕ, Bool, false, not, Option, none, some, List, [], ◌∷◌, nat_eq, text_eq, ◌==◌, text_equality,
  if◌then◌else◌,
}
use epochfill.Go.Text.{GoString}
use epochfill.Store.{EpochDb, SqlResult, success, failure, out_of_fuel, pending_slots, meta_value}
use epochfill.Signatures.{Discovered}
use epochfill.Run.{discover, meta_discovered, yes_text}
use epochfill.Run.Disk.{
  FetchEnd, fetch, remove_file, slot_to_cid, cid_to_offset, index_path, gsfa_root, GsfaCalls,
  open_index, release,
}
use epochfill.Run.Discovery.{discover_slots}
use epochfill.Run.Process.{Process}

-- What `OpenIndexes` returns: the error, or the paths that `Cleanup` is to remove.
pub data OpenResult : Type 0 where
  not_opened : Bool → OpenResult
  indexes : List GoString → OpenResult

abbrev pub opened_both : Bool → Bool → GoString → GoString → OpenResult
opened_both first_opens second_opens slot_path offset_path =
    if not first_opens
    then not_opened false
    else if not second_opens
    then not_opened false
    else indexes (slot_path ∷ (offset_path ∷ []))

abbrev pub after_second : OpenResult → Option Bool × List GoString → OpenResult × List GoString
after_second opened (some canceled, files) = (not_opened canceled, files)
after_second opened (none, files) = (opened, files)

abbrev pub fetch_second :
    FetchEnd
    → Bool
    → Bool
    → GoString
    → GoString
    → Option Bool × List GoString
    → OpenResult × List GoString
fetch_second end first_opens second_opens slot_path offset_path (some canceled, files) =
    (not_opened canceled, files)
fetch_second end first_opens second_opens slot_path offset_path (none, files) =
    after_second (opened_both first_opens second_opens slot_path offset_path)
      (fetch end offset_path files)

-- `OpenIndexes`
unfoldable pub open_indexes :
    FetchEnd
    → FetchEnd
    → Bool
    → Bool
    → GoString
    → GoString
    → List GoString
    → OpenResult × List GoString
open_indexes slot_end offset_end first_opens second_opens slot_path offset_path files =
    fetch_second offset_end first_opens second_opens slot_path offset_path
      (fetch slot_end slot_path files)

-- `Cleanup`; `fails` says which paths `os.Remove` fails on.
unfoldable pub cleanup : (GoString → Bool) → List GoString → List GoString → List GoString
cleanup fails [] files = files
cleanup fails (path ∷ paths) files =
    cleanup fails paths (if fails path then files else remove_file path files)

-- The parts of the configuration that decide which calls are made.
pub record Config : Type 0 where
  pub epoch : ℕ
  pub index_dir : GoString
  pub keep_indexes : Bool

-- `gsfa` and `located` are what the address index gives, `refs` what `DiscoverSignatures`
-- returns; `process` gives the state in which `process` ends.
-- `root_cid` is none for an error, which may be a cancellation.
pub record Calls : Type 0 where
  pub db_opens : Bool
  pub get_faults : ℕ → Bool
  pub seed_faults : ℕ → Bool
  pub set_faults : ℕ → Bool
  pub pending_faults : ℕ → Bool
  pub use_rpc : Bool
  pub gsfa : GsfaCalls
  pub located : Option (List ℕ)
  pub endpoint : GoString
  pub refs : Discovered GoString
  pub canceled : Bool
  pub has_root_cid : Bool
  pub slot_end : FetchEnd
  pub offset_end : FetchEnd
  pub first_opens : Bool
  pub second_opens : Bool
  pub remove_fails : GoString → Bool
  pub process : List ℕ → EpochDb → Process

abbrev pub root_of : Config → GoString
root_of cfg = gsfa_root cfg.index_dir cfg.epoch

-- `OpenGsfa` in `discoverSlots`.
abbrev pub opened_index : Config → Calls → List GoString → Bool × List GoString
opened_index cfg calls files = open_index calls.remove_fails (root_of cfg) calls.gsfa files

abbrev pub slots_of : Config → Calls → List GoString → Option (List ℕ)
slots_of cfg calls files =
    discover_slots calls.use_rpc (opened_index cfg calls files).0 calls.located calls.endpoint
      calls.refs

-- The files after `discover`: `discoverSlots` is not called if discovery is marked as complete, and
-- opens no index with `-rpc`.
unfoldable pub discovery_files : Config → Calls → EpochDb → List GoString → List GoString
discovery_files cfg calls db files =
    if text_eq (meta_value calls.get_faults db meta_discovered) yes_text
    then files
    else if calls.use_rpc
    then files
    else release cfg.keep_indexes calls.remove_fails (root_of cfg) (opened_index cfg calls files)

-- The error of `Run`: nil, one that is `context.Canceled`, or another.
pub data RunResult : Type 0 where
  run_ok run_canceled run_failed : RunResult

abbrev pub failed_by : Bool → RunResult
failed_by canceled = if canceled then run_canceled else run_failed

pub record RunEnd : Type 0 where
  pub result : RunResult
  pub db : EpochDb
  pub files : List GoString

abbrev pub run_end : RunResult → EpochDb → List GoString → RunEnd
run_end result db files = record { result = result; db = db; files = files }

-- `return process(...)`, and the deferred function.
abbrev pub after_process : Config → Calls → List GoString → Process → List GoString → RunEnd
after_process cfg calls paths ended files =
    run_end (if ended.cancelled then run_canceled else run_ok) ended.db
      (if cfg.keep_indexes then files else cleanup calls.remove_fails paths files)

abbrev pub with_indexes : Config → Calls → List ℕ → EpochDb → OpenResult × List GoString → RunEnd
with_indexes cfg calls pending db (not_opened canceled, files) =
    run_end (failed_by canceled) db files
with_indexes cfg calls pending db (indexes paths, files) =
    after_process cfg calls paths (calls.process pending db) files

abbrev pub slot_path : Config → GoString
slot_path cfg = index_path cfg.index_dir cfg.epoch slot_to_cid

abbrev pub offset_path : Config → GoString
offset_path cfg = index_path cfg.index_dir cfg.epoch cid_to_offset

abbrev pub with_root : Config → Calls → List ℕ → EpochDb → List GoString → RunEnd
with_root cfg calls pending db files =
    if not calls.has_root_cid
    then run_end (failed_by calls.canceled) db files
    else with_indexes cfg calls pending db (
        open_indexes calls.slot_end calls.offset_end calls.first_opens calls.second_opens
          (slot_path cfg) (offset_path cfg) files)

abbrev pub with_pending : Config → Calls → Option (List ℕ) → EpochDb → List GoString → RunEnd
with_pending cfg calls none db files = run_end run_failed db files
with_pending cfg calls (some []) db files = run_end run_ok db files
with_pending cfg calls (some (slot ∷ rest)) db files = with_root cfg calls (slot ∷ rest) db files

abbrev pub after_discover : Config → Calls → SqlResult × EpochDb → List GoString → RunEnd
after_discover cfg calls (success, db) files =
    with_pending cfg calls (pending_slots calls.pending_faults db) db files
after_discover cfg calls (failure, db) files = run_end (failed_by calls.canceled) db files
after_discover cfg calls (out_of_fuel, db) files = run_end (failed_by calls.canceled) db files

-- `Run`
unfoldable pub run : Config → Calls → EpochDb → List GoString → RunEnd
run cfg calls db files =
    if not calls.db_opens
    then run_end run_failed db files
    else after_discover cfg calls
        (discover calls.get_faults calls.seed_faults calls.set_faults db (slots_of cfg calls files))
        (discovery_files cfg calls db files)

-- The switch of `main` on what `Run` returns; `log.Fatal` exits with 1.
unfoldable pub exit_code : RunResult → ℕ
exit_code run_ok = 0
exit_code run_canceled = 130
exit_code run_failed = 1

-- `main`, from its flags on; `wallet_ok` is `PublicKeyFromBase58`.
unfoldable pub main : GoString → (GoString → Bool) → Config → Calls → EpochDb → List GoString → ℕ
unfolding run exit_code
main wallet wallet_ok cfg calls db files =
    if nat_eq cfg.epoch 0
    then 1
    else if wallet == []
    then 1
    else if not (wallet_ok wallet)
    then 1
    else exit_code (run cfg calls db files).result
