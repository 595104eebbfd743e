-- ===== src/Examples/Lifecycle.antt =====
-- A run whose only slot cannot be read.
use epochfill.Common.{ℕ, ◌≡◌, refl, true, false, some, List, [], ◌∷◌, text_equality}
use epochfill.Go.Text.{GoString, bytes_of}
use epochfill.Store.{EpochDb}
use epochfill.Store.History.{fresh}
use epochfill.Signatures.{page_failed}
use epochfill.Run.Process.{Process, process_start}
use epochfill.Run.Lifecycle.{Config, Calls, slot_path, offset_path, run}
use epochfill.Run.Disk.{GsfaCalls, complete, removed}
use epochfill.Run.Owned.{is_own}
use epochfill.Go.Text.{has_prefix, split, join}
use epochfill.Go.Filepath.{join_path, clean, elements}
use epochfill.Go.Decimal.{format_uint, format_digits}
use epochfill.Run.Indexes.{Ways, found_by, reaches_process, run-index_files}
use epochfill.Examples.Database.{no_fault}

abbrev config : Config
config = record { epoch = 7; index_dir = bytes_of "i"; keep_indexes = false }

abbrev one_failure : List ℕ → EpochDb → Process
one_failure pending db = record (process_start 1 pending db) { fed = true; failures = 1 }

-- The address index is downloaded, unpacked and opened.
abbrev index_calls : GsfaCalls
index_calls = record {
  found_before = false;
  tarball_end = complete removed;
  unpacked = bytes_of "e.indexdir/a" ∷ (bytes_of ".extracted" ∷ []);
  unpacks = true;
  found_after = true;
  reader_opens = true;
}

abbrev outside_calls : Calls
outside_calls = record {
  db_opens = true;
  get_faults = no_fault;
  seed_faults = no_fault;
  set_faults = no_fault;
  pending_faults = no_fault;
  use_rpc = false;
  gsfa = index_calls;
  located = some (7 ∷ (7 ∷ []));
  endpoint = [];
  refs = page_failed;
  canceled = false;
  has_root_cid = true;
  slot_end = complete removed;
  offset_end = complete removed;
  first_opens = true;
  second_opens = true;
  remove_fails = λ _. false;
  process = one_failure;
}

abbrev before : List GoString
before = slot_path config ∷ (bytes_of "other" ∷ [])

-- Neither index file, nor another file, is one that the theorem leaves out.
index_files_meant :
    (is_own config (slot_path config) ≡ false)
    × (is_own config (offset_path config) ≡ false)
    × (is_own config (bytes_of "other") ≡ false)
unfolding has_prefix join_path clean elements split join format_uint format_digits
index_files_meant = (refl, refl, refl)

run-index_files_example :
    Ways config outside_calls
      (found_by config outside_calls fresh before).1
      before
      (reaches_process config outside_calls fresh before)
      (run config outside_calls fresh before)
run-index_files_example = run-index_files config outside_calls fresh before
