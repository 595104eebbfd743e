-- ===== src/Run/Indexes.antt =====
-- What `Run` of backfill/run.go does to the index files of backfill/index.go.
use epochfill.Common.{
  ℕ, ◌≡◌, ◌∙◌, refl, ap, inl, inr, Bool, true, false, not, Bool-cases, Option, none, some, List, [],
  ◌∷◌, elem, ◌==◌, ◌||◌, ◌&&◌, text_equality, if◌then◌else◌, arith,
}
use epochfill.Go.Text.{GoString}
use epochfill.Store.{EpochDb, SqlResult, success, failure, out_of_fuel, pending_slots}
use epochfill.Run.{discover}
use epochfill.Run.Disk.{
  FetchEnd, complete, not_created, created, SidecarEnd, add_file, set_sidecar, sidecar,
}
use epochfill.Run.Lifecycle.{
  opened_both, open_indexes, Config, Calls, slots_of, run_ok, run_canceled, RunEnd, with_indexes,
  slot_path, offset_path, with_root, with_pending, after_discover, run, exit_code, discovery_files,
  cleanup,
}
use epochfill.Run.Files.{elem-cleanup}
use epochfill.Run.Owned.{
  is_own, there, there-add_file, there-set_sidecar, own_slot_side, own_offset_side,
  there-discovery_files,
}

-- The two index files.
abbrev pub is_index : Config → GoString → Bool
is_index cfg p = (slot_path cfg == p) || (offset_path cfg == p)

-- Whether a path is there after `process` and the deferred function.
abbrev pub there_after : Config → Calls → GoString → Bool → Bool
there_after cfg calls p before =
    let here = before || is_index cfg p in
    if cfg.keep_indexes then here else here && (not (is_index cfg p) || calls.remove_fails p)

-- No other file is gone.
abbrev pub Kept : Config → List GoString → RunEnd → Type 0
Kept cfg files end = (p : GoString) → (elem p files && not (there cfg p end.files)) ≡ false

abbrev pub Processed : Config → Calls → EpochDb → List GoString → RunEnd → Type 0
Processed cfg calls found files end =
    (pending : List ℕ) × (pending_slots calls.pending_faults found ≡ some pending)
    × (end.db ≡ (calls.process pending found).db)
    × (exit_code end.result ≡ (if (calls.process pending found).cancelled then 130 else 0))
    × ((p : GoString)
        → there cfg p end.files ≡ (there_after cfg calls p (elem p files) || is_own cfg p))

abbrev is_success : SqlResult → Bool
is_success success = true
is_success _ = false

abbrev has_work : Option (List ℕ) → Bool
has_work (some (slot ∷ rest)) = true
has_work _ = false

abbrev is_complete : FetchEnd → Bool
is_complete (complete side) = true
is_complete _ = false

abbrev opens_both : Calls → Bool
opens_both calls =
    is_complete calls.slot_end
    && (is_complete calls.offset_end && (calls.first_opens && calls.second_opens))

abbrev pub found_by : Config → Calls → EpochDb → List GoString → SqlResult × EpochDb
found_by cfg calls db files =
    discover calls.get_faults calls.seed_faults calls.set_faults db (slots_of cfg calls files)

-- All that comes before `process` goes well, and there is work.
abbrev pub reaches_process : Config → Calls → EpochDb → List GoString → Bool
reaches_process cfg calls db files =
    calls.db_opens
    && (is_success (found_by cfg calls db files).0
        && (has_work (pending_slots calls.pending_faults (found_by cfg calls db files).1)
            && (calls.has_root_cid && opens_both calls)))

-- What is so of a run that reaches `process`, and of another.
abbrev pub Ways : Config → Calls → EpochDb → List GoString → Bool → RunEnd → Type 0
Ways cfg calls found files true end = Processed cfg calls found files end
Ways cfg calls found files false end = Kept cfg files end

code_of :
    (canceled : Bool)
    → exit_code (if canceled then run_canceled else run_ok) ≡ (if canceled then 130 else 0)
unfolding exit_code
code_of true = refl
code_of false = refl

module _ (cfg : Config) (calls : Calls) (db : EpochDb) (files now : List GoString)
    (unchanged : (p : GoString) → there cfg p now ≡ there cfg p files) where
  kept_now : (p : GoString) → (elem p files && not (there cfg p now)) ≡ false
  kept_now p = ground (arith, unchanged p)

  -- After the downloads of the two indexes, with what becomes of their sidecars.
  with_slot : SidecarEnd → List GoString
  with_slot side = set_sidecar side (slot_path cfg) (add_file (slot_path cfg) now)

  with_both : SidecarEnd → SidecarEnd → List GoString
  with_both side side' =
      set_sidecar side' (offset_path cfg) (add_file (offset_path cfg) (with_slot side))

  there-with_slot :
      (side : SidecarEnd) (p : GoString)
      → there cfg p (with_slot side) ≡ (there cfg p files || slot_path cfg == p)
  unfolding with_slot
  there-with_slot side p =
      there-set_sidecar cfg p side (slot_path cfg) (add_file (slot_path cfg) now)
        (own_slot_side cfg p)
      ∙ (there-add_file cfg p (slot_path cfg) now ∙ ap (λ b. b || slot_path cfg == p) (unchanged p))

  there-with_both :
      (side side' : SidecarEnd) (p : GoString)
      → there cfg p (with_both side side')
        ≡ ((there cfg p files || slot_path cfg == p) || offset_path cfg == p)
  unfolding with_both
  there-with_both side side' p =
      there-set_sidecar cfg p side' (offset_path cfg) (add_file (offset_path cfg) (with_slot side))
        (own_offset_side cfg p)
      ∙ (there-add_file cfg p (offset_path cfg) (with_slot side)
          ∙ ap (λ b. b || offset_path cfg == p) (there-with_slot side p))

  there-released :
      (keep : Bool) (side side' : SidecarEnd) (p : GoString)
      → there cfg p (
          if keep
          then with_both side side'
          else cleanup calls.remove_fails
              (slot_path cfg ∷ (offset_path cfg ∷ []))
              (with_both side side'))
        ≡ ((if keep
              then elem p files || is_index cfg p
              else (elem p files || is_index cfg p)
                && (not (is_index cfg p) || calls.remove_fails p))
            || is_own cfg p)
  there-released true side side' p = there-with_both side side' p ∙ ground arith
  there-released false side side' p =
      ap (λ b. b || is_own cfg p)
        (elem-cleanup p (slot_path cfg) (offset_path cfg) calls.remove_fails (with_both side side'))
      ∙ ground (arith, there-with_both side side' p)

  kept_slot :
      (side : SidecarEnd) (p : GoString)
      → (elem p files && not (there cfg p (with_slot side))) ≡ false
  kept_slot side p = ground (arith, there-with_slot side p)

  kept_both :
      (side side' : SidecarEnd) (p : GoString)
      → (elem p files && not (there cfg p (with_both side side'))) ≡ false
  kept_both side side' p = ground (arith, there-with_both side side' p)

  kept_side :
      (side : SidecarEnd) (path : GoString) (before : List GoString) (p : GoString)
      → is_own cfg (sidecar path) ≡ true
      → (elem p files && not (there cfg p before)) ≡ false
      → (elem p files && not (there cfg p (set_sidecar side path before))) ≡ false
  kept_side side path before p own h =
      ap (λ b. elem p files && not b) (there-set_sidecar cfg p side path before own) ∙ h

  module _ (pending : List ℕ) (listed : pending_slots calls.pending_faults db ≡ some pending) where
    opened_both-Ways :
        (side side' : SidecarEnd) (first second : Bool)
        → Ways cfg calls db files (first && second) (
            with_indexes cfg calls pending db
              (opened_both first second (slot_path cfg) (offset_path cfg), with_both side side'))
    opened_both-Ways side side' false second = kept_both side side'
    opened_both-Ways side side' true false = kept_both side side'
    opened_both-Ways side side' true true = (
      pending,
      listed,
      refl,
      code_of (calls.process pending db).cancelled,
      λ p. there-released cfg.keep_indexes side side' p,
    )

    fetch-Ways :
        (slot_end offset_end : FetchEnd)
        → Ways cfg calls db files
            (is_complete slot_end
              && (is_complete offset_end && (calls.first_opens && calls.second_opens)))
            (with_indexes cfg calls pending db (
              open_indexes slot_end offset_end calls.first_opens calls.second_opens
                (slot_path cfg)
                (offset_path cfg)
                now))
    unfolding open_indexes with_both with_slot
    fetch-Ways (complete side) (complete side') =
        opened_both-Ways side side' calls.first_opens calls.second_opens
    fetch-Ways (complete side) (not_created canceled side') = λ p.
        kept_side side' (offset_path cfg) (with_slot side) p (own_offset_side cfg p)
          (kept_slot side p)
    fetch-Ways (complete side) (created canceled side') = kept_both side side'
    fetch-Ways (not_created canceled side) offset_end =
        λ p. kept_side side (slot_path cfg) now p (own_slot_side cfg p) (kept_now p)
    fetch-Ways (created canceled side) offset_end = kept_slot side

    with_root-Ways :
        Ways cfg calls db files
          (calls.has_root_cid && opens_both calls)
          (with_root cfg calls pending db now)
    with_root-Ways = elim (Bool-cases calls.has_root_cid) [
      | inr no_root ↦ rw no_root kept_now
      | inl root ↦ rw root (fetch-Ways calls.slot_end calls.offset_end)
    ]

  with_pending-Ways :
      (o : Option (List ℕ))
      → pending_slots calls.pending_faults db ≡ o
      → Ways cfg calls db files
          (has_work o && (calls.has_root_cid && opens_both calls))
          (with_pending cfg calls o db now)
  with_pending-Ways none e = kept_now
  with_pending-Ways (some []) e = kept_now
  with_pending-Ways (some (slot ∷ rest)) e = with_root-Ways (slot ∷ rest) e

  after_discover-Ways :
      (result : SqlResult)
      → Ways cfg calls db files
          (is_success result
            && (has_work (pending_slots calls.pending_faults db)
                && (calls.has_root_cid && opens_both calls)))
          (after_discover cfg calls (result, db) now)
  after_discover-Ways failure = kept_now
  after_discover-Ways out_of_fuel = kept_now
  after_discover-Ways success = with_pending-Ways (pending_slots calls.pending_faults db) refl

-- Of the files of the index directory besides those below the root of the address index, its tarball
-- and the sidecars of the three downloads: a run in which the database opens, discovery succeeds,
-- some slot is pending, and the root CID and both indexes are fetched and opened calls `process`;
-- then, whatever slots failed in it, the database is as `process` leaves it, the exit code is 130 if
-- the context was cancelled and 0 if not, and, unless they are to be kept or cannot be removed,
-- neither of the two index files is there any more, while the others of these files are as before.
-- In any other run, each of these files that was there is there still.
pub run-index_files :
    (cfg : Config) (calls : Calls) (db : EpochDb) (files : List GoString)
    → Ways cfg calls
        (found_by cfg calls db files).1
        files
        (reaches_process cfg calls db files)
        (run cfg calls db files)
unfolding run discovery_files
run-index_files cfg calls db files = elim (Bool-cases calls.db_opens) [
  | inr no_db ↦ rw no_db (λ p. ground arith)
  | inl opens ↦ rw opens (
      after_discover-Ways cfg calls (found_by cfg calls db files).1 files
        (discovery_files cfg calls db files) (λ p. there-discovery_files cfg p calls db files)
        (found_by cfg calls db files).0)
]
