-- ===== src/Gsfa/Trusted.antt =====
-- An index directory that `ensureExtracted` of backfill/gsfa.go returns was extracted whole.
use epochfill.Common.{
  ℕ, ◌≡◌, ◌≢◌, ◌∙◌, refl, ap, sym, inl, inr, Bool, true, false, Bool-cases, Option, none, some,
  List, take, ◌==◌, ◌&&◌, text_equality, text_eq_iff, arith,
}
use epochfill.Go.Map.{lookup, lookup-insert}
use epochfill.Go.Text.{GoString, bytes_of}
use epochfill.Go.Filepath.{join_path}
use epochfill.Parts.{WriteEnd, whole, not_opened, cut}
use epochfill.Gsfa.{DirEntry, done_marker, find_index_dir}
use epochfill.Gsfa.Extract.{
  TarEntry, Files, is_there, file_exists, write_file, extract_entries, extract_tar, found, located,
  after_extract, with_located, ensure_extracted, IndexReach, nothing, called,
}
use epochfill.Gsfa.Entries.{
  last_body, or_before, Away, Extracted, extract_entries-lookup, extract_entries-Away,
  last_body-Away,
}

write_file-elsewhere :
    (end : WriteEnd) (path other : GoString) (body : List ℕ) (size : ℕ) (files : Files)
    → (path == other) ≡ false
    → lookup other (write_file end path body size files).1 ≡ lookup other files
unfolding write_file
write_file-elsewhere not_opened path other body size files apart = refl
write_file-elsewhere (cut k) path other body size files apart =
    rw (lookup-insert path other (take k body) files, apart)
write_file-elsewhere whole path other body size files apart =
    rw (lookup-insert path other body files, apart)

none_absurd : {b : List ℕ} → none ≢ some b
none_absurd = λ e. cc

no_marker :
    (exists : GoString → Bool) (read_dir : GoString → Option (List DirEntry)) (root : GoString)
    → exists (join_path root done_marker) ≡ false
    → find_index_dir exists read_dir root ≡ none
unfolding find_index_dir
no_marker exists read_dir root absent = rw absent

module _ (root : GoString) (entries : List TarEntry)
    (away : Away root (join_path root done_marker) entries) where
  abbrev marker : GoString
  marker = join_path root done_marker

  abbrev Trusted : Files → Type 0
  Trusted files = file_exists files marker ≡ true → Extracted root entries files

  -- Writing the marker touches no file of the archive.
  Extracted-marked :
      (end : WriteEnd) (files : Files)
      → Extracted root entries files
      → Extracted root entries (write_file end marker (bytes_of "ok") 2 files).1
  Extracted-marked end files h path body last = elim (Bool-cases (marker == path)) [
    | inl same ↦ absurd (
        none_absurd (
          sym (last_body-Away root marker entries away)
          ∙ (ap (λ t. last_body root t entries) ((text_eq_iff marker path).0 same) ∙ last)))
    | inr apart ↦
        write_file-elsewhere end marker path (bytes_of "ok") 2 files apart ∙ h path body last
  ]

  extract_tar-Trusted :
      (ends : ℕ → WriteEnd) (intact : Bool) (marker_end : WriteEnd) (files : Files)
      → file_exists files marker ≡ false
      → Trusted (extract_tar ends intact marker_end root entries files).1
  unfolding extract_tar
  extract_tar-Trusted ends intact marker_end files absent =
      let after = extract_entries ends root 0 entries files in
      elim (Bool-cases (after.0 && intact)) [
        | inl fine ↦ rw fine (λ there. Extracted-marked marker_end after.1 (λ path body last.
            extract_entries-lookup ends root path 0 entries files (ground (arith, fine))
            ∙ ap (λ o. or_before o (lookup path files)) last))
        | inr fails ↦ rw fails (λ there. absurd (
            cc (
              there,
              absent,
              ap is_there (extract_entries-Away ends root marker 0 entries files away),
            )))
      ]

  module _ (read_dir : Files → GoString → Option (List DirEntry))
      (listed : (files : Files)
        → file_exists files (join_path root done_marker) ≡ true
        → Extracted root entries files
        → located read_dir root files ≢ none) where
    with_located-Trusted :
        (place : Option GoString) (downloaded ok : Bool) (after files : Files)
        → Trusted files
        → (place ≡ none → Trusted after)
        → Trusted (with_located read_dir root place downloaded (ok, after) files).1
    unfolding with_located after_extract
    with_located-Trusted (some dir) downloaded ok after files h h' = h
    with_located-Trusted none false ok after files h h' = h
    with_located-Trusted none true true after files h h' = h' refl
    with_located-Trusted none true false after files h h' = h' refl

    not_located :
        (files : Files)
        → Trusted files
        → located read_dir root files ≡ none
        → file_exists files marker ≡ false
    not_located files h missing = elim (Bool-cases (file_exists files marker)) [
      | inl there ↦ absurd (listed files there (h there) missing)
      | inr absent ↦ absent
    ]

    ensure_extracted-Trusted :
        (downloaded : Bool) (ends : ℕ → WriteEnd) (intact : Bool) (marker_end : WriteEnd)
        (files : Files)
        → Trusted files
        → Trusted (ensure_extracted read_dir root downloaded ends intact marker_end entries files).1
    unfolding ensure_extracted
    ensure_extracted-Trusted downloaded ends intact marker_end files h =
        let (ok, after) = extract_tar ends intact marker_end root entries files in
        with_located-Trusted (located read_dir root files) downloaded ok after files h (λ missing.
          extract_tar-Trusted ends intact marker_end files (not_located files h missing))

    IndexReach-Trusted : {files : Files} → IndexReach read_dir root entries files → Trusted files
    IndexReach-Trusted nothing = λ there. cc
    IndexReach-Trusted (called {files = files} downloaded ends intact marker_end q) =
        ensure_extracted-Trusted downloaded ends intact marker_end files (IndexReach-Trusted q)

    with_located-found :
        (place : Option GoString) (downloaded ok : Bool) (dir : GoString) (after files : Files)
        → located read_dir root files ≡ place
        → (with_located read_dir root place downloaded (ok, after) files).0 ≡ found dir
        → located read_dir root (with_located read_dir root place downloaded (ok, after) files).1
          ≢ none
    unfolding with_located after_extract
    with_located-found (some d) downloaded ok dir after files e h = λ n. cc
    with_located-found none false ok dir after files e h = cc
    with_located-found none true true dir after files e h = λ n. cc (rw n at h)
    with_located-found none true false dir after files e h = cc

    -- For an archive none of whose entries is the marker, and a `ReadDir` that lists an index directory
    -- where the archive was extracted whole: after any number of calls of `ensureExtracted`, each of
    -- which may have failed or have been killed at any point, if a call returns a directory, then every
    -- file of the archive is there with its whole content.
    pub ensure_extracted-Extracted :
        {files : Files} (downloaded : Bool) (ends : ℕ → WriteEnd) (intact : Bool)
        (marker_end : WriteEnd) (dir : GoString)
        → IndexReach read_dir root entries files
        → (ensure_extracted read_dir root downloaded ends intact marker_end entries files).0
          ≡ found dir
        → Extracted root entries
            (ensure_extracted read_dir root downloaded ends intact marker_end entries files).1
    ensure_extracted-Extracted {files = files} downloaded ends intact marker_end dir q success =
        let (ok, extracted) = extract_tar ends intact marker_end root entries files in
        let after =
          (ensure_extracted read_dir root downloaded ends intact marker_end entries files).1 in
        elim (Bool-cases (file_exists after marker)) [
          | inl there ↦
              ensure_extracted-Trusted downloaded ends intact marker_end files
                (IndexReach-Trusted q) there
          | inr absent ↦ absurd (
              unfold ensure_extracted in
              with_located-found (located read_dir root files) downloaded ok dir extracted files
                refl success (no_marker (file_exists after) (read_dir after) root absent))
        ]
