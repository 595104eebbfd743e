-- ===== src/Gsfa/Cleanup.antt =====
-- `OpenGsfa` and `Cleanup` of backfill/gsfa.go on the files of the index directory. `os.RemoveAll` may
-- fail or be killed at any file.
use epochfill.Common.{
  ℕ, ◌≡◌, ◌∙◌, refl, ap, Bool, true, false, Option, none, some, List, [], ◌∷◌, take, elem, ◌==◌,
  text_equality, text_eq_iff, if◌then◌else◌, arith,
}
use epochfill.Go.Map.{lookup}
use epochfill.Go.Text.{GoString}
use epochfill.Go.Filepath.{join_path}
use epochfill.Parts.{WriteEnd}
use epochfill.Gsfa.{DirEntry, done_marker, find_index_dir, first_index_dir}
use epochfill.Gsfa.Extract.{
  TarEntry, Files, is_there, file_exists, located, Ensured, found, download_failed, extract_failed,
  no_index_dir, ensure_extracted, with_located,
}

-- `OpenGsfa`, from what `ensureExtracted` returns: the directory that `NewGsfaReader` opens.
unfoldable pub open_gsfa : (GoString → Bool) → Ensured → Option GoString
open_gsfa reader_opens (found dir) = if reader_opens dir then some dir else none
open_gsfa reader_opens download_failed = none
open_gsfa reader_opens extract_failed = none
open_gsfa reader_opens no_index_dir = none

abbrev pub remove_path : GoString → Files → Files
remove_path path [] = []
remove_path path ((p, content) ∷ r) =
    let rest = remove_path path r in if p == path then rest else (p, content) ∷ rest

abbrev pub remove_paths : List GoString → Files → Files
remove_paths [] files = files
remove_paths (p ∷ r) files = remove_paths r (remove_path p files)

-- `Cleanup`: the files of the directory are removed in some order, all of them, or some `k`.
unfoldable pub cleanup_index : Option ℕ → List GoString → Files → Files
cleanup_index none order files = remove_paths order files
cleanup_index (some k) order files = remove_paths (take k order) files

lookup-remove_path :
    (path other : GoString) (files : Files)
    → lookup other (remove_path path files) ≡ (if path == other then none else lookup other files)
lookup-remove_path path other [] = ground arith
lookup-remove_path path other ((p, content) ∷ r) = ground (
  arith,
  lookup-remove_path path other r,
  text_eq_iff p path,
  text_eq_iff p other,
  text_eq_iff path other,
)

lookup-remove_paths :
    (order : List GoString) (path : GoString) (files : Files)
    → lookup path (remove_paths order files) ≡ (if elem path order then none else lookup path files)
lookup-remove_paths [] path files = refl
lookup-remove_paths (p ∷ r) path files =
    lookup-remove_paths r path (remove_path p files)
    ∙ (ground (arith, lookup-remove_path p path files))

module _ (read_dir : Files → GoString → Option (List DirEntry)) (root : GoString) where
  -- After a `Cleanup` that removes all files, the marker among them, no index is found.
  pub cleanup_index-located :
      (order : List GoString) (files : Files)
      → elem (join_path root done_marker) order ≡ true
      → located read_dir root (cleanup_index none order files) ≡ none
  unfolding cleanup_index find_index_dir
  cleanup_index-located order files listed =
      let gone : lookup (join_path root done_marker) (remove_paths order files) ≡ none =
        lookup-remove_paths order (join_path root done_marker) files ∙ (rw listed refl) in
      rw gone refl

  -- If `Cleanup` is killed before it comes to the marker, and an index directory is still listed,
  -- then the next `ensureExtracted` returns that directory, without the files that were removed.
  pub cleanup_index-killed :
      (k : ℕ) (order : List GoString) (files : Files) (listed : List DirEntry) (dir path : GoString)
      (downloaded : Bool) (ends : ℕ → WriteEnd) (intact : Bool) (marker_end : WriteEnd)
      (entries : List TarEntry)
      → file_exists files (join_path root done_marker) ≡ true
      → elem (join_path root done_marker) (take k order) ≡ false
      → read_dir (cleanup_index (some k) order files) root ≡ some listed
      → first_index_dir root listed ≡ some dir
      → elem path (take k order) ≡ true
      → (ensure_extracted read_dir root downloaded ends intact marker_end entries
            (cleanup_index (some k) order files)
          ≡ (found dir, cleanup_index (some k) order files))
        × (lookup path (cleanup_index (some k) order files) ≡ none)
  unfolding cleanup_index find_index_dir ensure_extracted with_located
  cleanup_index-killed k order files listed dir path downloaded ends intact marker_end entries
        marked kept dirs first removed =
      let there : file_exists (remove_paths (take k order) files) (join_path root done_marker)
          ≡ true =
        ap is_there
          (lookup-remove_paths (take k order) (join_path root done_marker) files ∙ (rw kept refl))
        ∙ marked in
      (
        rw (there, dirs, first) refl,
        lookup-remove_paths (take k order) path files ∙ (rw removed refl),
      )
