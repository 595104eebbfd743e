-- ===== src/Examples/Index.antt =====
-- The extraction of a small address index that is killed once, and a name that points outside.
use epochfill.Common.{
  ℕ, zero, suc, ◌≡◌, ◌≢◌, refl, true, Option, none, some, List, [], ◌∷◌, All, text_equality,
}
use epochfill.Go.Text.{GoString, bytes_of, split, join, has_prefix, has_suffix}
use epochfill.Go.Filepath.{elements, clean, join_path, slash}
use epochfill.Go.Filepath.Clean.{Plain}
use epochfill.Go.Filepath.Below.{below}
use epochfill.Parts.{WriteEnd, whole, cut}
use epochfill.Gsfa.{DirEntry, done_marker, find_index_dir, first_index_dir, safe_join}
use epochfill.Gsfa.Inside.{safe_join-Plain}
use epochfill.Gsfa.Extract.{
  directory, regular, TarEntry, Files, file_exists, write_file, extract_to, extract_at,
  extract_entries, extract_tar, found, after_extract, with_located, ensure_extracted, located,
  IndexReach, nothing, called,
}
use epochfill.Gsfa.Entries.{Away, Extracted}
use epochfill.Gsfa.Trusted.{ensure_extracted-Extracted}

abbrev root : GoString
root = bytes_of "i/gsfa-7"

has_elements : elements root ≢ []
unfolding elements split
has_elements = λ e. cc

safe_join-Plain_example :
    (safe_join root (bytes_of "../../etc/x")
      ≡ some (below (clean root) (elements (slash ∷ bytes_of "../../etc/x"))))
    × All Plain (elements (slash ∷ bytes_of "../../etc/x"))
safe_join-Plain_example = safe_join-Plain root (bytes_of "../../etc/x") has_elements

abbrev archive : List TarEntry
archive =
    record { name = bytes_of "e.indexdir"; kind = directory; size = 0; body = [] }
    ∷ (record { name = bytes_of "e.indexdir/a"; kind = regular; size = 2; body = 8 ∷ 9 ∷ [] } ∷ [])

abbrev list_root : Files → GoString → Option (List DirEntry)
list_root _ _ = some (record { name = bytes_of "e.indexdir"; is_dir = true } ∷ [])

abbrev killed : ℕ → WriteEnd
killed zero = whole
killed (suc _) = cut 1

abbrev fine : ℕ → WriteEnd
fine _ = whole

abbrev torn : Files
torn = (ensure_extracted list_root root true killed true whole archive []).1

killed_once : IndexReach list_root root archive torn
killed_once = called true killed true whole nothing

away : Away root (join_path root done_marker) archive
unfolding safe_join join_path clean elements split join has_prefix
away = (refl, (refl, tt))

listed :
    (files : Files)
    → file_exists files (join_path root done_marker) ≡ true
    → Extracted root archive files
    → located list_root root files ≢ none
unfolding find_index_dir first_index_dir has_suffix has_prefix
listed files there whole_files = rw there (λ e. cc)

returned :
    (ensure_extracted list_root root true fine true whole archive torn).0
    ≡ found (bytes_of "i/gsfa-7/e.indexdir")
unfolding ensure_extracted with_located after_extract extract_tar extract_entries extract_at
    extract_to write_file find_index_dir first_index_dir safe_join join_path clean elements split
    join has_prefix has_suffix
returned = refl

ensure_extracted-Extracted_example :
    Extracted root archive (ensure_extracted list_root root true fine true whole archive torn).1
ensure_extracted-Extracted_example =
    ensure_extracted-Extracted root archive away list_root listed {files = torn} true fine true
      whole (bytes_of "i/gsfa-7/e.indexdir") killed_once returned
