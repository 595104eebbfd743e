-- ===== src/Gsfa.antt =====
-- backfill/gsfa.go: where an extracted address index is found, and where the entries of its archive
-- are put.
pub mod Inside
pub mod Extract
pub mod Unpack
pub mod Unpacked
pub mod Tarball
pub mod Cleanup
pub mod Entries
pub mod Trusted
use epochfill.Common.{
  ℕ, Bool, true, false, not, Option, none, some, List, [], ◌∷◌, ◌++◌, nat_eq, ◌==◌, ◌&&◌,
  text_equality, if◌then◌else◌,
}
use epochfill.Go.Text.{GoString, bytes_of, has_prefix, has_suffix}
use epochfill.Go.Filepath.{slash, clean, join_path}

-- The file that says that the extraction was finished.
abbrev pub done_marker : GoString
done_marker = bytes_of ".extracted"

abbrev pub index_suffix : GoString
index_suffix = bytes_of ".indexdir"

-- `os.DirEntry`.
pub record DirEntry : Type 0 where
  pub name : GoString
  pub is_dir : Bool

unfoldable pub first_index_dir : GoString → List DirEntry → Option GoString
first_index_dir root [] = none
first_index_dir root (e ∷ r) =
    let rest = first_index_dir root r in
    if e.is_dir && has_suffix e.name index_suffix then some (join_path root e.name) else rest

-- `findIndexDir`; `exists` is `os.Stat`, and `read_dir` is `os.ReadDir`, `none` for an error.
unfoldable pub find_index_dir :
    (GoString → Bool) → (GoString → Option (List DirEntry)) → GoString → Option GoString
find_index_dir exists read_dir root =
    if not (exists (join_path root done_marker))
    then none
    else elim (read_dir root) [ none ↦ none | some entries ↦ first_index_dir root entries ]

-- `safeJoin`; `none` is the error.
unfoldable pub safe_join : GoString → GoString → Option GoString
safe_join dst name =
    let target = join_path dst (clean (slash ∷ name)) in
    if not (has_prefix target (clean dst ++ (slash ∷ []))) && not (target == clean dst)
    then none
    else some target
