-- ===== src/Gsfa/Extract.antt =====
-- `ensureExtracted`, `extractTarZstd` and `writeFile` of backfill/gsfa.go on the files of the disk.
-- The entries are what `tar.Reader` yields. A call of the operating system may fail, and the process
-- may be killed anywhere; the operating system itself stays up.
use epochfill.Common.{
  ℕ, suc, Bool, true, false, Option, none, some, List, [], ◌∷◌, length, take, nat_eq, ◌&&◌,
  text_equality, if◌then◌else◌,
}
use epochfill.Go.Map.{Map, lookup, insert}
use epochfill.Go.Text.{GoString, bytes_of}
use epochfill.Go.Filepath.{join_path}
use epochfill.Parts.{WriteEnd, whole, not_opened, cut}
use epochfill.Gsfa.{DirEntry, done_marker, find_index_dir, safe_join}

-- `hdr.Typeflag`
pub data Kind : Type 0 where
  directory regular other : Kind

-- `size` is what the header says, `body` the bytes that the reader yields.
pub record TarEntry : Type 0 where
  pub name : GoString
  pub kind : Kind
  pub size : ℕ
  pub body : List ℕ

-- The regular files, by their paths.
abbrev pub Files : Type 0
Files = Map GoString (List ℕ)

-- `os.Stat` of a path.
abbrev pub is_there : Option (List ℕ) → Bool
is_there none = false
is_there (some content) = true

abbrev pub file_exists : Files → GoString → Bool
file_exists files path = is_there (lookup path files)

-- `writeFile`, and `os.WriteFile` of a text of `size` bytes: whether the error is nil, and the files.
unfoldable pub write_file : WriteEnd → GoString → List ℕ → ℕ → Files → Bool × Files
write_file not_opened path body size files = (false, files)
write_file (cut k) path body size files = (false, insert path (take k body) files)
write_file whole path body size files = (nat_eq (length body) size, insert path body files)

abbrev pub made : WriteEnd → Bool
made whole = true
made _ = false

-- The switch on `hdr.Typeflag`; `MkdirAll` makes no regular file.
unfoldable pub extract_to : Kind → WriteEnd → GoString → List ℕ → ℕ → Files → Bool × Files
unfolding write_file
extract_to directory end target body size files = (made end, files)
extract_to regular end target body size files = write_file end target body size files
extract_to other end target body size files = (true, files)

unfoldable pub extract_at : WriteEnd → Option GoString → TarEntry → Files → Bool × Files
extract_at end none e files = (false, files)
extract_at end (some target) e files = extract_to e.kind end target e.body e.size files

-- The loop over the entries; `ends n` is how the n-th ends.
unfoldable pub extract_entries :
    (ℕ → WriteEnd) → GoString → ℕ → List TarEntry → Files → Bool × Files
extract_entries ends dst n [] files = (true, files)
extract_entries ends dst n (e ∷ r) files =
    let done = extract_at (ends n) (safe_join dst e.name) e files in
    let rest = extract_entries ends dst (suc n) r done.1 in if done.0 then rest else (false, done.1)

-- `extractTarZstd`. `intact`: `tr.Next` ends with `io.EOF`, and no other error.
unfoldable pub extract_tar :
    (ℕ → WriteEnd) → Bool → WriteEnd → GoString → List TarEntry → Files → Bool × Files
extract_tar ends intact marker_end dst entries files =
    let done = extract_entries ends dst 0 entries files in
    if done.0 && intact
    then write_file marker_end (join_path dst done_marker) (bytes_of "ok") 2 done.1
    else (false, done.1)

pub data Ensured : Type 0 where
  found : GoString → Ensured
  download_failed extract_failed no_index_dir : Ensured

module _ (read_dir : Files → GoString → Option (List DirEntry)) (root : GoString) where
  abbrev pub located : Files → Option GoString
  located files = find_index_dir (file_exists files) (read_dir files) root

  abbrev pub or_missing : Option GoString → Ensured
  or_missing none = no_index_dir
  or_missing (some dir) = found dir

  unfoldable pub after_extract : Bool × Files → Ensured × Files
  after_extract (false, files) = (extract_failed, files)
  after_extract (true, files) = (or_missing (located files), files)

  -- `ensureExtracted`, after the index was looked for; `downloaded`: `DownloadResumable` returns nil.
  -- The tarball is not one of the files.
  unfoldable pub with_located : Option GoString → Bool → Bool × Files → Files → Ensured × Files
  with_located (some dir) downloaded extracted files = (found dir, files)
  with_located none false extracted files = (download_failed, files)
  with_located none true extracted files = after_extract extracted

  unfoldable pub ensure_extracted :
      Bool → (ℕ → WriteEnd) → Bool → WriteEnd → List TarEntry → Files → Ensured × Files
  ensure_extracted downloaded ends intact marker_end entries files =
      with_located (located files) downloaded
        (extract_tar ends intact marker_end root entries files) files

  -- The files of one index directory, after any number of calls.
  pub data IndexReach (entries : List TarEntry) : Files → Type 0 where
    nothing : IndexReach entries []
    called :
        {files : Files} (downloaded : Bool) (ends : ℕ → WriteEnd) (intact : Bool)
        (marker_end : WriteEnd)
        → IndexReach entries files
        → IndexReach entries (ensure_extracted downloaded ends intact marker_end entries files).1
