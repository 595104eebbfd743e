-- ===== src/Run/Disk.antt =====
-- The files of the index directory, by their paths, as the downloads of backfill/oldfaithful.go and
-- the address index of backfill/gsfa.go change them.
use epochfill.Common.{
  ℕ, Bool, true, false, not, ◌&&◌, Option, none, some, List, [], ◌∷◌, ◌++◌, elem, ◌==◌,
  text_equality, if◌then◌else◌,
}
use epochfill.Go.Text.{GoString, bytes_of, has_prefix}
use epochfill.Go.Decimal.{format_uint}
use epochfill.Go.Filepath.{slash, join_path}

abbrev pub add_file : GoString → List GoString → List GoString
add_file path files = if elem path files then files else files ++ (path ∷ [])

abbrev pub remove_file : GoString → List GoString → List GoString
remove_file path [] = []
remove_file path (f ∷ files) =
    let rest = remove_file path files in if f == path then rest else f ∷ rest

-- `partsSuffix`
abbrev pub sidecar : GoString → GoString
sidecar path = path ++ bytes_of ".parts"

-- What a download leaves of the sidecar: as it was, written by a flush, or removed, as a stale one or
-- by `Close`.
pub data SidecarEnd : Type 0 where
  same written removed : SidecarEnd

abbrev pub set_sidecar : SidecarEnd → GoString → List GoString → List GoString
set_sidecar same path files = files
set_sidecar written path files = add_file (sidecar path) files
set_sidecar removed path files = remove_file (sidecar path) files

-- `DownloadResumable` for one file: whether it fails before the file is opened, or after, and whether
-- the error is that the context is canceled.
pub data FetchEnd : Type 0 where
  complete : SidecarEnd → FetchEnd
  not_created created : Bool → SidecarEnd → FetchEnd

-- `none` is a nil error, and else whether it is a cancellation.
abbrev pub fetch : FetchEnd → GoString → List GoString → Option Bool × List GoString
fetch (complete side) path files = (none, set_sidecar side path (add_file path files))
fetch (not_created canceled side) path files = (some canceled, set_sidecar side path files)
fetch (created canceled side) path files =
    (some canceled, set_sidecar side path (add_file path files))

abbrev pub slot_to_cid : GoString
slot_to_cid = bytes_of "slot-to-cid"

abbrev pub cid_to_offset : GoString
cid_to_offset = bytes_of "cid-to-offset-and-size"

abbrev pub index_path : GoString → ℕ → GoString → GoString
index_path dir epoch name =
    join_path dir
      (bytes_of "epoch-" ++ (format_uint epoch ++ (bytes_of "-" ++ (name ++ bytes_of ".index"))))

abbrev pub gsfa_root : GoString → ℕ → GoString
gsfa_root dir epoch = join_path dir (bytes_of "gsfa-" ++ format_uint epoch)

abbrev pub tarball : GoString → GoString
tarball root = root ++ bytes_of ".tar.zstd"

-- The path lies below the directory.
abbrev pub under : GoString → GoString → Bool
under root path = has_prefix path (root ++ (slash ∷ []))

-- What the calls of `OpenGsfa` come to: whether `findIndexDir` finds an index at once, and after the
-- extraction, which writes the files `unpacked` of the root and may fail; and whether the reader
-- opens.
pub record GsfaCalls : Type 0 where
  pub found_before : Bool
  pub tarball_end : FetchEnd
  pub unpacked : List GoString
  pub unpacks : Bool
  pub found_after : Bool
  pub reader_opens : Bool

abbrev pub add_all : GoString → List GoString → List GoString → List GoString
add_all root [] files = files
add_all root (name ∷ r) files = add_all root r (add_file (root ++ (slash ∷ name)) files)

-- `os.Remove` of the tarball, whose error is only logged.
abbrev pub after_unpack :
    (GoString → Bool) → GoString → GsfaCalls → List GoString → Bool × List GoString
after_unpack fails root g files = if not g.unpacks then (false, files) else (
  g.found_after && g.reader_opens,
  if fails (tarball root) then files else remove_file (tarball root) files,
)

abbrev pub after_tarball :
    (GoString → Bool) → GoString → GsfaCalls → Option Bool × List GoString → Bool × List GoString
after_tarball fails root g (some canceled, files) = (false, files)
after_tarball fails root g (none, files) = after_unpack fails root g (add_all root g.unpacked files)

-- `OpenGsfa`: whether the error is nil, and the files.
unfoldable pub open_index :
    (GoString → Bool) → GoString → GsfaCalls → List GoString → Bool × List GoString
open_index fails root g files =
    if g.found_before
    then (g.reader_opens, files)
    else after_tarball fails root g (fetch g.tarball_end (tarball root) files)

-- `RemoveAll` of the root; `fails` says which files stay.
abbrev pub remove_under : (GoString → Bool) → GoString → List GoString → List GoString
remove_under fails root [] = []
remove_under fails root (f ∷ files) =
    let rest = remove_under fails root files in
    if under root f && not (fails f) then rest else f ∷ rest

-- The function that `discoverSlots` defers once the index is open.
abbrev pub release : Bool → (GoString → Bool) → GoString → Bool × List GoString → List GoString
release keep fails root (false, files) = files
release keep fails root (true, files) = if keep then files else remove_under fails root files
