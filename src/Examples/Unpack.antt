-- ===== src/Examples/Unpack.antt =====
-- An entry that is read in two pieces, the second of which does not fit on the disk.
use epochfill.Common.{
  ℕ, map, zero, suc, ◌≡◌, true, false, refl, Option, none, some, List, [], ◌∷◌, arith,
}
use epochfill.Go.Text.{bytes_of}
use epochfill.Gsfa.Extract.{write_file, extract_tar, directory, regular}
use epochfill.Gsfa.Unpack.{Stream, gives, last, Rounds}
use epochfill.Gsfa.Unpack.Stops.{body_of, copy_end}
use epochfill.Gsfa.Tarball.{StreamEntry, copy_tar, ends_from, as_entry, copy_tar-extract_tar}
use epochfill.Parts.{whole}

abbrev pieces : Stream
pieces = gives (1 ∷ 2 ∷ []) (last (3 ∷ 4 ∷ []) true)

abbrev full_disk : ℕ → Option ℕ
full_disk zero = none
full_disk (suc _) = some 1

abbrev rounds : Rounds
rounds = record { read_time = λ _. 5; write_time = λ _. 7; due = λ _. true; fault = full_disk }

abbrev entries : List StreamEntry
entries =
    record {
      name = bytes_of "d";
      kind = directory;
      size = 0;
      stream = last [] true;
      opened = true;
      rounds = rounds;
      label = [];
    }
    ∷ (record {
      name = bytes_of "d/a";
      kind = regular;
      size = 67108864;
      stream = pieces;
      opened = true;
      rounds = rounds;
      label = bytes_of "extract a";
    }
        ∷ [])

copy_tar-extract_tar_example :
    copy_tar (bytes_of "100") true true whole (bytes_of "i") entries []
    ≡ some (extract_tar (ends_from 0 entries) true whole (bytes_of "i") (map as_entry entries) [])
copy_tar-extract_tar_example =
    copy_tar-extract_tar (bytes_of "100") true true whole (bytes_of "i") entries []
      ((omega arith, omega arith), ((omega arith, omega arith), tt))

stored_three :
    write_file (copy_end true full_disk pieces) (bytes_of "i/a") (body_of pieces) 67108864 []
    ≡ (false, (bytes_of "i/a", 1 ∷ 2 ∷ 3 ∷ []) ∷ [])
unfolding write_file
stored_three = refl
