-- ===== src/Gsfa/Tarball.antt =====
-- `extractTarZstd` of backfill/gsfa.go with the copies of Gsfa/Unpack in it, entry by entry.
use epochfill.Common.{
  ℕ, suc, ◌≤◌, ◌≡◌, ◌∙◌, refl, ap, sym, Bool, true, false, Bool-cases, inl, inr, Option, none, some,
  ◌>>=◌, List, [], ◌∷◌, ◌&&◌, length, map, nat_eq, All, if◌then◌else◌, arith,
}
use epochfill.Go.Text.{GoString, bytes_of}
use epochfill.Go.Filepath.{join_path}
use epochfill.Parts.{WriteEnd, whole, not_opened}
use epochfill.Progress.{Output}
use epochfill.Progress.Track.{Small}
use epochfill.Gsfa.{done_marker, safe_join}
use epochfill.Gsfa.Extract.{
  Kind, directory, regular, other, TarEntry, Files, write_file, extract_to, extract_at,
  extract_entries, extract_tar,
}
use epochfill.Gsfa.Unpack.{Stream, Rounds, copy_file}
use epochfill.Gsfa.Unpack.Stops.{body_of, copy_end}
use epochfill.Gsfa.Unpacked.{copy_file-write_file}

-- An entry with what the reader returns for its body, and what is outside of the program while it is
-- extracted; `opened`: the directories are made, and the file of a regular entry is created.
pub record StreamEntry : Type 0 where
  pub name : GoString
  pub kind : Kind
  pub size : ℕ
  pub stream : Stream
  pub opened : Bool
  pub rounds : Rounds
  pub label : GoString

module _ (env : GoString) (tty : Bool) where
  abbrev pub without_output {ℓ} : {A : Type ℓ} → Option (A × List Output) → Option A
  without_output none = none
  without_output (some (a, out)) = some a

  -- The switch on `hdr.Typeflag`; `none` is a panic.
  unfoldable pub copy_to : Kind → StreamEntry → GoString → Files → Option (Bool × Files)
  copy_to directory e target files = some (e.opened, files)
  copy_to regular e target files =
      without_output (copy_file e.opened env tty e.label e.rounds target e.stream e.size files)
  copy_to other e target files = some (true, files)

  unfoldable pub copy_at : Option GoString → StreamEntry → Files → Option (Bool × Files)
  copy_at none e files = some (false, files)
  copy_at (some target) e files = copy_to e.kind e target files

  -- The loop over the entries.
  unfoldable pub copy_entries : GoString → List StreamEntry → Files → Option (Bool × Files)
  copy_entries dst [] files = some (true, files)
  copy_entries dst (e ∷ r) files = do
    (ok, now) ← copy_at (safe_join dst e.name) e files
    let rest = copy_entries dst r now in if ok then rest else some (false, now)

  -- After the loop, which `io.EOF` ends if `intact`.
  abbrev pub mark_extracted : Bool → WriteEnd → GoString → Bool × Files → Bool × Files
  mark_extracted intact marker_end dst (ok, now) =
      if ok && intact
      then write_file marker_end (join_path dst done_marker) (bytes_of "ok") 2 now
      else (false, now)

  unfoldable pub copy_tar :
      Bool → WriteEnd → GoString → List StreamEntry → Files → Option (Bool × Files)
  copy_tar intact marker_end dst entries files = do
    done ← copy_entries dst entries files
    some (mark_extracted intact marker_end dst done)

-- The entry as the whole of its bytes, and how its extraction ends.
abbrev pub as_entry : StreamEntry → TarEntry
as_entry e = record { name = e.name; kind = e.kind; size = e.size; body = body_of e.stream }

abbrev pub end_of : Kind → StreamEntry → WriteEnd
end_of regular e = copy_end e.opened e.rounds.fault e.stream
end_of _ e = if e.opened then whole else not_opened

abbrev pub ends_from : ℕ → List StreamEntry → ℕ → WriteEnd
ends_from n [] k = whole
ends_from n (e ∷ r) k = if nat_eq n k then end_of e.kind e else ends_from (suc n) r k

abbrev pub Sized : StreamEntry → Type 0
Sized e = Small e.size × Small (length (body_of e.stream))

module _ (env : GoString) (tty : Bool) where
  copy_to-extract_to :
      (kind : Kind) (target : GoString) (e : StreamEntry) (files : Files)
      → Sized e
      → copy_to env tty kind e target files
        ≡ some (extract_to kind (end_of kind e) target (body_of e.stream) e.size files)
  unfolding copy_to extract_to
  copy_to-extract_to directory target e files h = elim (Bool-cases e.opened) [
    | inl made_all ↦ rw made_all refl
    | inr refused ↦ rw refused refl
  ]
  copy_to-extract_to regular target e files (fits, small) =
      let (out, copied, fine) =
        copy_file-write_file e.opened env tty e.label e.rounds target e.stream e.size files fits
          small in
      rw copied refl
  copy_to-extract_to other target e files h = refl

  copy_at-extract_at :
      (target : Option GoString) (e : StreamEntry) (files : Files)
      → Sized e
      → copy_at env tty target e files
        ≡ some (extract_at (end_of e.kind e) target (as_entry e) files)
  unfolding copy_at extract_at
  copy_at-extract_at none e files h = refl
  copy_at-extract_at (some target) e files h = copy_to-extract_to e.kind target e files h

  extract_entries-agree :
      (ends ends' : ℕ → WriteEnd) (dst : GoString) (n : ℕ) (entries : List TarEntry) (files : Files)
      → ((k : ℕ) → n ≤ k → ends k ≡ ends' k)
      → extract_entries ends dst n entries files ≡ extract_entries ends' dst n entries files
  unfolding extract_entries
  extract_entries-agree ends ends' dst n [] files h = refl
  extract_entries-agree ends ends' dst n (e ∷ r) files h =
      let done = extract_at (ends' n) (safe_join dst e.name) e files in
      rw (h n (omega arith)) (
        ap (λ rest. if done.0 then rest else (false, done.1))
          (extract_entries-agree ends ends' dst (suc n) r done.1 (λ k later. h k (omega arith))))

  copied_round :
      (dst : GoString) (target : Option GoString) (e : StreamEntry) (r : List StreamEntry)
      (files : Files) (done : Bool × Files)
      → copy_at env tty target e files ≡ some done
      → (rest : Bool × Files) → copy_entries env tty dst r done.1 ≡ some rest
      → (do
        (ok, now) ← copy_at env tty target e files
        let later = copy_entries env tty dst r now in if ok then later else some (false, now))
        ≡ some (if done.0 then rest else (false, done.1))
  copied_round dst target e r files done copied rest more = elim (Bool-cases done.0) [
    | inl went ↦ rw (copied, more, went) refl
    | inr stopped ↦ rw (copied, more, stopped) refl
  ]

  copy_entries-extract_entries :
      (dst : GoString) (n : ℕ) (entries : List StreamEntry) (files : Files)
      → All Sized entries
      → copy_entries env tty dst entries files
        ≡ some (extract_entries (ends_from n entries) dst n (map as_entry entries) files)
  unfolding copy_entries extract_entries
  copy_entries-extract_entries dst n [] files h = refl
  copy_entries-extract_entries dst n (e ∷ r) files (sized, h) =
      let ends = ends_from n (e ∷ r) in
      let done = extract_at (end_of e.kind e) (safe_join dst e.name) (as_entry e) files in
      let here : ends n ≡ end_of e.kind e =
        (let same : nat_eq n n ≡ true = ground arith in rw same refl) in
      let later =
        extract_entries-agree (ends_from (suc n) r) ends dst (suc n) (map as_entry r) done.1
          (λ k past. (let apart : nat_eq n k ≡ false = ground arith in rw apart refl)) in
      copied_round dst (safe_join dst e.name) e r files done
        (copy_at-extract_at (safe_join dst e.name) e files sized)
        (extract_entries (ends_from (suc n) r) dst (suc n) (map as_entry r) done.1)
        (copy_entries-extract_entries dst (suc n) r done.1 h)
      ∙ (ap (λ rest. some (if done.0 then rest else (false, done.1))) later
          ∙ ap
              (λ end.
                let now = extract_at end (safe_join dst e.name) (as_entry e) files in
                some (
                  if now.0
                  then extract_entries ends dst (suc n) (map as_entry r) now.1
                  else (false, now.1)))
              (sym here))

  -- For entries whose header's size and whose bytes, a hundred times over, are an `int64`: the
  -- extraction with its copies, piece by piece with the bar, the timers and the faults of the file,
  -- does not panic, and its error and the files it leaves are those of `extract_tar` on the
  -- entries with all of their bytes, each ending where its directories, its file, or the first read
  -- or write fails.
  pub copy_tar-extract_tar :
      (intact : Bool) (marker_end : WriteEnd) (dst : GoString) (entries : List StreamEntry)
      (files : Files)
      → All Sized entries
      → copy_tar env tty intact marker_end dst entries files
        ≡ some
            (extract_tar (ends_from 0 entries) intact marker_end dst (map as_entry entries) files)
  unfolding copy_tar extract_tar
  copy_tar-extract_tar intact marker_end dst entries files h =
      rw (copy_entries-extract_entries dst 0 entries files h) refl
