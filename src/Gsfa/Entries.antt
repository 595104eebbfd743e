-- ===== src/Gsfa/Entries.antt =====
-- What `extractTarZstd` of backfill/gsfa.go does to each path.
use epochfill.Common.{
  ℕ, suc, ◌≡◌, ◌∙◌, refl, ap, sym, inl, inr, Bool, true, false, Bool-cases, Option, none, some,
  List, [], ◌∷◌, take, ◌==◌, All, text_equality, if◌then◌else◌,
}
use epochfill.Go.Map.{lookup, lookup-insert}
use epochfill.Go.Text.{GoString}
use epochfill.Parts.{WriteEnd, whole, not_opened, cut}
use epochfill.Gsfa.{safe_join}
use epochfill.Gsfa.Extract.{
  Kind, directory, regular, other, TarEntry, Files, write_file, extract_to, extract_at,
  extract_entries,
}

-- Whether an entry's file goes to the path.
abbrev pub is_at : GoString → Kind → Option GoString → Bool
is_at path regular (some target) = target == path
is_at path _ _ = false

-- What the archive has for a path: the body of the last regular entry that goes there.
abbrev pub later_or : Option (List ℕ) → Bool → List ℕ → Option (List ℕ)
later_or (some b) here body = some b
later_or none here body = if here then some body else none

abbrev pub last_body : GoString → GoString → List TarEntry → Option (List ℕ)
last_body dst path [] = none
last_body dst path (e ∷ r) =
    later_or (last_body dst path r) (is_at path e.kind (safe_join dst e.name)) e.body

abbrev pub or_before : Option (List ℕ) → Option (List ℕ) → Option (List ℕ)
or_before none before = before
or_before (some b) before = some b

extract_to-lookup :
    (path target : GoString) (body : List ℕ) (size : ℕ) (files : Files) (kind : Kind)
    (end : WriteEnd)
    → (extract_to kind end target body size files).0 ≡ true
    → lookup path (extract_to kind end target body size files).1
      ≡ (if is_at path kind (some target) then some body else lookup path files)
unfolding extract_to write_file
extract_to-lookup path target body size files directory end ok = refl
extract_to-lookup path target body size files other end ok = refl
extract_to-lookup path target body size files regular whole ok =
    lookup-insert target path body files
extract_to-lookup path target body size files regular not_opened ok = cc
extract_to-lookup path target body size files regular (cut k) ok = cc

extract_to-away :
    (path target : GoString) (body : List ℕ) (size : ℕ) (files : Files) (kind : Kind)
    (end : WriteEnd)
    → is_at path kind (some target) ≡ false
    → lookup path (extract_to kind end target body size files).1 ≡ lookup path files
unfolding extract_to write_file
extract_to-away path target body size files directory end away = refl
extract_to-away path target body size files other end away = refl
extract_to-away path target body size files regular whole away =
    rw (lookup-insert target path body files, away)
extract_to-away path target body size files regular not_opened away = refl
extract_to-away path target body size files regular (cut k) away =
    rw (lookup-insert target path (take k body) files, away)

-- An entry that ends well puts its file in place, and no entry touches another path.
extract_at-lookup :
    (path : GoString) (end : WriteEnd) (target : Option GoString) (e : TarEntry) (files : Files)
    → (extract_at end target e files).0 ≡ true
    → lookup path (extract_at end target e files).1
      ≡ (if is_at path e.kind target then some e.body else lookup path files)
unfolding extract_at
extract_at-lookup path end none e files ok = cc
extract_at-lookup path end (some target) e files ok =
    extract_to-lookup path target e.body e.size files e.kind end ok

extract_at-away :
    (path : GoString) (end : WriteEnd) (target : Option GoString) (e : TarEntry) (files : Files)
    → is_at path e.kind target ≡ false
    → lookup path (extract_at end target e files).1 ≡ lookup path files
unfolding extract_at
extract_at-away path end none e files away = refl
extract_at-away path end (some target) e files away =
    extract_to-away path target e.body e.size files e.kind end away

or_before-later_or :
    (later before : Option (List ℕ)) (here : Bool) (body : List ℕ)
    → or_before (later_or later here body) before
      ≡ or_before later (if here then some body else before)
or_before-later_or (some b) before here body = refl
or_before-later_or none before true body = refl
or_before-later_or none before false body = refl

pub extract_entries-lookup :
    (ends : ℕ → WriteEnd) (dst path : GoString) (n : ℕ) (entries : List TarEntry) (files : Files)
    → (extract_entries ends dst n entries files).0 ≡ true
    → lookup path (extract_entries ends dst n entries files).1
      ≡ or_before (last_body dst path entries) (lookup path files)
unfolding extract_entries
extract_entries-lookup ends dst path n [] files ok = refl
extract_entries-lookup ends dst path n (e ∷ r) files ok =
    let target = safe_join dst e.name in
    let now = (extract_at (ends n) target e files).1 in
    elim (Bool-cases (extract_at (ends n) target e files).0) [
      | inl fine ↦ rw fine (
          extract_entries-lookup ends dst path (suc n) r now (rw fine at ok)
          ∙ (ap (or_before (last_body dst path r))
                (extract_at-lookup path (ends n) target e files fine)
              ∙ sym (
                  or_before-later_or (last_body dst path r) (lookup path files)
                    (is_at path e.kind target) e.body)))
      | inr fails ↦ absurd (cc (rw fails at ok))
    ]

-- None of the entries goes to the path.
abbrev pub Away : GoString → GoString → List TarEntry → Type 0
Away dst path = All (λ e. is_at path e.kind (safe_join dst e.name) ≡ false)

pub extract_entries-Away :
    (ends : ℕ → WriteEnd) (dst path : GoString) (n : ℕ) (entries : List TarEntry) (files : Files)
    → Away dst path entries
    → lookup path (extract_entries ends dst n entries files).1 ≡ lookup path files
unfolding extract_entries
extract_entries-Away ends dst path n [] files away = refl
extract_entries-Away ends dst path n (e ∷ r) files away =
    let target = safe_join dst e.name in
    let now = (extract_at (ends n) target e files).1 in
    elim (Bool-cases (extract_at (ends n) target e files).0) [
      | inl fine ↦ rw fine (
          extract_entries-Away ends dst path (suc n) r now away.1
          ∙ extract_at-away path (ends n) target e files away.0)
      | inr fails ↦ rw fails (extract_at-away path (ends n) target e files away.0)
    ]

pub last_body-Away :
    (dst path : GoString) (entries : List TarEntry)
    → Away dst path entries
    → last_body dst path entries ≡ none
last_body-Away dst path [] away = refl
last_body-Away dst path (e ∷ r) away = rw (last_body-Away dst path r away.1, away.0)

-- Every file of the archive is there, with its whole content.
abbrev pub Extracted : GoString → List TarEntry → Files → Type 0
Extracted root entries files =
    (path : GoString) (body : List ℕ)
    → last_body root path entries ≡ some body
    → lookup path files ≡ some body
