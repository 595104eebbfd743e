-- ===== src/Run/Files.antt =====
-- Which files of the index directory are there after the calls of backfill/index.go.
use epochfill.Common.{
  ◌≡◌, ◌∙◌, refl, ap, inl, inr, Bool, not, Bool-cases, List, [], ◌∷◌, ◌++◌, elem, ◌==◌, ◌||◌, ◌&&◌,
  text_equality, text_eq_iff, if◌then◌else◌, arith,
}
use epochfill.Go.Text.{GoString}
use epochfill.Run.Lifecycle.{cleanup}
use epochfill.Run.Disk.{add_file, remove_file}

elem-append : (p : GoString) (l m : List GoString) → elem p (l ++ m) ≡ (elem p l || elem p m)
elem-append p [] m = refl
elem-append p (q ∷ l) m = ground (arith, elem-append p l m)

pub elem-add_file :
    (p q : GoString) (files : List GoString) → elem p (add_file q files) ≡ (elem p files || q == p)
elem-add_file p q files = elim (Bool-cases (elem q files)) [
  | inl there ↦ elim (Bool-cases (q == p)) [
    | inl same ↦
        rw there (ground (arith, same, ap (λ r. elem r files) ((text_eq_iff q p).0 same), there))
    | inr apart ↦ rw there (ground (arith, apart))
  ]
  | inr missing ↦ rw missing (elem-append p files (q ∷ []) ∙ ground arith)
]

pub elem-remove_file :
    (p q : GoString) (files : List GoString)
    → elem p (remove_file q files) ≡ (elem p files && not (q == p))
elem-remove_file p q [] = refl
elem-remove_file p q (f ∷ files) =
    ground (arith, text_eq_iff f q, text_eq_iff f p, text_eq_iff q p, elem-remove_file p q files)

-- Removing a path, unless that fails.
elem-removed :
    (p q : GoString) (fails : GoString → Bool) (files : List GoString)
    → elem p (if fails q then files else remove_file q files)
      ≡ (elem p files && (not (q == p) || fails p))
elem-removed p q fails files = elim (Bool-cases (q == p)) [
  | inl same ↦
      let e : fails q ≡ fails p = ap fails ((text_eq_iff q p).0 same) in
      ground (arith, same, e, elem-remove_file p q files)
  | inr apart ↦ ground (arith, apart, elem-remove_file p q files)
]

pub elem-cleanup :
    (p a b : GoString) (fails : GoString → Bool) (files : List GoString)
    → elem p (cleanup fails (a ∷ (b ∷ [])) files)
      ≡ (elem p files && (not (a == p) || fails p) && (not (b == p) || fails p))
unfolding cleanup
elem-cleanup p a b fails files =
    elem-removed p b fails (if fails a then files else remove_file a files)
    ∙ ap (λ x. x && (not (b == p) || fails p)) (elem-removed p a fails files)
