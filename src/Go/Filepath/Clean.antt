-- ===== src/Go/Filepath/Clean.antt =====
-- The elements of a cleaned path, and of a path below another one.
use mathlib.Core.List.{reverse, reverse-cons, append_assoc}
use mathlib.Core.Path.{subst}
use epochfill.Common.{
  ℕ, ◌≡◌, ◌≢◌, ◌∙◌, refl, sym, inl, inr, Bool, true, false, Bool-cases, List, [], ◌∷◌, ◌++◌, nat_eq,
  ◌==◌, All, text_equality, text_eq_iff, arith,
}
use epochfill.Go.Text.{GoString, split, onto_first}
use epochfill.Go.Text.Split.{Without}
use epochfill.Go.Filepath.{slash, dot, dot_dot, go_up, add_element, resolve}

-- An element that stays inside: it is not empty, it is neither `.` nor `..`, and it has no slash.
abbrev pub Plain : GoString → Type 0
Plain e = ((e == []) ≡ false) × ((e == dot) ≡ false) × ((e == dot_dot) ≡ false) × Without slash e

onto_first-append :
    (c : ℕ) (l m : List GoString) → l ≢ [] → onto_first c (l ++ m) ≡ onto_first c l ++ m
onto_first-append c [] m h = absurd (h refl)
onto_first-append c (part ∷ parts) m h = refl

onto_first-ne : (c : ℕ) (l : List GoString) → onto_first c l ≢ []
onto_first-ne c [] = λ e. cc
onto_first-ne c (part ∷ parts) = λ e. cc

split-ne : (sep : ℕ) (s : GoString) → split sep s ≢ []
unfolding split
split-ne sep [] = λ e. cc
split-ne sep (c ∷ s) = elim (Bool-cases (nat_eq c sep)) [
  | inl same ↦ rw same (λ e. cc)
  | inr other ↦ rw other (onto_first-ne c (split sep s))
]

-- Splitting at a separator splits both sides.
pub split_at : (sep : ℕ) (s t : GoString) → split sep (s ++ (sep ∷ t)) ≡ split sep s ++ split sep t
unfolding split
split_at sep [] t = ground arith
split_at sep (c ∷ s) t = elim (Bool-cases (nat_eq c sep)) [
  | inl same ↦ rw (same, split_at sep s t)
  | inr other ↦
      rw (other, split_at sep s t)
        (onto_first-append c (split sep s) (split sep t) (split-ne sep s))
]

onto_first-Without :
    (sep c : ℕ) (l : List GoString)
    → nat_eq c sep ≡ false
    → All (Without sep) l
    → All (Without sep) (onto_first c l)
onto_first-Without sep c [] h q = ((h, tt), tt)
onto_first-Without sep c (part ∷ parts) h q = ((h, q.0), q.1)

pub split_parts-Without : (sep : ℕ) (s : GoString) → All (Without sep) (split sep s)
unfolding split
split_parts-Without sep [] = (tt, tt)
split_parts-Without sep (c ∷ s) = elim (Bool-cases (nat_eq c sep)) [
  | inl same ↦ rw same (tt, split_parts-Without sep s)
  | inr other ↦ rw other (onto_first-Without sep c (split sep s) other (split_parts-Without sep s))
]

pub resolve-append :
    (rooted : Bool) (sofar l m : List GoString)
    → resolve rooted sofar (l ++ m) ≡ resolve rooted (resolve rooted sofar l) m
resolve-append rooted sofar [] m = refl
resolve-append rooted sofar (e ∷ l) m = resolve-append rooted (add_element rooted sofar e) l m

-- Plain elements are kept as they are.
pub resolve-Plain :
    (rooted : Bool) (sofar l : List GoString)
    → All Plain l
    → resolve rooted sofar l ≡ reverse l ++ sofar
resolve-Plain rooted sofar [] h = refl
resolve-Plain rooted sofar (e ∷ l) ((full, not_dot, not_up, whole), h) =
    rw (full, not_dot, not_up, reverse-cons)
      (resolve-Plain rooted (e ∷ sofar) l h ∙ sym (append_assoc (reverse l) (e ∷ []) sofar))

-- What is left of a path has a property that `..` has, where it can be left, and that the elements
-- have that are not dropped.
module _ (P Q : GoString → Type 0) (rooted : Bool) (up : rooted ≡ false → P dot_dot)
    (keep : (e : GoString)
      → (e == []) ≡ false
      → (e == dot) ≡ false
      → (e == dot_dot) ≡ false
      → Q e
      → P e) where
  go_up-All :
      (top : Bool) (sofar : List GoString) → top ≡ rooted → All P sofar → All P (go_up top sofar)
  go_up-All true [] h q = tt
  go_up-All false [] h q = (up (sym h), tt)
  go_up-All top (last ∷ earlier) h q = elim (Bool-cases (last == dot_dot)) [
    | inl same ↦ rw same (subst P ((text_eq_iff last dot_dot).0 same) q.0, q)
    | inr other ↦ rw other q.1
  ]

  add_element-All :
      (sofar : List GoString) (e : GoString)
      → Q e
      → All P sofar
      → All P (add_element rooted sofar e)
  add_element-All sofar e here q = elim (Bool-cases (e == [])) [
    | inl none ↦ rw none q
    | inr full ↦ elim (Bool-cases (e == dot)) [
      | inl same ↦ rw (full, same) q
      | inr not_dot ↦ elim (Bool-cases (e == dot_dot)) [
        | inl ups ↦ rw (full, not_dot, ups) (go_up-All rooted sofar refl q)
        | inr not_up ↦ rw (full, not_dot, not_up) (keep e full not_dot not_up here, q)
      ]
    ]
  ]

  pub resolve-All :
      (sofar l : List GoString) → All Q l → All P sofar → All P (resolve rooted sofar l)
  resolve-All sofar [] h q = q
  resolve-All sofar (e ∷ l) h q =
      resolve-All (add_element rooted sofar e) l h.1 (add_element-All sofar e h.0 q)
