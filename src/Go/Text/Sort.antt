-- ===== src/Go/Text/Sort.antt =====
-- `sort.Strings` keeps the elements, and its result ascends.
use epochfill.Common.{
  ◌≡◌, ◌∙◌, refl, Bool, true, false, List, [], ◌∷◌, all_of, elem, text_eq, text_equality, arith,
  ◌&&◌, ◌||◌,
}
use epochfill.Go.Text.{GoString, text_ltb, insert_sorted, sort_strings}

all_of-insert_sorted :
    (p : GoString → Bool) (s : GoString) (l : List GoString)
    → all_of p (insert_sorted s l) ≡ (p s && all_of p l)
all_of-insert_sorted p s [] = refl
all_of-insert_sorted p s (t ∷ r) = ground (arith, all_of-insert_sorted p s r)

pub all_of-sort_strings :
    (p : GoString → Bool) (l : List GoString) → all_of p (sort_strings l) ≡ all_of p l
unfolding sort_strings
all_of-sort_strings p [] = refl
all_of-sort_strings p (s ∷ r) =
    ground (arith, all_of-insert_sorted p s (sort_strings r), all_of-sort_strings p r)

elem-insert_sorted :
    (x s : GoString) (l : List GoString) → elem x (insert_sorted s l) ≡ ((text_eq s x) || elem x l)
elem-insert_sorted x s [] = refl
elem-insert_sorted x s (t ∷ r) = ground (arith, elem-insert_sorted x s r)

pub elem-sort_strings : (x : GoString) (l : List GoString) → elem x (sort_strings l) ≡ elem x l
unfolding sort_strings
elem-sort_strings x [] = refl
elem-sort_strings x (s ∷ r) =
    ground (arith, elem-insert_sorted x s (sort_strings r), elem-sort_strings x r)

-- Each element is smaller than the next one, so none is there twice.
abbrev pub Ascends : List GoString → Type 0
Ascends [] = Unit
Ascends (s ∷ []) = Unit
Ascends (s ∷ t ∷ r) = (text_ltb s t ≡ true) × Ascends (t ∷ r)

text_ltb_total : (s t : GoString) → text_ltb s t ≡ false → text_eq s t ≡ false → text_ltb t s ≡ true
text_ltb_total [] [] h k = cc
text_ltb_total [] (d ∷ t) h k = cc
text_ltb_total (c ∷ s) [] h k = refl
text_ltb_total (c ∷ s) (d ∷ t) h k = ground (arith, text_ltb_total s t)

insert_sorted-Ascends :
    (s : GoString) (l : List GoString) → elem s l ≡ false → Ascends l → Ascends (insert_sorted s l)
insert_sorted-Ascends s [] new h = tt
insert_sorted-Ascends s (t ∷ []) new h = ground (arith, text_ltb_total t s)
insert_sorted-Ascends s (t ∷ u ∷ r) new h =
    ground (arith, text_ltb_total t s, insert_sorted-Ascends s (u ∷ r))

-- No element stands twice in the list.
abbrev pub Distinct : List GoString → Type 0
Distinct [] = Unit
Distinct (s ∷ r) = (elem s r ≡ false) × Distinct r

pub sort_strings-Ascends : (l : List GoString) → Distinct l → Ascends (sort_strings l)
unfolding sort_strings
sort_strings-Ascends [] h = tt
sort_strings-Ascends (s ∷ r) h =
    insert_sorted-Ascends s (sort_strings r) (elem-sort_strings s r ∙ h.0)
      (sort_strings-Ascends r h.1)
