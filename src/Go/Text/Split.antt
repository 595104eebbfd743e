-- ===== src/Go/Text/Split.antt =====
-- Splitting what was joined, and trimming what has no spaces.
use mathlib.Core.List.{reverse, reverse-reverse, reverse-cons}
use epochfill.Common.{
  ℕ, ◌≡◌, ◌∙◌, refl, ap, false, List, [], ◌∷◌, ◌++◌, nat_eq, All, All-append, arith,
}
use epochfill.Go.Text.{GoString, split, join, is_space, trim_left, trim_space}

-- No byte of the text is the separator.
abbrev pub Without : ℕ → GoString → Type 0
Without sep = All (λ c. nat_eq c sep ≡ false)

split-append :
    (sep : ℕ) (part s : GoString)
    → Without sep part
    → split sep (part ++ (sep ∷ s)) ≡ part ∷ split sep s
unfolding split
split-append sep [] s h = ground arith
split-append sep (c ∷ part) s h = rw (h.0, split-append sep part s h.1)

split-Without : (sep : ℕ) (part : GoString) → Without sep part → split sep part ≡ part ∷ []
unfolding split
split-Without sep [] h = refl
split-Without sep (c ∷ part) h = rw (h.0, split-Without sep part h.1)

-- Splitting a joined list gives the parts back, if there is one and none holds the separator.
pub split-join :
    (sep : ℕ) (part : GoString) (parts : List GoString)
    → All (Without sep) (part ∷ parts)
    → split sep (join (sep ∷ []) (part ∷ parts)) ≡ part ∷ parts
unfolding join
split-join sep part [] h = split-Without sep part h.0
split-join sep part (next ∷ parts) h =
    split-append sep part (join (sep ∷ []) (next ∷ parts)) h.0
    ∙ ap (λ (t : List GoString). part ∷ t) (split-join sep next parts h.1)

abbrev pub NoSpace : GoString → Type 0
NoSpace = All (λ c. is_space c ≡ false)

trim_left-NoSpace : (s : GoString) → NoSpace s → trim_left s ≡ s
unfolding trim_left
trim_left-NoSpace [] h = refl
trim_left-NoSpace (c ∷ s) h = rw h.0

NoSpace-reverse : (s : GoString) → NoSpace s → NoSpace (reverse s)
NoSpace-reverse [] h = tt
NoSpace-reverse (c ∷ s) h =
    rw reverse-cons
      (All-append (λ c. is_space c ≡ false) (reverse s) (c ∷ []) (NoSpace-reverse s h.1) (h.0, tt))

pub trim_space-NoSpace : (s : GoString) → NoSpace s → trim_space s ≡ s
unfolding trim_space
trim_space-NoSpace s h =
    rw (trim_left-NoSpace s h, trim_left-NoSpace (reverse s) (NoSpace-reverse s h))
      (reverse-reverse s)
