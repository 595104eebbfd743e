-- ===== src/Go/Filepath/Below.antt =====
-- The cleaned path of a name below a directory.
use mathlib.Core.List.{reverse, reverse-cons, reverse-append, reverse-reverse, append_assoc}
use epochfill.Common.{
  ℕ, ◌≡◌, ◌≢◌, ◌∙◌, refl, ap, sym, inl, inr, Bool, true, false, Bool-cases, List, [], ◌∷◌, ◌++◌,
  nat_eq, ◌==◌, All, All-append, text_equality,
}
use epochfill.Go.Text.{GoString, split, join}
use epochfill.Go.Text.Split.{Without, split-join}
use epochfill.Go.Filepath.{slash, is_rooted, resolve, elements, or_dot, clean}
use epochfill.Go.Filepath.Clean.{
  Plain, split_at, split_parts-Without, resolve-append, resolve-Plain, resolve-All,
}

All-reverse : (P : GoString → Type 0) (l : List GoString) → All P l → All P (reverse l)
All-reverse P [] h = tt
All-reverse P (e ∷ l) h =
    rw reverse-cons (All-append P (reverse l) (e ∷ []) (All-reverse P l h.1) (h.0, tt))

All-Without : (l : List GoString) → All Plain l → All (Without slash) l
All-Without [] h = tt
All-Without (e ∷ l) ((full, not_dot, not_up, whole), h) = (whole, All-Without l h)

-- A rooted path has plain elements only.
pub elements-Plain : (name : GoString) → All Plain (elements (slash ∷ name))
unfolding elements
elements-Plain name = All-reverse Plain (resolve true [] (split slash (slash ∷ name))) (
    resolve-All Plain (Without slash) true (λ e. cc)
      (λ e full not_dot not_up whole. (full, not_dot, not_up, whole)) []
      (split slash (slash ∷ name)) (split_parts-Without slash (slash ∷ name)) tt)

abbrev Full : GoString → Type 0
Full e = (e == []) ≡ false

elements-Full : (path : GoString) → All Full (elements path)
unfolding elements
elements-Full path = All-reverse Full (resolve (is_rooted path) [] (split slash path)) (
    resolve-All Full (Without slash) (is_rooted path) (λ e. refl)
      (λ e full not_dot not_up whole. full) [] (split slash path) (split_parts-Without slash path)
      tt)

resolve_rest :
    (rooted : Bool) (sofar cs : List GoString)
    → All Plain cs
    → resolve rooted sofar (split slash (join (slash ∷ []) cs)) ≡ reverse cs ++ sofar
unfolding split join
resolve_rest rooted sofar [] h = refl
resolve_rest rooted sofar (e ∷ l) h =
    rw (split-join slash e l (All-Without (e ∷ l) h)) (resolve-Plain rooted sofar (e ∷ l) h)

clean_rooted :
    (name : GoString) → clean (slash ∷ name) ≡ slash ∷ join (slash ∷ []) (elements (slash ∷ name))
unfolding clean
clean_rooted name = refl

-- The elements of `base/<the cleaned name>` are those of the base and then those of the name.
pub elements_below :
    (c : ℕ) (s name : GoString)
    → elements ((c ∷ s) ++ (slash ∷ clean (slash ∷ name)))
      ≡ elements (c ∷ s) ++ elements (slash ∷ name)
unfolding split
elements_below c s name =
    let cs = elements (slash ∷ name) in
    let rooted = nat_eq c slash in
    let base = resolve rooted [] (split slash (c ∷ s)) in
    let e₁ : resolve rooted [] (split slash ((c ∷ s) ++ (slash ∷ clean (slash ∷ name))))
        ≡ reverse cs ++ base =
      rw
        (
          split_at slash (c ∷ s) (clean (slash ∷ name)),
          resolve-append rooted [] (split slash (c ∷ s)) (split slash (clean (slash ∷ name))),
          clean_rooted name,
          split_at slash [] (join (slash ∷ []) cs),
        )
        (resolve_rest rooted base cs (elements-Plain name)) in
    unfold elements in
    (ap reverse e₁
      ∙ reverse-append (reverse cs) base
      ∙ ap (λ l. reverse base ++ l) (reverse-reverse cs))

-- A path and the elements below it.
abbrev pub below : GoString → List GoString → GoString
below base [] = base
below base (e ∷ l) = base ++ (slash ∷ join (slash ∷ []) (e ∷ l))

below-append : (s t : GoString) (l : List GoString) → below (s ++ t) l ≡ s ++ below t l
below-append s t [] = refl
below-append s t (e ∷ l) = append_assoc s t (slash ∷ join (slash ∷ []) (e ∷ l))

join-below :
    (d : GoString) (ds cs : List GoString)
    → join (slash ∷ []) ((d ∷ ds) ++ cs) ≡ below (join (slash ∷ []) (d ∷ ds)) cs
unfolding join
join-below d [] [] = refl
join-below d [] (e ∷ l) = refl
join-below d (d' ∷ ds) cs =
    ap (λ t. d ++ (slash ∷ t)) (join-below d' ds cs)
    ∙ sym (
        below-append d (slash ∷ join (slash ∷ []) (d' ∷ ds)) cs
        ∙ ap (λ t. d ++ t) (below-append (slash ∷ []) (join (slash ∷ []) (d' ∷ ds)) cs))

join-ne : (l : List GoString) → All Full l → l ≢ [] → join (slash ∷ []) l ≢ []
unfolding join
join-ne [] h ne = absurd (ne refl)
join-ne ([] ∷ r) h ne = cc
join-ne ((c ∷ s) ∷ []) h ne = λ e. cc
join-ne ((c ∷ s) ∷ (next ∷ r)) h ne = λ e. cc

or_dot-below : (s : GoString) (l : List GoString) → s ≢ [] → or_dot (below s l) ≡ below (or_dot s) l
or_dot-below [] l ne = absurd (ne refl)
or_dot-below (c ∷ s) [] ne = refl
or_dot-below (c ∷ s) (e ∷ l) ne = refl

join_elements :
    (ds cs : List GoString)
    → ds ≢ []
    → join (slash ∷ []) (ds ++ cs) ≡ below (join (slash ∷ []) ds) cs
join_elements [] cs ne = absurd (ne refl)
join_elements (d ∷ ds) cs ne = join-below d ds cs

-- The cleaned path is the cleaned base and, below it, the elements of the name.
pub clean-below :
    (c : ℕ) (s name : GoString)
    → elements (c ∷ s) ≢ []
    → clean ((c ∷ s) ++ (slash ∷ clean (slash ∷ name)))
      ≡ below (clean (c ∷ s)) (elements (slash ∷ name))
clean-below c s name ne =
    let cs = elements (slash ∷ name) in
    let joined = join (slash ∷ []) (elements (c ∷ s)) in
    let e =
      ap (join (slash ∷ [])) (elements_below c s name) ∙ join_elements (elements (c ∷ s)) cs ne in
    elim (Bool-cases (nat_eq c slash)) [
      | inl rooted ↦ unfold clean in rw (rooted, e) (sym (below-append (slash ∷ []) joined cs))
      | inr relative ↦
          unfold clean in
          rw (relative, e)
            (or_dot-below joined cs (join-ne (elements (c ∷ s)) (elements-Full (c ∷ s)) ne))
    ]
