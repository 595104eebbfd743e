-- ===== src/Gsfa/Inside.antt =====
-- `safeJoin` of backfill/gsfa.go keeps every name inside the directory.
use epochfill.Common.{
  ℕ, ◌≡◌, ◌≢◌, refl, true, false, not, some, List, [], ◌∷◌, ◌++◌, ◌==◌, ◌&&◌, All, text_equality,
  beq_refl, arith,
}
use epochfill.Go.Text.{GoString, has_prefix, split, join}
use epochfill.Go.Filepath.{slash, elements, clean, join_path}
use epochfill.Go.Filepath.Clean.{Plain}
use epochfill.Go.Filepath.Below.{elements-Plain, below, clean-below}
use epochfill.Gsfa.{safe_join}

has_prefix-append : (s t : GoString) → has_prefix (s ++ t) s ≡ true
unfolding has_prefix
has_prefix-append [] t = refl
has_prefix-append (c ∷ s) t = ground (arith, has_prefix-append s t)

pub has_prefix-slash : (s t : GoString) → has_prefix (s ++ (slash ∷ t)) (s ++ (slash ∷ [])) ≡ true
unfolding has_prefix
has_prefix-slash [] t = refl
has_prefix-slash (c ∷ s) t = ground (arith, has_prefix-slash s t)

join_path-clean :
    (c : ℕ) (s name : GoString)
    → join_path (c ∷ s) (clean (slash ∷ name)) ≡ clean ((c ∷ s) ++ (slash ∷ clean (slash ∷ name)))
unfolding join_path clean
join_path-clean c s name = refl

accepted :
    (base : GoString) (l : List GoString)
    → (not (has_prefix (below base l) (base ++ (slash ∷ []))) && not (below base l == base)) ≡ false
accepted base [] = ground (arith, beq_refl base)
accepted base (e ∷ l) = rw (has_prefix-slash base (join (slash ∷ []) (e ∷ l)))

no_elements : elements [] ≡ []
unfolding elements split
no_elements = refl

-- For a directory whose cleaned path has an element: every name, also one with `..` elements or one
-- that is absolute, is accepted, and its target is the directory itself or lies below it, under
-- elements none of which is empty, `.` or `..` or has a slash in it.
pub safe_join-Plain :
    (dst name : GoString)
    → elements dst ≢ []
    → (safe_join dst name ≡ some (below (clean dst) (elements (slash ∷ name))))
      × All Plain (elements (slash ∷ name))
unfolding safe_join
safe_join-Plain [] name ne = absurd (ne no_elements)
safe_join-Plain (c ∷ s) name ne = (
  rw (
    join_path-clean c s name,
    clean-below c s name ne,
    accepted (clean (c ∷ s)) (elements (slash ∷ name)),
  ),
  elements-Plain name,
)
