-- ===== src/Landing/Tips/Bare.antt =====
-- The test for a bare tip transaction, on the comma-joined text, against the set of programs.
use epochfill.Common.{
  ℕ, ◌≡◌, refl, not, List, [], ◌∷◌, ◌&&◌, nat_eq, All, all_of, text_equality, arith,
}
use epochfill.Go.Text.{GoString, join, split, trim_space}
use epochfill.Go.Text.Split.{Without, NoSpace, split-join, trim_space-NoSpace}
use epochfill.Landing.Tips.{is_overhead, is_bare_tip_leg}

-- The text of a program has no comma and no space byte.
abbrev pub IsPlain : GoString → Type 0
IsPlain p = Without b',' p × NoSpace p

Without-plain : (ps : List GoString) → All IsPlain ps → All (Without b',') ps
Without-plain [] h = tt
Without-plain (p ∷ ps) h = (h.0.0, Without-plain ps h.1)

all_of-trim :
    (ps : List GoString)
    → All IsPlain ps
    → all_of (λ p. is_overhead (trim_space p)) ps ≡ all_of is_overhead ps
all_of-trim [] h = refl
all_of-trim (p ∷ ps) h = rw (trim_space-NoSpace p h.0.1, all_of-trim ps h.1)

-- For programs with no comma and no space byte in their texts: on the comma-joined text, the test
-- for a bare tip leg holds exactly if the tip is not 0 and each program is the system program, the
-- compute budget program or the empty text.
pub is_bare_tip_leg-join :
    (ps : List GoString) (tip : ℕ)
    → All IsPlain ps
    → is_bare_tip_leg (join (b',' ∷ []) ps) tip ≡ (not (nat_eq tip 0) && all_of is_overhead ps)
unfolding is_bare_tip_leg
is_bare_tip_leg-join [] tip h = unfold join split trim_space in ground arith
is_bare_tip_leg-join (p ∷ ps) tip h =
    rw (split-join b',' p ps (Without-plain (p ∷ ps) h), all_of-trim (p ∷ ps) h) (ground arith)
