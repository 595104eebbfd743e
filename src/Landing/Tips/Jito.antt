-- ===== src/Landing/Tips/Jito.antt =====
-- `JitoTips` of landing/tips.go against `TipAccounts`.
use epochfill.Common.{
  ◌≡◌, refl, Bool, true, false, not, ◌&&◌, Option, none, some, List, [], ◌∷◌, elem, text_eq,
  text_eq_iff, text_equality, arith,
}
use epochfill.Go.Map.{Map, lookup}
use epochfill.Go.Text.{GoString}
use epochfill.Landing.Tips.{lane_jito, tip_accounts, jito_of, jito_tips}

abbrev addresses : Map GoString GoString → List GoString
addresses [] = []
addresses ((address, _) ∷ r) = address ∷ addresses r

-- No address stands twice, as a test.
abbrev distinct : List GoString → Bool
distinct [] = true
distinct (s ∷ r) = not (elem s r) && distinct r

abbrev pub pays_jito : Option GoString → Bool
pays_jito none = false
pays_jito (some lane) = text_eq lane lane_jito

elem-jito_of_absent :
    (s : GoString) (m : Map GoString GoString)
    → elem s (addresses m) ≡ false
    → elem s (jito_of m) ≡ false
unfolding jito_of
elem-jito_of_absent s [] h = refl
elem-jito_of_absent s ((address, lane) ∷ r) h = ground (arith, elem-jito_of_absent s r)

elem-jito_of :
    (s : GoString) (m : Map GoString GoString)
    → distinct (addresses m) ≡ true
    → elem s (jito_of m) ≡ pays_jito (lookup s m)
unfolding jito_of
elem-jito_of s [] h = refl
elem-jito_of s ((address, lane) ∷ r) h =
    ground (arith, elem-jito_of s r, elem-jito_of_absent s r, text_eq_iff address s)

-- An address is in `JitoTips` exactly if `TipAccounts` has it with the Jito lane.
pub jito_tips_lem : (s : GoString) → elem s jito_tips ≡ pays_jito (lookup s tip_accounts)
unfolding jito_tips tip_accounts
jito_tips_lem s = elem-jito_of s tip_accounts refl
