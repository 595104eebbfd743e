-- ===== src/Common/Lists.antt =====
-- Lists measured and cut by native numbers, under the library's names, and predicates on lists.
use Prim.Native.Nat.{ℕ, zero, suc, ◌+◌, ◌-◌}
use mathlib.Core.Path.{◌≡◌, refl, ap}
use mathlib.Core.Bool.{Bool, true, false, ◌&&◌, ◌||◌}
use mathlib.Core.List.{List, [], ◌∷◌, ◌++◌}
use mathlib.Core.Option.{Option, none, some}
use native.Mathlib.Omega.{arith}

module _ {ℓ} {A : Type ℓ} where
  abbrev pub length : List A → ℕ
  length [] = 0
  length (_ ∷ r) = suc (length r)

  abbrev pub take : ℕ → List A → List A
  take zero l = []
  take (suc n) [] = []
  take (suc n) (x ∷ r) = x ∷ take n r

  abbrev pub drop : ℕ → List A → List A
  drop zero l = l
  drop (suc n) [] = []
  drop (suc n) (_ ∷ r) = drop n r

  abbrev pub get_elem? : List A → ℕ → Option A
  get_elem? [] i = none
  get_elem? (x ∷ r) zero = some x
  get_elem? (x ∷ r) (suc i) = get_elem? r i

  abbrev pub get_or : List A → ℕ → A → A
  get_or [] i d = d
  get_or (x ∷ r) zero d = x
  get_or (x ∷ r) (suc i) d = get_or r i d

  abbrev pub set : List A → ℕ → A → List A
  set [] i v = []
  set (x ∷ r) zero v = v ∷ r
  set (x ∷ r) (suc i) v = x ∷ set r i v

  abbrev pub replicate : ℕ → A → List A
  replicate zero v = []
  replicate (suc n) v = v ∷ replicate n v

  pub length-append : (l m : List A) → length (l ++ m) ≡ length l + length m
  length-append [] m = omega arith
  length-append (x ∷ r) m = omega (arith, length-append r m)

  pub take_all-append : (l m : List A) → take (length l) (l ++ m) ≡ l
  take_all-append [] m = refl
  take_all-append (x ∷ r) m = ap (λ (t : List A). x ∷ t) (take_all-append r m)

  pub drop_all-append : (l m : List A) → drop (length l) (l ++ m) ≡ m
  drop_all-append [] m = refl
  drop_all-append (x ∷ r) m = drop_all-append r m

  pub length-drop : (n : ℕ) (l : List A) → length (drop n l) ≡ length l - n
  length-drop zero l = omega arith
  length-drop (suc n) [] = omega arith
  length-drop (suc n) (x ∷ r) = omega (arith, length-drop n r)

  pub take-append-drop : (n : ℕ) (l : List A) → take n l ++ drop n l ≡ l
  take-append-drop zero l = refl
  take-append-drop (suc n) [] = refl
  take-append-drop (suc n) (x ∷ r) = ap (λ (t : List A). x ∷ t) (take-append-drop n r)

-- A predicate of every element computes to a tuple.
abbrev pub All {ℓ κ} : {A : Type ℓ} → (A → Type κ) → List A → Type κ
All P [] = Unit
All P (x ∷ r) = P x × All P r

abbrev pub all_of {ℓ} : {A : Type ℓ} → (A → Bool) → List A → Bool
all_of p [] = true
all_of p (x ∷ r) = p x && all_of p r

abbrev pub any_of {ℓ} : {A : Type ℓ} → (A → Bool) → List A → Bool
any_of p [] = false
any_of p (x ∷ r) = p x || any_of p r

abbrev pub sum : List ℕ → ℕ
sum [] = 0
sum (x ∷ r) = x + sum r

pub All-append {ℓ κ} :
    {A : Type ℓ} (P : A → Type κ) (l m : List A) → All P l → All P m → All P (l ++ m)
All-append P [] m hl hm = hm
All-append P (x ∷ r) m (hx, hr) hm = (hx, All-append P r m hr hm)
