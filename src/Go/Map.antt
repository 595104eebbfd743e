-- ===== src/Go/Map.antt =====
-- A Go map as an association list. Go leaves the order of a `range` over a map open, and the
-- theorems about such loops do not depend on it.
use epochfill.Common.{◌≡◌, refl, Option, none, some, List, [], ◌∷◌, if◌then◌else◌, Eq, ◌==◌, arith}

abbrev pub Map {ℓ κ} : Type ℓ → Type κ → Type (ℓ ⊔ κ)
Map K V = List (K × V)

module _ {ℓ κ} {K : Type ℓ} {V : Type κ} ⦃e : Eq K⦄ where
  -- `v, ok := m[k]`
  abbrev pub lookup : K → Map K V → Option V
  lookup k [] = none
  lookup k ((j, v) ∷ m) = if j == k then some v else lookup k m

  -- `m[k] = v`
  abbrev pub insert : K → V → Map K V → Map K V
  insert k v [] = (k, v) ∷ []
  insert k v ((j, w) ∷ m) = if j == k then (j, v) ∷ m else (j, w) ∷ insert k v m

  -- `delete(m, k)`
  abbrev pub delete : K → Map K V → Map K V
  delete k [] = []
  delete k ((j, v) ∷ m) = if j == k then m else (j, v) ∷ delete k m

  pub lookup-insert :
      (k j : K) (v : V) (m : Map K V)
      → lookup j (insert k v m) ≡ (if k == j then some v else lookup j m)
  lookup-insert k j v [] = refl
  lookup-insert k j v ((i, w) ∷ m) =
      ground (arith, e.beq_iff i k, e.beq_iff i j, e.beq_iff k j, lookup-insert k j v m)
