-- ===== src/Common/Equality.antt =====
-- The interface of a type whose values Go compares by `==`, at numbers and at byte strings.
use Prim.Native.Nat.{ℕ}
use mathlib.Core.Path.{◌≡◌, refl}
use mathlib.Core.Logic.{◌↔◌}
use mathlib.Core.Bool.{Bool, true, false, ◌&&◌, ◌||◌}
use mathlib.Core.List.{List, [], ◌∷◌}
use native.Mathlib.Omega.{arith}
use epochfill.Common.Tests.{nat_eq}

pub record Eq {ℓ} (A : Type ℓ) : Type ℓ where
  pub beq : A → A → Bool
  pub beq_iff : (x y : A) → (beq x y ≡ true) ↔ (x ≡ y)

infix 50 ◌==◌
abbrev pub ◌==◌ {ℓ} : {A : Type ℓ} ⦃e : Eq A⦄ → A → A → Bool
◌==◌ ⦃e⦄ = e.beq

pub nat_eq_iff : (m n : ℕ) → (nat_eq m n ≡ true) ↔ (m ≡ n)
nat_eq_iff m n = ground arith

instance abbrev pub nat_equality : Eq ℕ
nat_equality = record { beq = nat_eq; beq_iff = nat_eq_iff }

abbrev pub text_eq : List ℕ → List ℕ → Bool
text_eq [] [] = true
text_eq (x ∷ r) (y ∷ s) = nat_eq x y && text_eq r s
text_eq _ _ = false

pub text_eq_iff : (s t : List ℕ) → (text_eq s t ≡ true) ↔ (s ≡ t)
text_eq_iff [] [] = (λ _. refl, λ _. refl)
text_eq_iff [] (y ∷ t) = (λ h. cc, λ h. cc)
text_eq_iff (x ∷ s) [] = (λ h. cc, λ h. cc)
text_eq_iff (x ∷ s) (y ∷ t) = ground (arith, text_eq_iff s t)

instance abbrev pub text_equality : Eq (List ℕ)
text_equality = record { beq = text_eq; beq_iff = text_eq_iff }

module _ {ℓ} {A : Type ℓ} ⦃e : Eq A⦄ where
  pub beq_refl : (x : A) → (x == x) ≡ true
  beq_refl x = (e.beq_iff x x).1 refl

  -- Membership as a test, as the Go code asks it of a map's keys.
  abbrev pub elem : A → List A → Bool
  elem x [] = false
  elem x (y ∷ r) = (y == x) || elem x r
