-- ===== src/Common/Tally.antt =====
-- Counting the numbers below a bound by a weight of what a function gives, when it is changed at one
-- point, and searching them.
use Prim.Native.Nat.{ℕ, zero, suc, ◌+◌, ◌<◌, ◌≤◌}
use mathlib.Core.Path.{◌≡◌, refl, sym, ap, subst}
use mathlib.Core.Logic.{◌⊎◌, inl, inr}
use mathlib.Core.Bool.{Bool, true, false}
use native.Mathlib.Omega.{arith}
use epochfill.Common.Tests.{nat_eq, nat_eq→eq, Bool-cases, if◌then◌else◌}

module _ {ℓ} {A : Type ℓ} where
  abbrev pub set_at : ℕ → A → (ℕ → A) → ℕ → A
  set_at i ph f j = if nat_eq i j then ph else f j

  abbrev pub total_of : (A → ℕ) → (ℕ → A) → ℕ → ℕ
  total_of w phase zero = 0
  total_of w phase (suc n) = w (phase n) + total_of w phase n

  total_outside :
      (w : A → ℕ) (i : ℕ) (ph : A) (phase : ℕ → A) (n : ℕ)
      → n ≤ i
      → total_of w (set_at i ph phase) n ≡ total_of w phase n
  total_outside w i ph phase zero h = refl
  total_outside w i ph phase (suc n) h =
      let apart : nat_eq i n ≡ false = ground arith in
      rw (apart, total_outside w i ph phase n (omega arith))

  -- One chunk changes its phase.
  pub total_of-set_at :
      (w : A → ℕ) (i : ℕ) (ph : A) (phase : ℕ → A) (n : ℕ)
      → i < n
      → total_of w (set_at i ph phase) n + w (phase i) ≡ total_of w phase n + w ph
  total_of-set_at w i ph phase zero h = absurd (omega arith)
  total_of-set_at w i ph phase (suc n) h = elim (Bool-cases (nat_eq i n)) [
    | inl same ↦
        let e : i ≡ n = nat_eq→eq i n same in
        let rest = total_outside w i ph phase n (omega arith) in
        let own : w (phase i) ≡ w (phase n) = ap (λ k. w (phase k)) e in
        rw same (omega (arith, rest, own))
    | inr apart ↦
        let rest = total_of-set_at w i ph phase n (ground (arith, apart)) in
        rw apart (omega (arith, rest))
  ]

  pub total_of-zero :
      (w : A → ℕ) (phase : ℕ → A) (n : ℕ)
      → ((i : ℕ) → i < n → w (phase i) ≡ 0)
      → total_of w phase n ≡ 0
  total_of-zero w phase zero h = refl
  total_of-zero w phase (suc n) h =
      let own = h n (omega arith) in
      let rest = total_of-zero w phase n (λ i inside. h i (omega arith)) in omega arith

  -- The first chunk that passes a test, if one does.
  abbrev pub First : (A → Bool) → (ℕ → A) → ℕ → Type 0
  First p phase n =
      (i : ℕ) × (i < n) × (p (phase i) ≡ true) × ((j : ℕ) → j < i → p (phase j) ≡ false)

  pub search :
      (p : A → Bool) (phase : ℕ → A) (n : ℕ)
      → First p phase n ⊎ ((i : ℕ) → i < n → p (phase i) ≡ false)
  search p phase zero = inr (λ i h. absurd (omega arith))
  search p phase (suc n) = elim (search p phase n) [
    | inl (i, inside, here, first) ↦ inl (i, omega arith, here, first)
    | inr none_yet ↦ elim (Bool-cases (p (phase n))) [
      | inl here ↦ inl (n, omega arith, here, none_yet)
      | inr missing ↦ inr (λ i h. (elim (Bool-cases (nat_eq i n)) [
        | inl same ↦ subst (λ k. p (phase k) ≡ false) (sym (nat_eq→eq i n same)) missing
        | inr apart ↦ none_yet i (ground (arith, apart))
      ]))
    ]
  ]
