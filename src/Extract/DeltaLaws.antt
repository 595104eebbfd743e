-- ===== src/Extract/DeltaLaws.antt =====
-- What `walletDelta` of backfill/extract.go returns.
use epochfill.Common.{
  ℕ, zero, suc, ◌<◌, ◌≡◌, refl, inl, inr, Bool-cases, Option-cases, Option, none, some, List, [],
  ◌∷◌, text_eq, if◌then◌else◌, arith,
}
use epochfill.Go.Text.{GoString}
use epochfill.Go.Word.{sub64}
use epochfill.Extract.Chain.{Chain}
use epochfill.Extract.Balance.{balances_at, delta_loop, wallet_delta}

module _ (chain : Chain) (wallet : GoString) (pre post : List ℕ) where
  open chain use {PublicKey, key_string}

  -- The balances of the `j`-th key, the first one having index `i`, if it is the wallet's and both
  -- lists reach it.
  abbrev pub change_at : List PublicKey → ℕ → ℕ → Option (ℕ × ℕ)
  change_at [] i j = none
  change_at (k ∷ r) i zero = if text_eq (key_string k) wallet then balances_at pre post i else none
  change_at (k ∷ r) i (suc j) = change_at r (suc i) j

  -- The change of the first such key, or 0 if there is none.
  pub data FirstChange (keys : List PublicKey) (i delta : ℕ) : Type 0 where
    unchanged : ((j : ℕ) → change_at keys i j ≡ none) → delta ≡ 0 → FirstChange keys i delta
    changed :
        (j before after : ℕ)
        → change_at keys i j ≡ some (before, after)
        → ((m : ℕ) → m < j → change_at keys i m ≡ none)
        → delta ≡ sub64 after before
        → FirstChange keys i delta

  later_key :
      (k : PublicKey) (r : List PublicKey) (i delta : ℕ)
      → change_at (k ∷ r) i 0 ≡ none
      → FirstChange r (suc i) delta
      → FirstChange (k ∷ r) i delta
  later_key k r i delta skipped (unchanged absent zero_delta) =
      unchanged (λ j. no_change j) zero_delta
    where
      no_change : (j : ℕ) → change_at (k ∷ r) i j ≡ none
      no_change zero = skipped
      no_change (suc j) = absent j
  later_key k r i delta skipped (changed j before after here first value) =
      changed (suc j) before after here no_change value
    where
      no_change : (m : ℕ) → m < suc j → change_at (k ∷ r) i m ≡ none
      no_change zero h = skipped
      no_change (suc m) h = first m (omega arith)

  delta_loop_lem :
      (keys : List PublicKey) (i : ℕ) → FirstChange keys i (delta_loop chain wallet pre post keys i)
  unfolding delta_loop
  delta_loop_lem [] i = unchanged (λ j. refl) refl
  delta_loop_lem (k ∷ r) i = elim (Bool-cases (text_eq (key_string k) wallet)) [
    | inr other ↦ rw other (
        later_key k r i (delta_loop chain wallet pre post r (suc i)) (rw other)
          (delta_loop_lem r (suc i)))
    | inl ours ↦ elim (Option-cases (balances_at pre post i)) [
      | inl out_of_range ↦
          rw (ours, out_of_range)
            (later_key k r i (delta_loop chain wallet pre post r (suc i)) (rw (ours, out_of_range))
              (delta_loop_lem r (suc i)))
      | inr ((before, after), here) ↦
          rw (ours, here) (changed 0 before after (rw ours here) (λ m h. absurd (omega arith)) refl)
    ]
  ]

module _ (chain : Chain) where
  open chain use {PublicKey, StatusMeta, pre_balances, post_balances}

  -- The SOL delta is the balance after less the balance before, as 64-bit arithmetic, of the first
  -- key that is the wallet's and whose index both balance lists reach; if there is none, it is 0.
  pub wallet_delta_lem :
      (keys : List PublicKey) (meta : StatusMeta) (wallet : GoString)
      → FirstChange chain wallet
          (pre_balances meta)
          (post_balances meta)
          keys
          0
          (wallet_delta chain keys meta wallet)
  unfolding wallet_delta
  wallet_delta_lem keys meta wallet =
      delta_loop_lem chain wallet (pre_balances meta) (post_balances meta) keys 0
