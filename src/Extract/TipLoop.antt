-- ===== src/Extract/TipLoop.antt =====
-- The loop of `tipPaid`, by what it makes of each key.
use epochfill.Common.{
  ℕ, suc, ◌+◌, ◌%◌, ◌≡◌, refl, Bool, false, ◌||◌, Bool-cases, Option-cases, inl, inr, Option, none,
  some, List, [], ◌∷◌, ◌++◌, text_eq, text_eq_iff, elem, text_equality, arith,
}
use epochfill.Go.Map.{Map}
use epochfill.Go.Text.{GoString}
use epochfill.Go.Text.Sort.{Distinct}
use epochfill.Go.Word.{u64_mod, IsU64, add64}
use epochfill.Extract.Chain.{Chain}
use epochfill.Extract.Balance.{Tips, add_tip, take_tip, tip_at, tip_loop}

elem-append : (s : GoString) (l m : List GoString) → elem s (l ++ m) ≡ (elem s l || elem s m)
elem-append s [] m = refl
elem-append s (x ∷ l) m = ground (arith, elem-append s l m)

Distinct-append :
    (l : List GoString) (s : GoString) → Distinct l → elem s l ≡ false → Distinct (l ++ (s ∷ []))
Distinct-append [] s h new = (refl, tt)
Distinct-append (x ∷ l) s h new = (
  ground (arith, elem-append x l (s ∷ []), text_eq_iff x s, text_eq_iff s x),
  Distinct-append l s h.1 (ground arith),
)

abbrev pub gain_of : Option (ℕ × GoString) → ℕ
gain_of none = 0
gain_of (some (gain, lane)) = gain

abbrev pub pays_lane : GoString → Option (ℕ × GoString) → Bool
pays_lane lane none = false
pays_lane lane (some (gain, l)) = text_eq l lane

module _ (chain : Chain) where
  open chain use {PublicKey}

  module _ (accounts : Map GoString GoString) (pre post : List ℕ) where
    -- What `tip_at` says of the keys, from index `i` on: the sum of the gains, and whether some key
    -- of the lane has gained.
    abbrev pub gains_from : List PublicKey → ℕ → ℕ
    gains_from [] i = 0
    gains_from (k ∷ r) i = gain_of (tip_at chain accounts pre post k i) + gains_from r (suc i)

    abbrev pub pays_from : GoString → List PublicKey → ℕ → Bool
    pays_from lane [] i = false
    pays_from lane (k ∷ r) i =
        pays_lane lane (tip_at chain accounts pre post k i) || pays_from lane r (suc i)

    pub record Summed (keys : List PublicKey) (i : ℕ) (t t' : Tips) : Type 0 where
      pub sum : IsU64 t.tip → t'.tip ≡ (t.tip + gains_from keys i) % u64_mod
      pub lanes :
          (lane : GoString) → elem lane t'.lanes ≡ (elem lane t.lanes || pays_from lane keys i)
      pub distinct : Distinct t'.lanes

    add_tip-Distinct :
        (gain : ℕ) (lane : GoString) (t : Tips)
        → Distinct t.lanes
        → Distinct (add_tip gain lane t).lanes
    add_tip-Distinct gain lane t h = elim (Bool-cases (elem lane t.lanes)) [
      | inl old ↦ rw old h
      | inr new ↦ rw new (Distinct-append t.lanes lane h new)
    ]

    elem-add_tip :
        (gain : ℕ) (lane s : GoString) (t : Tips)
        → elem s (add_tip gain lane t).lanes ≡ (elem s t.lanes || text_eq lane s)
    elem-add_tip gain lane s t =
        ground (arith, elem-append s t.lanes (lane ∷ []), text_eq_iff lane s)

    -- The sum of what follows a tip, which is added modulo 2 ^ 64.
    tip_sum :
        (gain : ℕ) (lane : GoString) (t : Tips) (more : ℕ) {total : ℕ}
        → (IsU64 (add_tip gain lane t).tip → total ≡ ((add_tip gain lane t).tip + more) % u64_mod)
        → total ≡ (t.tip + (gain + more)) % u64_mod
    unfolding add64
    tip_sum gain lane t more h = omega (arith, h (omega arith))

    tip_loop_step :
        (k : PublicKey) (r : List PublicKey) (i : ℕ) (t : Tips)
        → tip_loop chain accounts pre post (k ∷ r) i t
          ≡ tip_loop chain accounts pre post r
              (suc i)
              (take_tip t (tip_at chain accounts pre post k i))
    unfolding tip_loop
    tip_loop_step k r i t = refl

    pub tip_loop_lem :
        (keys : List PublicKey) (i : ℕ) (t : Tips)
        → Distinct t.lanes
        → Summed keys i t (tip_loop chain accounts pre post keys i t)
    tip_loop_lem [] i t h =
        unfold tip_loop in
        record { sum = λ h. omega arith; lanes = λ lane. ground arith; distinct = h }
    tip_loop_lem (k ∷ r) i t h = elim (Option-cases (tip_at chain accounts pre post k i)) [
      | inl nothing ↦
          let rest = tip_loop_lem r (suc i) t h in
          rw (tip_loop_step k r i t, nothing)
            (record {
              sum = λ h. rw nothing (omega (arith, rest.sum h));
              lanes = λ lane. rw nothing (ground (arith, rest.lanes lane));
              distinct = rest.distinct;
            })
      | inr ((gain, lane), paid) ↦
          let rest =
            tip_loop_lem r (suc i) (add_tip gain lane t) (add_tip-Distinct gain lane t h) in
          rw (tip_loop_step k r i t, paid)
            (record {
              sum = λ h. rw paid (tip_sum gain lane t (gains_from r (suc i)) rest.sum);
              lanes = λ s. rw paid (ground (arith, rest.lanes s, elem-add_tip gain lane s t));
              distinct = rest.distinct;
            })
    ]
