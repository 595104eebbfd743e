-- ===== src/Signatures/Distinct.antt =====
-- `distinctSlots` of backfill/run.go: each slot once, and no slot lost.
use epochfill.Common.{
  ℕ, ◌≡◌, ◌∙◌, refl, Bool, not, ◌&&◌, Bool-cases, inl, inr, List, [], ◌∷◌, elem, any_of, nat_eq,
  nat_equality, arith,
}
use epochfill.Signatures.{SigRef, distinct_loop, distinct_slots}
use epochfill.Store.Order.{DistinctSlots}

module _ {Sig : Type 0} where
  -- Some reference is of the slot.
  abbrev pub has_slot : ℕ → List (SigRef Sig) → Bool
  has_slot j refs = any_of (λ s. nat_eq s.slot j) refs

  elem-distinct_loop :
      (j : ℕ) (refs : List (SigRef Sig)) (seen : List ℕ)
      → elem j (distinct_loop refs seen) ≡ (has_slot j refs && not (elem j seen))
  elem-distinct_loop j [] seen = refl
  elem-distinct_loop j (s ∷ r) seen = elim (Bool-cases (elem s.slot seen)) [
    | inl old ↦ rw old (ground (arith, elem-distinct_loop j r seen, old))
    | inr new ↦ rw new (ground (arith, elem-distinct_loop j r (s.slot ∷ seen), new))
  ]

  distinct_loop-DistinctSlots :
      (refs : List (SigRef Sig)) (seen : List ℕ) → DistinctSlots (distinct_loop refs seen)
  distinct_loop-DistinctSlots [] seen = tt
  distinct_loop-DistinctSlots (s ∷ r) seen = elim (Bool-cases (elem s.slot seen)) [
    | inl old ↦ rw old (distinct_loop-DistinctSlots r seen)
    | inr new ↦ rw new (
      ground (arith, elem-distinct_loop s.slot r (s.slot ∷ seen)),
      distinct_loop-DistinctSlots r (s.slot ∷ seen),
    )
  ]

  -- The slots to read have no repetition, and are exactly the slots of the references.
  pub distinct_slots_lem :
      (refs : List (SigRef Sig))
      → DistinctSlots (distinct_slots refs)
        × ((j : ℕ) → elem j (distinct_slots refs) ≡ has_slot j refs)
  unfolding distinct_slots
  distinct_slots_lem refs =
      (distinct_loop-DistinctSlots refs [], λ j. elem-distinct_loop j refs [] ∙ ground arith)
