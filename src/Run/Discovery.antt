-- ===== src/Run/Discovery.antt =====
-- `discoverSlots` of backfill/run.go, and `Slots` of backfill/gsfa.go, over what the address index and
-- `DiscoverSignatures` return. What becomes of the files of the address index is in `Run.Lifecycle`.
use epochfill.Common.{
  ℕ, ◌≡◌, refl, ap, Bool, true, false, not, Option, none, some, List, [], ◌∷◌, map, elem, ◌==◌,
  nat_equality, text_equality, Bool-cases, inl, inr, if◌then◌else◌,
}
use epochfill.Go.Text.{GoString}
use epochfill.Store.Order.{DistinctSlots}
use epochfill.Signatures.Distinct.{has_slot, distinct_slots_lem}
use epochfill.Signatures.{
  SigRef, Discovered, discovered, page_failed, out_of_fuel, distinct_loop, distinct_slots,
}

-- The loop over the slots of the locations; `seen` as a list.
abbrev pub slots_loop : List ℕ → List ℕ → List ℕ
slots_loop [] seen = []
slots_loop (slot ∷ r) seen =
    if elem slot seen then slots_loop r seen else slot ∷ slots_loop r (slot ∷ seen)

-- `Slots`, from what `reader.Get` returns; `none` is an error.
unfoldable pub gsfa_slots : Option (List ℕ) → Option (List ℕ)
gsfa_slots none = none
gsfa_slots (some located) = some (slots_loop located [])

abbrev pub slots_of_refs : {Sig : Type 0} → Discovered Sig → Option (List ℕ)
slots_of_refs (discovered refs) = some (distinct_slots refs)
slots_of_refs page_failed = none
slots_of_refs out_of_fuel = none

-- `index_opens`: `OpenGsfa` returns a nil error.
unfoldable pub discover_slots :
    {Sig : Type 0} → Bool → Bool → Option (List ℕ) → GoString → Discovered Sig → Option (List ℕ)
discover_slots use_rpc index_opens located endpoint refs =
    if not use_rpc
    then (if not index_opens then none else gsfa_slots located)
    else if endpoint == []
    then none
    else slots_of_refs refs

slots_loop-distinct_loop :
    {Sig : Type 0} (refs : List (SigRef Sig)) (seen : List ℕ)
    → slots_loop (map (λ (s : SigRef Sig). s.slot) refs) seen ≡ distinct_loop refs seen
slots_loop-distinct_loop [] seen = refl
slots_loop-distinct_loop (s ∷ r) seen = elim (Bool-cases (elem s.slot seen)) [
  | inl old ↦ rw old (slots_loop-distinct_loop r seen)
  | inr new ↦ rw new (ap (λ (l : List ℕ). s.slot ∷ l) (slots_loop-distinct_loop r (s.slot ∷ seen)))
]

-- Both ways to discover, where the index opens and an endpoint is set, give the same slots in the same
-- order, if the index has the slots of the references in the order of the references: without
-- repetition, and exactly the slots of the references.
pub discover_slots_lem :
    {Sig : Type 0} (refs : List (SigRef Sig)) (opens : Bool) (located : Option (List ℕ)) (c : ℕ)
    (endpoint other : GoString) (found : Discovered Sig)
    → (discover_slots false true (some (map (λ (s : SigRef Sig). s.slot) refs)) other found
        ≡ some (distinct_slots refs))
      × (discover_slots true opens located (c ∷ endpoint) (discovered refs)
          ≡ some (distinct_slots refs))
      × DistinctSlots (distinct_slots refs)
      × ((j : ℕ) → elem j (distinct_slots refs) ≡ has_slot j refs)
unfolding discover_slots gsfa_slots distinct_slots
discover_slots_lem refs opens located c endpoint other found = (
  ap some (slots_loop-distinct_loop refs []),
  refl,
  (distinct_slots_lem refs).0,
  (distinct_slots_lem refs).1,
)
