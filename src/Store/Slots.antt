-- ===== src/Store/Slots.antt =====
-- The statements on the work list, by what `lookup` finds afterwards.
use epochfill.Common.{
  ℕ, ◌≤◌, ◌≡◌, ◌∙◌, refl, Bool, true, false, Option, none, some, List, [], ◌∷◌, nat_eq, elem,
  nat_equality, if◌then◌else◌, arith,
}
use epochfill.Go.Map.{Map, lookup}
use epochfill.Store.Table.{insert_slot, update_done, undone, order_slot, order_slots}

-- A slot that is not listed is listed as not done; any other keeps its mark.
abbrev pub or_new : Option ℕ → Option ℕ
or_new none = some 0
or_new (some d) = some d

-- A listed slot is done.
abbrev pub if_listed : Option ℕ → Option ℕ
if_listed none = none
if_listed (some d) = some 1

pub lookup-insert_slot :
    (k j : ℕ) (m : Map ℕ ℕ)
    → lookup j (insert_slot k m) ≡ (if nat_eq k j then or_new (lookup j m) else lookup j m)
unfolding insert_slot
lookup-insert_slot k j [] = ground arith
lookup-insert_slot k j ((i, d) ∷ m) = ground (arith, lookup-insert_slot k j m)

pub lookup-update_done :
    (k j : ℕ) (m : Map ℕ ℕ)
    → lookup j (update_done k m) ≡ (if nat_eq k j then if_listed (lookup j m) else lookup j m)
unfolding update_done
lookup-update_done k j [] = ground arith
lookup-update_done k j ((i, d) ∷ m) = ground (arith, lookup-update_done k j m)

abbrev pub keys : Map ℕ ℕ → List ℕ
keys [] = []
keys ((k, _) ∷ r) = k ∷ keys r

-- The primary key: no slot is listed twice. `done` is 0 or 1.
abbrev pub IsTable : Map ℕ ℕ → Type 0
IsTable [] = Unit
IsTable ((k, d) ∷ r) = (elem k (keys r) ≡ false) × (d ≤ 1) × IsTable r

elem-keys-insert_slot :
    (k j : ℕ) (m : Map ℕ ℕ)
    → elem j (keys (insert_slot k m)) ≡ (if nat_eq k j then true else elem j (keys m))
unfolding insert_slot
elem-keys-insert_slot k j [] = ground arith
elem-keys-insert_slot k j ((i, d) ∷ m) = ground (arith, elem-keys-insert_slot k j m)

pub insert_slot-IsTable : (k : ℕ) (m : Map ℕ ℕ) → IsTable m → IsTable (insert_slot k m)
unfolding insert_slot
insert_slot-IsTable k [] h = (refl, omega arith, tt)
insert_slot-IsTable k ((i, d) ∷ m) h =
    ground (arith, insert_slot-IsTable k m h.2, elem-keys-insert_slot k i m)

keys-update_done : (k : ℕ) (m : Map ℕ ℕ) → keys (update_done k m) ≡ keys m
unfolding update_done
keys-update_done k [] = refl
keys-update_done k ((i, d) ∷ m) = rw (keys-update_done k m)

pub update_done-IsTable : (k : ℕ) (m : Map ℕ ℕ) → IsTable m → IsTable (update_done k m)
unfolding update_done
update_done-IsTable k [] h = tt
update_done-IsTable k ((i, d) ∷ m) h =
    ground (arith, update_done-IsTable k m h.2, keys-update_done k m)

pub elem-undone_absent : (j : ℕ) (m : Map ℕ ℕ) → elem j (keys m) ≡ false → elem j (undone m) ≡ false
elem-undone_absent j [] h = refl
elem-undone_absent j ((i, d) ∷ m) h = ground (arith, elem-undone_absent j m)

-- A slot is selected exactly if it is listed with `done = 0`.
abbrev pub is_undone : Option ℕ → Bool
is_undone none = false
is_undone (some d) = nat_eq d 0

elem-undone : (j : ℕ) (m : Map ℕ ℕ) → IsTable m → elem j (undone m) ≡ is_undone (lookup j m)
elem-undone j [] h = refl
elem-undone j ((i, d) ∷ m) h = ground (arith, elem-undone j m h.2, elem-undone_absent j m)

elem-order_slot :
    (j s : ℕ) (l : List ℕ) → elem j (order_slot s l) ≡ (if nat_eq s j then true else elem j l)
unfolding order_slot
elem-order_slot j s [] = ground arith
elem-order_slot j s (t ∷ r) = ground (arith, elem-order_slot j s r)

pub elem-order_slots : (j : ℕ) (l : List ℕ) → elem j (order_slots l) ≡ elem j l
unfolding order_slots
elem-order_slots j [] = refl
elem-order_slots j (s ∷ r) =
    ground (arith, elem-order_slot j s (order_slots r), elem-order_slots j r)

-- For a work list with no slot twice and marks of 0 or 1: a slot is in the list of pending slots
-- exactly if it is listed with `done = 0`.
pub elem-pending :
    (j : ℕ) (m : Map ℕ ℕ) → IsTable m → elem j (order_slots (undone m)) ≡ is_undone (lookup j m)
elem-pending j m h = elem-order_slots j (undone m) ∙ elem-undone j m h
