-- ===== src/Store/Order.antt =====
-- The order of the work list.
use epochfill.Common.{
  ℕ, ◌≡◌, ◌≢◌, ◌∙◌, ap, sym, inl, inr, Bool, Bool-cases, none, some, All, true, false, List, [],
  ◌∷◌, nat_eq, elem, nat_equality, arith,
}
use mathlib.Core.Path.{subst}
use epochfill.Go.Map.{Map, lookup}
use epochfill.Go.Word.{IsU64, lt_i64}
use epochfill.Store.Table.{undone, order_slot, order_slots}
use epochfill.Store.{EpochDb, pending_slots}
use epochfill.Store.Slots.{
  keys, IsTable, elem-undone_absent, elem-order_slots, is_undone, elem-pending,
}

none_absurd : {l : List ℕ} → none ≢ some l
none_absurd = λ e. cc

some-inj : {l m : List ℕ} → some l ≡ some m → l ≡ m
some-inj e = cc

-- Each slot is below the next one, as an `int64`: no slot is there twice.
abbrev pub AscendsI64 : List ℕ → Type 0
AscendsI64 [] = Unit
AscendsI64 (s ∷ []) = Unit
AscendsI64 (s ∷ t ∷ r) = (lt_i64 s t ≡ true) × AscendsI64 (t ∷ r)

abbrev pub DistinctSlots : List ℕ → Type 0
DistinctSlots [] = Unit
DistinctSlots (s ∷ r) = (elem s r ≡ false) × DistinctSlots r

lt_i64_total :
    (s t : ℕ) → IsU64 s → IsU64 t → lt_i64 s t ≡ false → nat_eq s t ≡ false → lt_i64 t s ≡ true
unfolding lt_i64
lt_i64_total s t hs ht h k = ground arith

order_slot-All : (s : ℕ) (l : List ℕ) → IsU64 s → All IsU64 l → All IsU64 (order_slot s l)
unfolding order_slot
order_slot-All s [] hs h = (hs, tt)
order_slot-All s (t ∷ r) hs h = ground (arith, order_slot-All s r)

order_slots-All : (l : List ℕ) → All IsU64 l → All IsU64 (order_slots l)
unfolding order_slots
order_slots-All [] h = tt
order_slots-All (s ∷ r) h = order_slot-All s (order_slots r) h.0 (order_slots-All r h.1)

order_slot-AscendsI64 :
    (s : ℕ) (l : List ℕ)
    → IsU64 s
    → All IsU64 l
    → elem s l ≡ false
    → AscendsI64 l
    → AscendsI64 (order_slot s l)
unfolding order_slot
order_slot-AscendsI64 s [] hs hl new h = tt
order_slot-AscendsI64 s (t ∷ []) hs hl new h = ground (arith, lt_i64_total t s)
order_slot-AscendsI64 s (t ∷ u ∷ r) hs hl new h =
    ground (arith, lt_i64_total t s, order_slot-AscendsI64 s (u ∷ r))

order_slots-AscendsI64 : (l : List ℕ) → All IsU64 l → DistinctSlots l → AscendsI64 (order_slots l)
unfolding order_slots
order_slots-AscendsI64 [] hl h = tt
order_slots-AscendsI64 (s ∷ r) hl h =
    order_slot-AscendsI64 s (order_slots r) hl.0 (order_slots-All r hl.1)
      (elem-order_slots s r ∙ h.0) (order_slots-AscendsI64 r hl.1 h.1)

undone-DistinctSlots : (m : Map ℕ ℕ) → IsTable m → DistinctSlots (undone m)
undone-DistinctSlots [] h = tt
undone-DistinctSlots ((i, d) ∷ m) h =
    ground (arith, undone-DistinctSlots m h.2, elem-undone_absent i m)

undone-All : (m : Map ℕ ℕ) → All IsU64 (keys m) → All IsU64 (undone m)
undone-All [] h = tt
undone-All ((i, d) ∷ m) h = ground (arith, undone-All m)

pending-AscendsI64 :
    (m : Map ℕ ℕ) → IsTable m → All IsU64 (keys m) → AscendsI64 (order_slots (undone m))
pending-AscendsI64 m table range =
    order_slots-AscendsI64 (undone m) (undone-All m range) (undone-DistinctSlots m table)

-- For a work list of 64-bit slots with no slot twice and marks of 0 or 1: if `PendingSlots` returns a
-- list, then it ascends strictly as `int64`s, so no slot is there twice, and a slot is in it exactly
-- if the work list has it with `done = 0`.
pub pending_slots_lem :
    (faults : ℕ → Bool) (db : EpochDb) (pending : List ℕ)
    → IsTable db.slots
    → All IsU64 (keys db.slots)
    → pending_slots faults db ≡ some pending
    → AscendsI64 pending × ((j : ℕ) → elem j pending ≡ is_undone (lookup j db.slots))
unfolding pending_slots
pending_slots_lem faults db pending table range listed = elim (Bool-cases (faults 0)) [
  | inl broken ↦ absurd (none_absurd (rw broken at listed))
  | inr fine ↦
      let same : order_slots (undone db.slots) ≡ pending = some-inj (rw fine at listed) in
      (
        subst AscendsI64 same (pending-AscendsI64 db.slots table range),
        λ j. ap (elem j) (sym same) ∙ elem-pending j db.slots table,
      )
]
