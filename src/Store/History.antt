-- ===== src/Store/History.antt =====
-- Every sequence of calls on the database, from an empty one, with failures anywhere.
use epochfill.Common.{
  ℕ, suc, length, ◌≡◌, ◌≢◌, refl, Bool, true, false, Bool-cases, inl, inr, List, [], ◌∷◌, nat_eq,
  nat_eq→eq, elem, if◌then◌else◌, arith, none, some, nat_equality,
}
use epochfill.Go.Map.{Map, lookup}
use epochfill.Go.Text.{GoString}
use epochfill.Landing.{Landing}
use epochfill.Store.Table.{insert_slot}
use epochfill.Store.Slots.{
  or_new, is_undone, IsTable, lookup-insert_slot, lookup-update_done, insert_slot-IsTable,
  update_done-IsTable, elem-pending,
}
use epochfill.Store.Seed.{any_fault, batches, seed_slots_lem}
use epochfill.Store.Write.{written, write_slot_lem}
use epochfill.Store.Resume.{AllPresent, insert_landings-AllPresent, AllPresent-insert_landings}
use epochfill.Store.{EpochDb, insert_chunk, seed_slots, write_slot, set_meta, pending_slots}

abbrev pub fresh : EpochDb
fresh = record { landings = []; slots = []; meta = [] }

pub lookup-insert_chunk :
    (j : ℕ) (l : List ℕ) (db : EpochDb)
    → lookup j (insert_chunk l db).slots
      ≡ (if elem j l then or_new (lookup j db.slots) else lookup j db.slots)
unfolding insert_chunk
lookup-insert_chunk j [] db = refl
lookup-insert_chunk j (s ∷ r) db = ground (
  arith,
  lookup-insert_slot s j db.slots,
  lookup-insert_chunk j r (record db { slots = insert_slot s db.slots }),
)

insert_chunk-IsTable :
    (l : List ℕ) (db : EpochDb) → IsTable db.slots → IsTable (insert_chunk l db).slots
unfolding insert_chunk
insert_chunk-IsTable [] db h = h
insert_chunk-IsTable (s ∷ r) db h = insert_chunk-IsTable r _ (insert_slot-IsTable s db.slots h)

landings-insert_chunk : (l : List ℕ) (db : EpochDb) → (insert_chunk l db).landings ≡ db.landings
unfolding insert_chunk
landings-insert_chunk [] db = refl
landings-insert_chunk (s ∷ r) db = landings-insert_chunk r _

-- `SeedSlots` does nothing or inserts its slots.
pub seed_slots_state :
    (faults : ℕ → Bool) (db : EpochDb) (l : List ℕ)
    → (b : Bool) × ((seed_slots faults db l).1 ≡ (if b then db else insert_chunk l db))
seed_slots_state faults db [] = (true, unfold seed_slots in refl)
seed_slots_state faults db (s ∷ r) = (
  any_fault faults 0 (suc (suc (batches (length (s ∷ r)) 0))),
  rw (seed_slots_lem faults db s r) (ground arith),
)

pub write_slot_state :
    (faults : ℕ → Bool) (db : EpochDb) (slot : ℕ) (ls : List Landing)
    → (b : Bool) × ((write_slot faults db slot ls).1 ≡ (if b then db else written slot ls db))
write_slot_state faults db slot ls = (
  any_fault faults 0 (suc (suc (suc (length ls)))),
  rw (write_slot_lem faults db slot ls) (ground arith),
)

marked :
    (j : ℕ) (m : Map ℕ ℕ)
    → IsTable m
    → lookup j m ≢ none
    → is_undone (lookup j m) ≡ false
    → lookup j m ≡ some 1
marked j [] h listed done = absurd (listed refl)
marked j ((i, d) ∷ m) h listed done = ground (arith, marked j m h.2)

-- `collected slot` is what reading the slot's block gives.
module _ (collected : ℕ → List Landing) where
  pub data Call (db : EpochDb) : EpochDb → Type 0 where
    seed : (faults : ℕ → Bool) (l : List ℕ) → Call db (seed_slots faults db l).1
    write : (faults : ℕ → Bool) (slot : ℕ) → Call db (write_slot faults db slot (collected slot)).1
    remember : (faults : ℕ → Bool) (key v : GoString) → Call db (set_meta faults db key v).1

  pub data Reach : EpochDb → Type 0 where
    start : Reach fresh
    later : {db db' : EpochDb} → Reach db → Call db db' → Reach db'

  pub record Sound (db : EpochDb) : Type 0 where
    pub table : IsTable db.slots
    complete : (slot : ℕ) → lookup slot db.slots ≡ some 1 → AllPresent (collected slot) db.landings

  insert_chunk-Sound : (l : List ℕ) (db : EpochDb) → Sound db → Sound (insert_chunk l db)
  insert_chunk-Sound l db h = record {
    table = insert_chunk-IsTable l db h.table;
    complete = λ slot marked.
        rw (landings-insert_chunk l db)
          (h.complete slot (ground (arith, lookup-insert_chunk slot l db)));
  }

  written-Sound : (slot : ℕ) (db : EpochDb) → Sound db → Sound (written slot (collected slot) db)
  written-Sound slot db h = record {
    table = update_done-IsTable slot db.slots h.table;
    complete = λ j marked. elim (Bool-cases (nat_eq slot j)) [
      | inl same ↦
          rw (← nat_eq→eq slot j same) (insert_landings-AllPresent (collected slot) db.landings)
      | inr other ↦
          AllPresent-insert_landings (collected j) (collected slot) db.landings
            (h.complete j (ground (arith, lookup-update_done slot j db.slots)))
    ];
  }

  if-Sound : (b : Bool) (db db' : EpochDb) → Sound db → Sound db' → Sound (if b then db else db')
  if-Sound true db db' h h' = h
  if-Sound false db db' h h' = h'

  Call-Sound : {db db' : EpochDb} → Call db db' → Sound db → Sound db'
  unfolding set_meta
  Call-Sound {db} (seed faults l) h =
      let (b, e) = seed_slots_state faults db l in
      rw e (if-Sound b db (insert_chunk l db) h (insert_chunk-Sound l db h))
  Call-Sound {db} (write faults slot) h =
      let (b, e) = write_slot_state faults db slot (collected slot) in
      rw e (if-Sound b db (written slot (collected slot) db) h (written-Sound slot db h))
  Call-Sound {db} (remember faults key v) h = elim (Bool-cases (faults 0)) [
    | inl broken ↦ rw broken h
    | inr fine ↦ rw fine (record { table = h.table; complete = h.complete })
  ]

  pub Reach-Sound : {db : EpochDb} → Reach db → Sound db
  Reach-Sound start = record { table = tt; complete = λ slot h. cc }
  Reach-Sound (later r c) = Call-Sound c (Reach-Sound r)

  -- After any sequence of `SeedSlots`, `WriteSlot` and `SetMeta` calls on a new database, with
  -- statements failing anywhere: for a slot that is in the work list and that `PendingSlots` does
  -- not return, the table has a row with the signature of every row collected from it.
  pub pending_slots_complete :
      {db : EpochDb} (faults : ℕ → Bool) (pending : List ℕ) (slot : ℕ)
      → Reach db
      → pending_slots faults db ≡ some pending
      → lookup slot db.slots ≢ none
      → elem slot pending ≡ false
      → AllPresent (collected slot) db.landings
  unfolding pending_slots
  pending_slots_complete {db} faults pending slot r read listed absent = sound.complete slot (
      marked slot db.slots sound.table listed
        (ground (arith, elem-pending slot db.slots sound.table)))
    where
      sound : Sound db
      sound = Reach-Sound r
