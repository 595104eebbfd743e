-- ===== src/Run/Complete.antt =====
-- When a run has nothing left to do, the table has every row.
use epochfill.Common.{
  ℕ, ◌≡◌, ◌≢◌, suc, ◌∙◌, ◌⊎◌, refl, length, Bool, true, false, Bool-cases, inl, inr, Option, none,
  some, List, [], ◌∷◌, elem, nat_equality, text_eq, text_equality, if◌then◌else◌, arith,
}
use epochfill.Go.Map.{lookup}
use epochfill.Go.Text.{GoString}
use epochfill.Landing.{Landing}
use epochfill.Store.{
  EpochDb, SqlResult, success, failure, insert_chunk, set_meta, meta_value, seed_slots, write_slot,
  pending_slots,
}
use epochfill.Store.Slots.{lookup-update_done}
use epochfill.Store.Seed.{any_fault, batches, seed_slots_lem}
use epochfill.Store.Write.{written}
use epochfill.Store.Resume.{AllPresent}
use epochfill.Store.History.{
  lookup-insert_chunk, write_slot_state, seed, write, remember, Reach, start, later,
  pending_slots_complete,
}
use epochfill.Run.{
  meta_discovered, yes_text, after_seed, discover, RunStep, discovery_failed, discovery, slot_read,
  RunReach, first_run, run_on,
}

abbrev pub is_listed : Option ℕ → Bool
is_listed none = false
is_listed (some d) = true

module _ (wanted : List ℕ) (collected : ℕ → List Landing) where
  -- Once discovery is marked as complete, the slots are in the work list.
  abbrev pub Listed : EpochDb → Type 0
  Listed db =
      lookup meta_discovered db.meta ≡ some yes_text
      → (slot : ℕ) → elem slot wanted ≡ true
      → is_listed (lookup slot db.slots) ≡ true

  pub record Good (db : EpochDb) : Type 0 where
    pub reached : Reach collected db
    pub listed : Listed db

  set_meta-slots :
      (faults : ℕ → Bool) (db : EpochDb) (key v : GoString)
      → (set_meta faults db key v).1.slots ≡ db.slots
  unfolding set_meta
  set_meta-slots faults db key v = elim (Bool-cases (faults 0)) [
    | inl fails ↦ rw fails
    | inr fine ↦ rw fine
  ]

  -- `SeedSlots` of the discovered slots.
  seed_result :
      (faults : ℕ → Bool) (db : EpochDb) (l : List ℕ)
      → (seed_slots faults db l ≡ (failure, db))
        ⊎ (seed_slots faults db l ≡ (success, insert_chunk l db))
  seed_result faults db [] = inr (unfold seed_slots insert_chunk in refl)
  seed_result faults db (s ∷ r) =
      elim (Bool-cases (any_fault faults 0 (suc (suc (batches (length (s ∷ r)) 0))))) [
        | inl fails ↦ inl (seed_slots_lem faults db s r ∙ rw fails)
        | inr fine ↦ inr (seed_slots_lem faults db s r ∙ rw fine)
      ]

  insert_chunk-wanted :
      (slot : ℕ) (db : EpochDb)
      → elem slot wanted ≡ true
      → is_listed (lookup slot (insert_chunk wanted db).slots) ≡ true
  insert_chunk-wanted slot db here = ground (arith, lookup-insert_chunk slot wanted db)

  carry :
      (r : SqlResult × EpochDb) (b : SqlResult) (db : EpochDb)
      → r ≡ (b, db)
      → Reach collected r.1
      → Reach collected db
  carry r b db e reach = rw e at reach

  -- `SetMeta` once the slots are in the list.
  flag-Good :
      (h : ℕ → Bool) (db : EpochDb)
      → Reach collected (insert_chunk wanted db)
      → Good (set_meta h (insert_chunk wanted db) meta_discovered yes_text).1
  flag-Good h db reach = record {
    reached = later reach (remember h meta_discovered yes_text);
    listed = λ flag slot here.
        rw (set_meta-slots h (insert_chunk wanted db) meta_discovered yes_text)
          (insert_chunk-wanted slot db here);
  }

  discovery-Good :
      (f g h : ℕ → Bool) (db : EpochDb) → Good db → Good (discover f g h db (some wanted)).1
  unfolding discover
  discovery-Good f g h db good =
      elim (Bool-cases (text_eq (meta_value f db meta_discovered) yes_text)) [
        | inl known ↦ rw known good
        | inr unknown ↦ elim (seed_result g db wanted) [
          | inl fails ↦ rw (unknown, fails, after_seed) good
          | inr fine ↦
              rw (unknown, fine, after_seed)
                (flag-Good h db (
                  carry (seed_slots g db wanted) success (insert_chunk wanted db) fine
                    (later good.reached (seed g wanted))))
        ]
      ]

  failed-Good : (f g h : ℕ → Bool) (db : EpochDb) → Good db → Good (discover f g h db none).1
  unfolding discover
  failed-Good f g h db good =
      elim (Bool-cases (text_eq (meta_value f db meta_discovered) yes_text)) [
        | inl known ↦ rw known good
        | inr unknown ↦ rw unknown good
      ]

  written-Listed : (slot : ℕ) (db : EpochDb) → Listed db → Listed (written slot (collected slot) db)
  written-Listed slot db listed =
      λ flag j here. ground (arith, lookup-update_done slot j db.slots, listed flag j here)

  if-Listed :
      (b : Bool) (db db' : EpochDb) → Listed db → Listed db' → Listed (if b then db else db')
  if-Listed true db db' h h' = h
  if-Listed false db db' h h' = h'

  read-Good :
      (f : ℕ → Bool) (slot : ℕ) (db : EpochDb)
      → Good db
      → Good (write_slot f db slot (collected slot)).1
  read-Good f slot db good =
      let (b, e) = write_slot_state f db slot (collected slot) in
      record {
        reached = later good.reached (write f slot);
        listed = rw e (
            if-Listed b db (written slot (collected slot) db) good.listed
              (written-Listed slot db good.listed));
      }

  step-Good : {db db' : EpochDb} → RunStep wanted collected db db' → Good db → Good db'
  step-Good {db = db} (discovery_failed f g h) good = failed-Good f g h db good
  step-Good {db = db} (discovery f g h) good = discovery-Good f g h db good
  step-Good {db = db} (slot_read f slot) good = read-Good f slot db good

  pub RunReach-Good : {db : EpochDb} → RunReach wanted collected db → Good db
  RunReach-Good first_run = record { reached = start; listed = λ flag. cc }
  RunReach-Good (run_on r step) = step-Good step (RunReach-Good r)

  is_listed-ne-none : (o : Option ℕ) → is_listed o ≡ true → o ≢ none
  is_listed-ne-none none h = cc
  is_listed-ne-none (some d) h = λ e. cc

  -- After any number of runs on a new database, with statements failing anywhere and each run
  -- ending at any point, and with a discovery that fails or finds the same slots: if the discovery
  -- is marked as complete and `PendingSlots` returns no slot, the table has a row with the
  -- signature of every row collected from every discovered slot.
  pub run_complete :
      {db : EpochDb} (faults : ℕ → Bool) (slot : ℕ)
      → RunReach wanted collected db
      → lookup meta_discovered db.meta ≡ some yes_text
      → pending_slots faults db ≡ some []
      → elem slot wanted ≡ true
      → AllPresent (collected slot) db.landings
  run_complete {db} faults slot r flag nothing here =
      let good = RunReach-Good r in
      pending_slots_complete collected faults [] slot good.reached nothing
        (is_listed-ne-none (lookup slot db.slots) (good.listed flag slot here)) refl
