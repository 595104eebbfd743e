-- ===== src/Run/Sane.antt =====
-- What is so in every state of `process` of backfill/run.go.
use mathlib.Core.Path.{subst}
use epochfill.Common.{
  ℕ, suc, ◌≡◌, ◌≢◌, ◌∙◌, refl, ap, sym, inl, inr, Bool, true, false, Bool-cases, Option, none, some,
  List, length, elem, nat_eq, nat_eq→eq, nat_equality, arith, text_equality,
}
use epochfill.Go.Map.{lookup}
use epochfill.Landing.{Landing}
use epochfill.Store.{EpochDb, success, write_slot, pending_slots}
use epochfill.Store.Table.{undone, order_slots}
use epochfill.Store.Slots.{is_undone, if_listed, elem-pending, lookup-update_done}
use epochfill.Store.Seed.{any_fault}
use epochfill.Store.Write.{write_slot_lem}
use epochfill.Store.History.{Reach-Sound}
use epochfill.Run.{RunReach, run_on, slot_read}
use epochfill.Run.Complete.{RunReach-Good}
use epochfill.Run.Process.{
  SlotPhase, outside, waiting, reading, ready, sent, written, failed, dropped, Process,
  first_slot_phase, process_start, to_phase, wrote_slot, ProcessStep, feed, close_work, cancel,
  read_fails, read_ends, deliver, give_way, write_ends, write_fails, ProcessReach, started, moved,
}

-- What a phase says of the slot's row in the work list, of the failures and of the context.
abbrev pub Fits : SlotPhase → Option ℕ → ℕ → Bool → Type 0
Fits outside row failures stop = is_undone row ≡ false
Fits waiting row failures stop = is_undone row ≡ true
Fits reading row failures stop = is_undone row ≡ true
Fits ready row failures stop = is_undone row ≡ true
Fits sent row failures stop = is_undone row ≡ true
Fits written row failures stop = is_undone row ≡ false
Fits failed row failures stop = failures ≢ 0
Fits dropped row failures stop = stop ≡ true

-- Failures and the end of the context stay.
Fits-later :
    (ph : SlotPhase) (row : Option ℕ) (failures failures' : ℕ) (stop stop' : Bool)
    → (failures ≢ 0 → failures' ≢ 0)
    → (stop ≡ true → stop' ≡ true)
    → Fits ph row failures stop
    → Fits ph row failures' stop'
Fits-later outside row failures failures' stop stop' f g h = h
Fits-later waiting row failures failures' stop stop' f g h = h
Fits-later reading row failures failures' stop stop' f g h = h
Fits-later ready row failures failures' stop stop' f g h = h
Fits-later sent row failures failures' stop stop' f g h = h
Fits-later written row failures failures' stop stop' f g h = h
Fits-later failed row failures failures' stop stop' f g h = f h
Fits-later dropped row failures failures' stop stop' f g h = g h

-- `WriteSlot` touches the row of its own slot only, and with success leaves it done.
write_slot_row :
    (faults : ℕ → Bool) (db : EpochDb) (slot other : ℕ) (ls : List Landing)
    → nat_eq slot other ≡ false
    → lookup other (write_slot faults db slot ls).1.slots ≡ lookup other db.slots
write_slot_row faults db slot other ls apart =
    elim (Bool-cases (any_fault faults 0 (suc (suc (suc (length ls)))))) [
      | inl fails ↦ rw (write_slot_lem faults db slot ls, fails)
      | inr fine ↦
          rw (write_slot_lem faults db slot ls, fine)
            (lookup-update_done slot other db.slots ∙ rw apart)
    ]

done_row : (o : Option ℕ) → is_undone (if_listed o) ≡ false
done_row none = refl
done_row (some d) = refl

write_slot_done :
    (faults : ℕ → Bool) (db : EpochDb) (slot : ℕ) (ls : List Landing)
    → (write_slot faults db slot ls).0 ≡ success
    → is_undone (lookup slot (write_slot faults db slot ls).1.slots) ≡ false
write_slot_done faults db slot ls ok =
    elim (Bool-cases (any_fault faults 0 (suc (suc (suc (length ls)))))) [
      | inl fails ↦ cc (rw (write_slot_lem faults db slot ls, fails) at ok)
      | inr fine ↦
          let self : nat_eq slot slot ≡ true = ground arith in
          rw (write_slot_lem faults db slot ls, fine)
            (ap is_undone {y = if_listed (lookup slot db.slots)}
                (lookup-update_done slot slot db.slots ∙ rw self)
              ∙ done_row (lookup slot db.slots))
    ]

pub write_slot_meta :
    (faults : ℕ → Bool) (db : EpochDb) (slot : ℕ) (ls : List Landing)
    → (write_slot faults db slot ls).1.meta ≡ db.meta
write_slot_meta faults db slot ls =
    elim (Bool-cases (any_fault faults 0 (suc (suc (suc (length ls)))))) [
      | inl fails ↦ rw (write_slot_lem faults db slot ls, fails)
      | inr fine ↦ rw (write_slot_lem faults db slot ls, fine)
    ]

module _ (wanted : List ℕ) (collected : ℕ → List Landing) where
  pub record Sane (s : Process) : Type 0 where
    pub reach : RunReach wanted collected s.db
    pub fits : (j : ℕ) → Fits (s.phase j) (lookup j s.db.slots) s.failures s.cancelled
    pub left : s.fed ≡ true → (j : ℕ) → s.phase j ≡ waiting → s.cancelled ≡ true

  not_rewaiting :
      (i j : ℕ) (ph : SlotPhase) (phase : ℕ → SlotPhase)
      → ph ≢ waiting
      → to_phase i ph phase j ≡ waiting
      → phase j ≡ waiting
  not_rewaiting i j ph phase other h = elim (Bool-cases (nat_eq i j)) [
    | inl same ↦ absurd (other (rw same at h))
    | inr apart ↦ rw apart at h
  ]

  -- One slot moves on; the rows of the others stay.
  move-Sane :
      (i : ℕ) (ph : SlotPhase) (free done' failures' : ℕ) (db' : EpochDb) (s : Process)
      → Sane s
      → ph ≢ waiting
      → (s.failures ≢ 0 → failures' ≢ 0)
      → RunReach wanted collected db'
      → ((j : ℕ) → nat_eq i j ≡ false → lookup j db'.slots ≡ lookup j s.db.slots)
      → Fits ph (lookup i db'.slots) failures' s.cancelled
      → Sane (record s {
        phase = to_phase i ph s.phase;
        free = free;
        slots_done = done';
        failures = failures';
        db = db';
      })
  move-Sane i ph free done' failures' db' s h other more reach rows own = record {
    reach = reach;
    fits = λ j. elim (Bool-cases (nat_eq i j)) [
      | inl same ↦
          rw same (
            subst (λ k. Fits ph (lookup k db'.slots) failures' s.cancelled) (nat_eq→eq i j same)
              own)
      | inr apart ↦
          rw (apart, rows j apart)
            (Fits-later (s.phase j) (lookup j s.db.slots) s.failures failures' s.cancelled
              s.cancelled more (λ e. e) (h.fits j))
    ];
    left = λ shut j waits. h.left shut j (not_rewaiting i j ph s.phase other waits);
  }

  here-Fits :
      (s : Process) (i : ℕ) (ph : SlotPhase)
      → Sane s
      → s.phase i ≡ ph
      → Fits ph (lookup i s.db.slots) s.failures s.cancelled
  here-Fits s i ph h here = rw here at (h.fits i)

  Step-Sane : {s s' : Process} → ProcessStep collected s s' → Sane s → Sane s'
  Step-Sane {s} (feed i k work here first some_free) h =
      move-Sane i reading k s.slots_done s.failures s.db s h (λ e. cc) (λ e. e) h.reach
        (λ j apart. refl) (here-Fits s i waiting h here)
  Step-Sane {s} (close_work why) h = record {
    reach = h.reach;
    fits = h.fits;
    left = λ shut j waits. (elim why [ inl none_left ↦ absurd (none_left j waits) | inr e ↦ e ]);
  }
  Step-Sane {s} cancel h = record {
    reach = h.reach;
    fits = λ j.
        Fits-later (s.phase j) (lookup j s.db.slots) s.failures s.failures s.cancelled true (λ e. e)
          (λ e. refl) (h.fits j);
    left = λ shut j waits. refl;
  }
  Step-Sane {s} (read_fails i here) h =
      move-Sane i failed (suc s.free) s.slots_done (suc s.failures) s.db s h (λ e. cc)
        (λ e f. absurd (omega arith)) h.reach (λ j apart. refl) (λ f. absurd (omega arith))
  Step-Sane {s} (read_ends i here) h =
      move-Sane i ready s.free s.slots_done s.failures s.db s h (λ e. cc) (λ e. e) h.reach
        (λ j apart. refl) (here-Fits s i reading h here)
  Step-Sane {s} (deliver i here) h =
      move-Sane i sent (suc s.free) s.slots_done s.failures s.db s h (λ e. cc) (λ e. e) h.reach
        (λ j apart. refl) (here-Fits s i ready h here)
  Step-Sane {s} (give_way i here stop) h =
      move-Sane i dropped s.free s.slots_done s.failures s.db s h (λ e. cc) (λ e. e) h.reach
        (λ j apart. refl) stop
  Step-Sane {s} (write_ends faults i here ok) h =
      move-Sane i written s.free (suc s.slots_done) s.failures (wrote_slot collected faults i s).1 s
        h (λ e. cc) (λ e. e) (run_on h.reach (slot_read faults i))
        (λ j. write_slot_row faults s.db i j (collected i))
        (write_slot_done faults s.db i (collected i) ok)
  Step-Sane {s} (write_fails faults i here bad) h =
      move-Sane i failed s.free s.slots_done (suc s.failures) (wrote_slot collected faults i s).1 s
        h (λ e. cc) (λ e f. absurd (omega arith)) (run_on h.reach (slot_read faults i))
        (λ j. write_slot_row faults s.db i j (collected i)) (λ f. absurd (omega arith))

  start-Sane :
      (faults : ℕ → Bool) (workers : ℕ) (pending : List ℕ) (db : EpochDb)
      → RunReach wanted collected db
      → pending_slots faults db ≡ some pending
      → Sane (process_start workers pending db)
  unfolding pending_slots first_slot_phase
  start-Sane faults workers pending db r listed = record {
    reach = r;
    fits = λ j. elim (Bool-cases (elem j pending)) [
      | inl todo ↦ rw todo (sym (row j) ∙ todo)
      | inr old ↦ rw old (sym (row j) ∙ old)
    ];
    left = λ h. cc;
  }
    where
      same : order_slots (undone db.slots) ≡ pending
      same = ground arith

      row : (j : ℕ) → elem j pending ≡ is_undone (lookup j db.slots)
      row j =
          ap (λ (l : List ℕ). elem j l) (sym same)
          ∙ elem-pending j db.slots
              (Reach-Sound collected (RunReach-Good wanted collected r).reached).table

  pub ProcessReach-Sane :
      {workers : ℕ} {pending : List ℕ} {db : EpochDb} {s : Process} (faults : ℕ → Bool)
      → RunReach wanted collected db
      → pending_slots faults db ≡ some pending
      → ProcessReach collected workers pending db s
      → Sane s
  ProcessReach-Sane {workers} {pending} {db} faults r listed started =
      start-Sane faults workers pending db r listed
  ProcessReach-Sane faults r listed (moved q step) =
      Step-Sane step (ProcessReach-Sane faults r listed q)
