-- ===== src/Run/Exact.antt =====
-- The signatures of which the landing table has a row while `process` of backfill/run.go goes on.
use epochfill.Common.{
  ℕ, suc, ◌≡◌, ◌≢◌, ◌∙◌, refl, ap, sym, inl, inr, Bool, true, false, Bool-cases, ◌||◌, ◌&&◌, List,
  [], ◌∷◌, length, any_of, elem, nat_eq, nat_eq→eq, nat_equality, if◌then◌else◌, arith,
}
use mathlib.Core.Path.{subst}
use epochfill.Go.Text.{GoString}
use epochfill.Landing.{Landing}
use epochfill.Store.{EpochDb, write_slot}
use epochfill.Store.Seed.{any_fault}
use epochfill.Store.Write.{write_slot_lem}
use epochfill.Store.Resume.{has_sig}
use epochfill.Store.SigSet.{write_slot-has_sig}
use epochfill.Run.Process.{
  SlotPhase, outside, waiting, reading, ready, sent, written, failed, dropped, Process,
  first_slot_phase, to_phase, ProcessStep, feed, close_work, cancel, read_fails, read_ends, deliver,
  give_way, write_ends, write_fails, ProcessReach, started, moved,
}

abbrev pub is_written : SlotPhase → Bool
is_written written = true
is_written _ = false

-- Some slot of the list that passes the test has a row of the signature.
abbrev pub any_row : (ℕ → List Landing) → GoString → (ℕ → Bool) → List ℕ → Bool
any_row collected s p slots = any_of (λ slot. p slot && has_sig s (collected slot)) slots

module _ (collected : ℕ → List Landing) where
  any_row-same :
      (s : GoString) (p p' : ℕ → Bool) (slots : List ℕ)
      → ((slot : ℕ) → p slot ≡ p' slot)
      → any_row collected s p slots ≡ any_row collected s p' slots
  any_row-same s p p' [] h = refl
  any_row-same s p p' (slot ∷ r) h = rw (h slot, any_row-same s p p' r h)

  -- One more slot passes the test.
  any_row-more :
      (s : GoString) (p : ℕ → Bool) (i : ℕ) (slots : List ℕ)
      → any_row collected s (λ slot. if nat_eq i slot then true else p slot) slots
        ≡ (any_row collected s p slots || (elem i slots && has_sig s (collected i)))
  any_row-more s p i [] = refl
  any_row-more s p i (slot ∷ r) = elim (Bool-cases (nat_eq i slot)) [
    | inl same ↦
        let e : has_sig s (collected i) ≡ has_sig s (collected slot) =
          ap (λ k. has_sig s (collected k)) (nat_eq→eq i slot same) in
        ground (arith, same, e, any_row-more s p i r)
    | inr apart ↦ ground (arith, apart, any_row-more s p i r)
  ]

  module _ (pending : List ℕ) (db : EpochDb) where
    pub record Exact (t : Process) : Type 0 where
      pub inside : (j : ℕ) → t.phase j ≢ outside → elem j pending ≡ true
      pub listed : (j : ℕ) → elem j pending ≡ true → t.phase j ≢ outside
      pub rows :
          (s : GoString)
          → has_sig s t.db.landings
            ≡ (has_sig s db.landings || any_row collected s (λ j. is_written (t.phase j)) pending)

    unwritten_same :
        (i : ℕ) (ph : SlotPhase) (phase : ℕ → SlotPhase)
        → is_written ph ≡ is_written (phase i)
        → (j : ℕ) → is_written (to_phase i ph phase j) ≡ is_written (phase j)
    unwritten_same i ph phase h j = elim (Bool-cases (nat_eq i j)) [
      | inl same ↦ rw same (h ∙ ap (λ k. is_written (phase k)) (nat_eq→eq i j same))
      | inr apart ↦ rw apart
    ]

    inside-moved :
        (i : ℕ) (ph : SlotPhase) (phase : ℕ → SlotPhase)
        → ((j : ℕ) → phase j ≢ outside → elem j pending ≡ true)
        → phase i ≢ outside
        → (j : ℕ) → to_phase i ph phase j ≢ outside
        → elem j pending ≡ true
    inside-moved i ph phase h own j other = elim (Bool-cases (nat_eq i j)) [
      | inl same ↦ subst (λ k. elem k pending ≡ true) (nat_eq→eq i j same) (h i own)
      | inr apart ↦ h j (rw apart at other)
    ]

    listed-moved :
        (i : ℕ) (ph : SlotPhase) (phase : ℕ → SlotPhase)
        → ((j : ℕ) → elem j pending ≡ true → phase j ≢ outside)
        → ph ≢ outside
        → (j : ℕ) → elem j pending ≡ true
        → to_phase i ph phase j ≢ outside
    listed-moved i ph phase h own j here = elim (Bool-cases (nat_eq i j)) [
      | inl same ↦ rw same own
      | inr apart ↦ rw apart (h j here)
    ]

    -- A slot moves on, and the table has the same signatures.
    quiet-Exact :
        (i free slots_done failures : ℕ) (ph old : SlotPhase) (now : EpochDb) (t : Process)
        → Exact t
        → t.phase i ≡ old
        → old ≢ outside
        → ph ≢ outside
        → is_written ph ≡ is_written old
        → ((s : GoString) → has_sig s now.landings ≡ has_sig s t.db.landings)
        → Exact (record t {
          phase = to_phase i ph t.phase;
          free = free;
          slots_done = slots_done;
          failures = failures;
          db = now;
        })
    quiet-Exact i free slots_done failures ph old now t h here moving own same_test same = record {
      inside = inside-moved i ph t.phase h.inside (rw here moving);
      listed = listed-moved i ph t.phase h.listed own;
      rows = λ s.
          same s
          ∙ (h.rows s
              ∙ ap (λ b. has_sig s db.landings || b)
                  (any_row-same s (λ j. is_written (t.phase j))
                    (λ j. is_written (to_phase i ph t.phase j)) pending
                    (λ j. sym (unwritten_same i ph t.phase (same_test ∙ rw here) j))));
    }

    Step-Exact : {t t' : Process} → ProcessStep collected t t' → Exact t → Exact t'
    Step-Exact {t} (feed i k work here first some_free) h =
        quiet-Exact i k t.slots_done t.failures reading waiting t.db t h here (λ e. cc) (λ e. cc)
          refl (λ s. refl)
    Step-Exact (close_work why) h = record { inside = h.inside; listed = h.listed; rows = h.rows }
    Step-Exact cancel h = record { inside = h.inside; listed = h.listed; rows = h.rows }
    Step-Exact {t} (read_fails i here) h =
        quiet-Exact i (suc t.free) t.slots_done (suc t.failures) failed reading t.db t h here
          (λ e. cc) (λ e. cc) refl (λ s. refl)
    Step-Exact {t} (read_ends i here) h =
        quiet-Exact i t.free t.slots_done t.failures ready reading t.db t h here (λ e. cc) (λ e. cc)
          refl (λ s. refl)
    Step-Exact {t} (deliver i here) h =
        quiet-Exact i (suc t.free) t.slots_done t.failures sent ready t.db t h here (λ e. cc)
          (λ e. cc) refl (λ s. refl)
    Step-Exact {t} (give_way i here stop) h =
        quiet-Exact i t.free t.slots_done t.failures dropped ready t.db t h here (λ e. cc) (λ e. cc)
          refl (λ s. refl)
    Step-Exact {t} (write_ends faults i here ok) h = record {
      inside = inside-moved i written t.phase h.inside (rw here (λ e. cc));
      listed = listed-moved i written t.phase h.listed (λ e. cc);
      rows = λ s. added s;
    }
      where
        fine : any_fault faults 0 (suc (suc (suc (length (collected i))))) ≡ false
        fine = ground (arith, write_slot_lem faults t.db i (collected i), ok)

        test :
            (j : ℕ)
            → is_written (to_phase i written t.phase j)
              ≡ (if nat_eq i j then true else is_written (t.phase j))
        test j = ground arith

        added :
            (s : GoString)
            → has_sig s (write_slot faults t.db i (collected i)).1.landings ≡ (
                has_sig s db.landings
                || any_row collected s (λ j. is_written (to_phase i written t.phase j)) pending)
        added s =
            let e =
              any_row-same s (λ j. is_written (to_phase i written t.phase j))
                (λ j. if nat_eq i j then true else is_written (t.phase j)) pending test in
            ground (
              arith,
              fine,
              write_slot-has_sig faults t.db i (collected i) s,
              h.rows s,
              any_row-more s (λ j. is_written (t.phase j)) i pending,
              h.inside i (rw here (λ e. cc)),
              e,
            )
    Step-Exact {t} (write_fails faults i here bad) h =
        quiet-Exact i t.free t.slots_done (suc t.failures) failed sent _ t h here (λ e. cc)
          (λ e. cc) refl (λ s. rw (broken) at (write_slot-has_sig faults t.db i (collected i) s))
      where
        broken : any_fault faults 0 (suc (suc (suc (length (collected i))))) ≡ true
        broken = elim (Bool-cases (any_fault faults 0 (suc (suc (suc (length (collected i))))))) [
          | inl fails ↦ fails
          | inr fine ↦ absurd (bad (rw (write_slot_lem faults t.db i (collected i), fine)))
        ]

    first_inside : (j : ℕ) → first_slot_phase pending j ≢ outside → elem j pending ≡ true
    unfolding first_slot_phase
    first_inside j other = ground (arith, other)

    first_listed : (j : ℕ) → elem j pending ≡ true → first_slot_phase pending j ≢ outside
    unfolding first_slot_phase
    first_listed j here = rw here (λ e. cc)

    first_unwritten : (j : ℕ) → is_written (first_slot_phase pending j) ≡ false
    unfolding first_slot_phase
    first_unwritten j = ground arith

    any_row-none :
        (s : GoString) (slots : List ℕ)
        → any_row collected s (λ j. is_written (first_slot_phase pending j)) slots ≡ false
    any_row-none s [] = refl
    any_row-none s (slot ∷ r) = rw (first_unwritten slot, any_row-none s r)

    pub ProcessReach-Exact :
        {workers : ℕ} {t : Process} → ProcessReach collected workers pending db t → Exact t
    ProcessReach-Exact started = record {
      inside = first_inside;
      listed = first_listed;
      rows = λ s. ground (arith, any_row-none s pending);
    }
    ProcessReach-Exact (moved q step) = Step-Exact step (ProcessReach-Exact q)
