-- ===== src/Run/Ending.antt =====
-- What is left to do in a state of `process` of backfill/run.go, and where its workers are.
use epochfill.Common.{
  ℕ, suc, ◌+◌, ◌<◌, ◌≡◌, ◌≢◌, refl, ◌⊎◌, inl, inr, Bool, true, false, Bool-cases, List, [], ◌∷◌,
  elem, nat_eq, nat_eq→eq, nat_equality, if◌then◌else◌, arith, total_of, total_of-set_at,
  total_of-zero,
}
use mathlib.Core.Path.{subst}
use epochfill.Landing.{Landing}
use epochfill.Store.{EpochDb}
use epochfill.Run.Process.{
  SlotPhase, outside, waiting, reading, ready, sent, written, failed, dropped, Process,
  first_slot_phase, process_start, to_phase, ProcessStep, feed, close_work, cancel, read_fails,
  read_ends, deliver, give_way, write_ends, write_fails, ProcessReach, started, moved,
}

-- The steps that a slot still has before it.
abbrev pub to_do : SlotPhase → ℕ
to_do waiting = 4
to_do reading = 3
to_do ready = 2
to_do sent = 1
to_do _ = 0

-- The worker that a slot keeps from the next one.
abbrev pub held : SlotPhase → ℕ
held reading = 1
held ready = 1
held dropped = 1
held _ = 0

-- A number above each slot of a list.
abbrev pub above : List ℕ → ℕ
above [] = 0
above (slot ∷ r) = suc slot + above r

elem-above : (j : ℕ) (l : List ℕ) → elem j l ≡ true → j < above l
elem-above j [] h = cc
elem-above j (slot ∷ r) h = elim (Bool-cases (nat_eq slot j)) [
  | inl same ↦ ground (arith, same)
  | inr apart ↦ let later = elem-above j r (rw apart at h) in omega arith
]

module _ (collected : ℕ → List Landing) (n : ℕ) where
  -- The steps that are left: those of the slots, and the end of the feeder.
  abbrev pub work : Process → ℕ
  work s = total_of to_do s.phase n + (if s.fed then 0 else 1)

  abbrev pub Moves : Process → Process → Type 0
  Moves s s' = (work s' < work s) ⊎ ((work s' ≡ work s) × (s'.phase ≡ s.phase))

  -- Each worker waits for a slot, has one, or has returned since the context is done.
  pub record Manned (workers : ℕ) (s : Process) : Type 0 where
    pub range : (j : ℕ) → s.phase j ≢ outside → j < n
    pub staff : total_of held s.phase n + s.free ≡ workers
    pub dropped_stops : (j : ℕ) → s.phase j ≡ dropped → s.cancelled ≡ true

  pub less_work :
      (workers i : ℕ) (ph old : SlotPhase) (s : Process)
      → Manned workers s
      → s.phase i ≡ old
      → old ≢ outside
      → to_do ph < to_do old
      → total_of to_do (to_phase i ph s.phase) n + (if s.fed then 0 else 1) < work s
  less_work workers i ph old s h here moving less =
      let e = rw here at (total_of-set_at to_do i ph s.phase n (h.range i (rw here moving))) in
      omega arith

  pub Step-Moves :
      (workers : ℕ) {s s' : Process} → ProcessStep collected s s' → Manned workers s → Moves s s'
  Step-Moves workers {s} (feed i k open_work here first some_free) h =
      inl (less_work workers i reading waiting s h here (λ e. cc) (omega arith))
  Step-Moves workers {s} (close_work why) h = elim (Bool-cases s.fed) [
    | inl shut ↦ inr (ground (arith, shut), refl)
    | inr going ↦ inl (ground (arith, going))
  ]
  Step-Moves workers cancel h = inr (refl, refl)
  Step-Moves workers {s} (read_fails i here) h =
      inl (less_work workers i failed reading s h here (λ e. cc) (omega arith))
  Step-Moves workers {s} (read_ends i here) h =
      inl (less_work workers i ready reading s h here (λ e. cc) (omega arith))
  Step-Moves workers {s} (deliver i here) h =
      inl (less_work workers i sent ready s h here (λ e. cc) (omega arith))
  Step-Moves workers {s} (give_way i here stop) h =
      inl (less_work workers i dropped ready s h here (λ e. cc) (omega arith))
  Step-Moves workers {s} (write_ends faults i here ok) h =
      inl (less_work workers i written sent s h here (λ e. cc) (omega arith))
  Step-Moves workers {s} (write_fails faults i here bad) h =
      inl (less_work workers i failed sent s h here (λ e. cc) (omega arith))

  -- One slot moves on, with the workers that this frees or takes.
  move-Manned :
      (workers i free slots_done failures : ℕ) (ph old : SlotPhase) (db : EpochDb) (s : Process)
      → Manned workers s
      → s.phase i ≡ old
      → old ≢ outside
      → held ph + free ≡ held old + s.free
      → (ph ≡ dropped → s.cancelled ≡ true)
      → Manned workers (record s {
        phase = to_phase i ph s.phase;
        free = free;
        slots_done = slots_done;
        failures = failures;
        db = db;
      })
  move-Manned workers i free slots_done failures ph old db s h here moving same stops =
      let inside = h.range i (rw here moving) in
      let e = rw here at (total_of-set_at held i ph s.phase n inside) in
      let own = h.staff in
      record {
        range = λ j other. elim (Bool-cases (nat_eq i j)) [
          | inl equal ↦ subst (λ k. k < n) (nat_eq→eq i j equal) inside
          | inr apart ↦ h.range j (rw apart at other)
        ];
        staff = omega arith;
        dropped_stops = λ j gone. elim (Bool-cases (nat_eq i j)) [
          | inl equal ↦ stops (rw equal at gone)
          | inr apart ↦ h.dropped_stops j (rw apart at gone)
        ];
      }

  Step-Manned :
      (workers : ℕ) {s s' : Process}
      → ProcessStep collected s s'
      → Manned workers s
      → Manned workers s'
  Step-Manned workers {s} (feed i k open_work here first some_free) h =
      move-Manned workers i k s.slots_done s.failures reading waiting s.db s h here (λ e. cc)
        (omega arith) (λ e. cc)
  Step-Manned workers (close_work why) h = record {
    range = h.range;
    staff = h.staff;
    dropped_stops = h.dropped_stops;
  }
  Step-Manned workers cancel h = record {
    range = h.range;
    staff = h.staff;
    dropped_stops = λ j gone. refl;
  }
  Step-Manned workers {s} (read_fails i here) h =
      move-Manned workers i (suc s.free) s.slots_done (suc s.failures) failed reading s.db s h here
        (λ e. cc) (omega arith) (λ e. cc)
  Step-Manned workers {s} (read_ends i here) h =
      move-Manned workers i s.free s.slots_done s.failures ready reading s.db s h here (λ e. cc)
        refl (λ e. cc)
  Step-Manned workers {s} (deliver i here) h =
      move-Manned workers i (suc s.free) s.slots_done s.failures sent ready s.db s h here (λ e. cc)
        (omega arith) (λ e. cc)
  Step-Manned workers {s} (give_way i here stop) h =
      move-Manned workers i s.free s.slots_done s.failures dropped ready s.db s h here (λ e. cc)
        refl (λ _. stop)
  Step-Manned workers {s} (write_ends faults i here ok) h =
      move-Manned workers i s.free (suc s.slots_done) s.failures written sent _ s h here (λ e. cc)
        refl (λ e. cc)
  Step-Manned workers {s} (write_fails faults i here bad) h =
      move-Manned workers i s.free s.slots_done (suc s.failures) failed sent _ s h here (λ e. cc)
        refl (λ e. cc)

module _ (collected : ℕ → List Landing) (workers : ℕ) (pending : List ℕ) (db : EpochDb) where
  start-Manned : Manned collected (above pending) workers (process_start workers pending db)
  unfolding first_slot_phase
  start-Manned = record {
    range = λ j moving. elim (Bool-cases (elem j pending)) [
      | inl listed ↦ elem-above j pending listed
      | inr missing ↦ absurd (moving (rw missing))
    ];
    staff =
        (let none_held =
            total_of-zero held (first_slot_phase pending) (above pending)
              (λ i inside. idle (elem i pending)) in
          omega arith);
    dropped_stops = λ j gone. absurd (not_dropped (elem j pending) gone);
  }
    where
      idle : (b : Bool) → held (if b then waiting else outside) ≡ 0
      idle true = refl
      idle false = refl

      not_dropped : (b : Bool) → (if b then waiting else outside) ≢ dropped
      not_dropped true = λ e. cc
      not_dropped false = λ e. cc

  pub ProcessReach-Manned :
      {s : Process}
      → ProcessReach collected workers pending db s
      → Manned collected (above pending) workers s
  ProcessReach-Manned started = start-Manned
  ProcessReach-Manned (moved q step) =
      Step-Manned collected (above pending) workers step (ProcessReach-Manned q)
