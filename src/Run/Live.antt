-- ===== src/Run/Live.antt =====
-- From every state, `process` of backfill/run.go can go on to its end.
use epochfill.Common.{
  ℕ, zero, suc, ◌<◌, ◌≡◌, ◌≢◌, refl, ◌⊎◌, inl, inr, Bool, true, false, Bool-cases, List, arith,
  total_of-zero, search, ltb,
}
use epochfill.Landing.{Landing}
use epochfill.Store.{EpochDb, SqlResult, success, failure, out_of_fuel}
use epochfill.Run.Process.{
  SlotPhase, outside, waiting, reading, ready, sent, written, failed, dropped, Process, wrote_slot,
  ProcessStep, feed, close_work, read_ends, deliver, write_ends, write_fails, ProcessReach,
  under_way, ProcessEnded,
}
use epochfill.Run.Ending.{
  held, above, work, Moves, Manned, less_work, Step-Moves, ProcessReach-Manned,
}

abbrev is_waiting : SlotPhase → Bool
is_waiting waiting = true
is_waiting _ = false

abbrev is_dropped : SlotPhase → Bool
is_dropped dropped = true
is_dropped _ = false

is_waiting-waiting : (ph : SlotPhase) → is_waiting ph ≡ true → ph ≡ waiting
is_waiting-waiting waiting h = refl
is_waiting-waiting outside h = cc
is_waiting-waiting reading h = cc
is_waiting-waiting ready h = cc
is_waiting-waiting sent h = cc
is_waiting-waiting written h = cc
is_waiting-waiting failed h = cc
is_waiting-waiting dropped h = cc

is_dropped-dropped : (ph : SlotPhase) → is_dropped ph ≡ true → ph ≡ dropped
is_dropped-dropped dropped h = refl
is_dropped-dropped outside h = cc
is_dropped-dropped waiting h = cc
is_dropped-dropped reading h = cc
is_dropped-dropped ready h = cc
is_dropped-dropped sent h = cc
is_dropped-dropped written h = cc
is_dropped-dropped failed h = cc

none_held : (ph : SlotPhase) → under_way ph ≡ false → is_dropped ph ≡ false → held ph ≡ 0
none_held outside busy gone = refl
none_held waiting busy gone = refl
none_held reading busy gone = cc
none_held ready busy gone = cc
none_held sent busy gone = cc
none_held written busy gone = refl
none_held failed busy gone = refl
none_held dropped busy gone = cc

not_waiting : (ph : SlotPhase) → is_waiting ph ≡ false → ph ≢ waiting
not_waiting ph h = λ e. cc (rw e at h)

-- A phase that only a slot below the bound has.
module _ (p : SlotPhase → Bool) (not_outside : p outside ≡ false) where
  everywhere :
      (n : ℕ) (phase : ℕ → SlotPhase)
      → ((j : ℕ) → phase j ≢ outside → j < n)
      → ((j : ℕ) → j < n → p (phase j) ≡ false)
      → (j : ℕ) → p (phase j) ≡ false
  everywhere n phase range h j = elim (Bool-cases (ltb j n)) [
    | inl below ↦ h j (ground (arith, below))
    | inr above_it ↦ by_phase (phase j) (λ other. absurd (ground (arith, above_it, range j other)))
  ]
    where
      by_phase : (ph : SlotPhase) → (ph ≢ outside → p ph ≡ false) → p ph ≡ false
      by_phase outside out = not_outside
      by_phase waiting out = out (λ e. cc)
      by_phase reading out = out (λ e. cc)
      by_phase ready out = out (λ e. cc)
      by_phase sent out = out (λ e. cc)
      by_phase written out = out (λ e. cc)
      by_phase failed out = out (λ e. cc)
      by_phase dropped out = out (λ e. cc)

module _ (collected : ℕ → List Landing) (n workers : ℕ) where
  -- A step that leaves less to do.
  abbrev pub GoesOn : Process → Type 0
  GoesOn s =
      (s' : Process) × ProcessStep collected s s' × (work collected n s' < work collected n s)

  abbrev no_fault : ℕ → Bool
  no_fault _ = false

  -- A write ends, well or not.
  write-GoesOn :
      (i : ℕ) (result : SqlResult) (s : Process)
      → Manned collected n workers s
      → s.phase i ≡ sent
      → (wrote_slot collected no_fault i s).0 ≡ result
      → GoesOn s
  write-GoesOn i success s h here e = (
    _,
    write_ends no_fault i here e,
    less_work collected n workers i written sent s h here (λ e. cc) (omega arith),
  )
  write-GoesOn i failure s h here e = (
    _,
    write_fails no_fault i here (λ e'. cc (e, e')),
    less_work collected n workers i failed sent s h here (λ e. cc) (omega arith),
  )
  write-GoesOn i out_of_fuel s h here e = (
    _,
    write_fails no_fault i here (λ e'. cc (e, e')),
    less_work collected n workers i failed sent s h here (λ e. cc) (omega arith),
  )

  slot-GoesOn :
      (i : ℕ) (ph : SlotPhase) (s : Process)
      → Manned collected n workers s
      → s.phase i ≡ ph
      → under_way ph ≡ true
      → GoesOn s
  slot-GoesOn i reading s h here busy = (
    _,
    read_ends i here,
    less_work collected n workers i ready reading s h here (λ e. cc) (omega arith),
  )
  slot-GoesOn i ready s h here busy = (
    _,
    deliver i here,
    less_work collected n workers i sent ready s h here (λ e. cc) (omega arith),
  )
  slot-GoesOn i sent s h here busy =
      write-GoesOn i (wrote_slot collected no_fault i s).0 s h here refl
  slot-GoesOn i outside s h here busy = cc
  slot-GoesOn i waiting s h here busy = cc
  slot-GoesOn i written s h here busy = cc
  slot-GoesOn i failed s h here busy = cc
  slot-GoesOn i dropped s h here busy = cc

  -- Without a free worker, and with no slot under way, a worker has returned.
  all_dropped :
      (s : Process)
      → Manned collected n workers s
      → 0 < workers
      → s.free ≡ 0
      → ((i : ℕ) → i < n → under_way (s.phase i) ≡ false)
      → s.cancelled ≡ true
  all_dropped s h some_workers none_free idle = elim (search is_dropped s.phase n) [
    | inl (i, inside, gone, first) ↦ h.dropped_stops i (is_dropped-dropped (s.phase i) gone)
    | inr none_dropped ↦
        let e =
          total_of-zero held s.phase n
            (λ i inside. none_held (s.phase i) (idle i inside) (none_dropped i inside)) in
        let own = h.staff in absurd (omega arith)
  ]

  closing :
      (s : Process)
      → s.fed ≡ false
      → work collected n (record s { fed = true }) < work collected n s
  closing s going = ground (arith, going)

  -- With no slot under way, the feeder can go on.
  feeder-GoesOn :
      (s : Process)
      → Manned collected n workers s
      → 0 < workers
      → s.fed ≡ false
      → ((i : ℕ) → i < n → under_way (s.phase i) ≡ false)
      → GoesOn s
  feeder-GoesOn s h some_workers going idle = elim (search is_waiting s.phase n) [
    | inl (i, inside, waits, first) ↦
        by_free s.free refl i (is_waiting-waiting (s.phase i) waits) first
    | inr none_waits ↦ (
      _,
      close_work (
          inl (λ i.
            not_waiting (s.phase i) (everywhere is_waiting refl n s.phase h.range none_waits i))),
      closing s going,
    )
  ]
    where
      by_free :
          (k : ℕ)
          → s.free ≡ k
          → (i : ℕ) → s.phase i ≡ waiting
          → ((j : ℕ) → j < i → is_waiting (s.phase j) ≡ false)
          → GoesOn s
      by_free zero none_free i here first =
          (_, close_work (inr (all_dropped s h some_workers none_free idle)), closing s going)
      by_free (suc k) some_free i here first = (
        _,
        feed i k going here (λ j less. not_waiting (s.phase j) (first j less)) some_free,
        less_work collected n workers i reading waiting s h here (λ e. cc) (omega arith),
      )

-- For a call of `process` with a worker, on any list of slots: in every state that the feeder, the
-- workers and the writer reach, they have ended, or some step is possible that leaves less to do; and
-- every step that is possible leaves less to do, or leaves as much and every slot in its phase.
pub process_ends :
    (collected : ℕ → List Landing) (workers : ℕ) {pending : List ℕ} {db : EpochDb} {s : Process}
    → 0 < workers
    → ProcessReach collected workers pending db s
    → (ProcessEnded s ⊎ GoesOn collected (above pending) workers s)
      × ((s' : Process) → ProcessStep collected s s' → Moves collected (above pending) s s')
process_ends collected workers {pending} {db} {s} some_workers q =
    let n = above pending in
    let h = ProcessReach-Manned collected workers pending db q in
    (
      elim (search under_way s.phase n) [
        | inl (i, inside, busy, first) ↦
            inr (slot-GoesOn collected n workers i (s.phase i) s h refl busy)
        | inr idle ↦ elim (Bool-cases s.fed) [
          | inl shut ↦
              inl (record {
                no_work = shut;
                quiet = everywhere under_way refl n s.phase h.range idle;
              })
          | inr going ↦ inr (feeder-GoesOn collected n workers s h some_workers going idle)
        ]
      ],
      λ s' step. Step-Moves collected n workers step h,
    )
