-- ===== src/Run/Finished.antt =====
-- A run whose slots were all read and written.
use epochfill.Common.{
  ℕ, ◌≡◌, ◌≢◌, ◌∙◌, refl, ap, Bool, true, false, Option, some, List, [], ◌∷◌, elem, nat_equality,
  arith, text_equality,
}
use epochfill.Go.Map.{lookup}
use epochfill.Landing.{Landing}
use epochfill.Store.{EpochDb, pending_slots}
use epochfill.Store.Table.{undone, order_slots}
use epochfill.Store.Slots.{is_undone, elem-pending}
use epochfill.Store.Resume.{AllPresent}
use epochfill.Store.History.{Reach-Sound}
use epochfill.Run.{meta_discovered, yes_text, RunReach}
use epochfill.Run.Complete.{RunReach-Good, run_complete}
use epochfill.Run.Process.{
  SlotPhase, outside, waiting, reading, ready, sent, written, failed, dropped, Process, feed,
  close_work, cancel, read_fails, read_ends, deliver, give_way, write_ends, write_fails,
  ProcessReach, started, moved, under_way, ProcessEnded,
}
use epochfill.Run.Sane.{Fits, write_slot_meta, Sane, ProcessReach-Sane}

module _ (wanted : List ℕ) (collected : ℕ → List Landing) where
  meta_kept :
      {workers : ℕ} {pending : List ℕ} {db : EpochDb} {s : Process}
      → ProcessReach collected workers pending db s
      → s.db.meta ≡ db.meta
  meta_kept started = refl
  meta_kept (moved {s = s} q (write_ends faults i here ok)) =
      write_slot_meta faults s.db i (collected i) ∙ meta_kept q
  meta_kept (moved {s = s} q (write_fails faults i here bad)) =
      write_slot_meta faults s.db i (collected i) ∙ meta_kept q
  meta_kept (moved q (feed i k work here first some_free)) = meta_kept q
  meta_kept (moved q (close_work why)) = meta_kept q
  meta_kept (moved q cancel) = meta_kept q
  meta_kept (moved q (read_fails i here)) = meta_kept q
  meta_kept (moved q (read_ends i here)) = meta_kept q
  meta_kept (moved q (deliver i here)) = meta_kept q
  meta_kept (moved q (give_way i here stop)) = meta_kept q

  Fits-done :
      (ph : SlotPhase) (row : Option ℕ)
      → Fits ph row 0 false
      → under_way ph ≡ false
      → ph ≢ waiting
      → is_undone row ≡ false
  Fits-done outside row h idle other = h
  Fits-done waiting row h idle other = absurd (other refl)
  Fits-done reading row h idle other = cc
  Fits-done ready row h idle other = cc
  Fits-done sent row h idle other = cc
  Fits-done written row h idle other = h
  Fits-done failed row h idle other = absurd (h refl)
  Fits-done dropped row h idle other = cc

  all_absent : (l : List ℕ) → ((j : ℕ) → elem j l ≡ false) → l ≡ []
  all_absent [] h = refl
  all_absent (x ∷ l) h = absurd (ground (arith, h x))

  nothing_pending :
      (faults : ℕ → Bool) (s : Process)
      → Sane wanted collected s
      → ProcessEnded s
      → s.cancelled ≡ false
      → s.failures ≡ 0
      → faults 0 ≡ false
      → pending_slots faults s.db ≡ some []
  unfolding pending_slots
  nothing_pending faults s h ended calm none_failed fine = rw fine (
      ap some (
        all_absent (order_slots (undone s.db.slots)) (λ j.
          elem-pending j s.db.slots
            (Reach-Sound collected (RunReach-Good wanted collected h.reach).reached).table
          ∙ settled j)))
    where
      settled : (j : ℕ) → is_undone (lookup j s.db.slots) ≡ false
      settled j =
          Fits-done (s.phase j) (lookup j s.db.slots) (rw (none_failed, calm) at (h.fits j))
            (ended.quiet j) (λ waits. cc (h.left ended.no_work j waits, calm))

  -- For any runs so far, with the discovery marked as complete, and a call of `process` on the slots
  -- that `PendingSlots` returned, with the workers and the writer interleaved in any order and any
  -- read or write failing: if it has ended, the context was not cancelled and no failure was
  -- counted, then no slot is pending, and the table has a row with the signature of every row
  -- collected from every discovered slot.
  pub process_complete :
      {pending : List ℕ} {db : EpochDb} {s : Process} (workers : ℕ) (faults : ℕ → Bool)
      → RunReach wanted collected db
      → lookup meta_discovered db.meta ≡ some yes_text
      → pending_slots faults db ≡ some pending
      → ProcessReach collected workers pending db s
      → ProcessEnded s
      → s.cancelled ≡ false
      → s.failures ≡ 0
      → (pending_slots (λ _. false) s.db ≡ some [])
        × ((slot : ℕ) → elem slot wanted ≡ true → AllPresent (collected slot) s.db.landings)
  process_complete {s = s} workers faults r flag listed q ended calm none_failed =
      let h = ProcessReach-Sane wanted collected faults r listed q in
      let empty = nothing_pending (λ _. false) s h ended calm none_failed refl in
      (
        empty,
        λ slot here.
            run_complete wanted collected (λ _. false) slot h.reach
              (ap (λ m. lookup meta_discovered m) (meta_kept q) ∙ flag) empty here,
      )
