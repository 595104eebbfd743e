-- ===== src/Run/Refines.antt =====
-- A call of `process` of backfill/run.go as one operation on the set of signatures.
use epochfill.Common.{
  ℕ, ◌≡◌, ◌≢◌, ◌∙◌, refl, ap, Bool, true, false, Option, some, List, [], ◌∷◌, elem, nat_equality,
  arith,
}
use epochfill.Go.Map.{lookup}
use epochfill.Landing.{Landing}
use epochfill.Store.{EpochDb, pending_slots}
use epochfill.Store.SigSet.{SigSet, sigs_of, union}
use epochfill.Run.{RunReach}
use epochfill.Run.Process.{
  SlotPhase, outside, waiting, reading, ready, sent, written, failed, dropped, Process,
  ProcessReach, under_way, ProcessEnded,
}
use epochfill.Run.Sane.{Fits, ProcessReach-Sane}
use epochfill.Run.Exact.{is_written, ProcessReach-Exact}
use epochfill.Run.Union.{union_all, process_exact}

Fits-written :
    (ph : SlotPhase) (row : Option ℕ)
    → Fits ph row 0 false
    → under_way ph ≡ false
    → ph ≢ waiting
    → ph ≢ outside
    → is_written ph ≡ true
Fits-written outside row h idle moving own = absurd (own refl)
Fits-written waiting row h idle moving own = absurd (moving refl)
Fits-written reading row h idle moving own = cc
Fits-written ready row h idle moving own = cc
Fits-written sent row h idle moving own = cc
Fits-written written row h idle moving own = refl
Fits-written failed row h idle moving own = absurd (h refl)
Fits-written dropped row h idle moving own = cc

module _ (wanted : List ℕ) (collected : ℕ → List Landing) where
  union_all-true :
      (p : ℕ → Bool) (slots : List ℕ) (q : SigSet)
      → ((j : ℕ) → elem j slots ≡ true → p j ≡ true)
      → union_all collected p slots q ≡ union_all collected (λ _. true) slots q
  union_all-true p [] q h = refl
  union_all-true p (slot ∷ r) q h =
      rw (h slot (ground arith))
        (ap (union (collected slot)) (union_all-true p r q (λ j here. h j (ground (arith, here)))))

  -- For any runs so far and a call of `process` on the slots that `PendingSlots` returned, in any
  -- interleaving: if it has ended, the context was not cancelled and no failure was counted, then
  -- the table is, as a set of signatures, what it was before and the rows collected from all of
  -- those slots. So two such calls agree, whatever the order in which the slots were written.
  pub process_refines :
      {workers : ℕ} {pending : List ℕ} {db : EpochDb} {s : Process} (faults : ℕ → Bool)
      → RunReach wanted collected db
      → pending_slots faults db ≡ some pending
      → ProcessReach collected workers pending db s
      → ProcessEnded s
      → s.cancelled ≡ false
      → s.failures ≡ 0
      → sigs_of s.db.landings ≡ union_all collected (λ _. true) pending (sigs_of db.landings)
  process_refines {workers} {pending} {db} {s} faults r listed q ended calm none_failed =
      let h = ProcessReach-Sane wanted collected faults r listed q in
      let exact = ProcessReach-Exact collected pending db q in
      process_exact collected q
      ∙ union_all-true (λ j. is_written (s.phase j)) pending (sigs_of db.landings)
          (λ j here.
            Fits-written (s.phase j) (lookup j s.db.slots) (rw (none_failed, calm) at (h.fits j))
              (ended.quiet j) (λ waits. cc (h.left ended.no_work j waits, calm))
              (exact.listed j here))
