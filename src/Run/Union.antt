-- ===== src/Run/Union.antt =====
-- What `process` of backfill/run.go leaves in the landing table, as a set of signatures.
use mathlib.Core.Quot
use epochfill.Common.{
  ℕ, ◌≡◌, ◌∙◌, refl, sym, inl, inr, Bool, Bool-cases, ◌||◌, List, [], ◌∷◌, ◌++◌, nat_equality,
  if◌then◌else◌, arith,
}
use epochfill.Go.Text.{GoString}
use epochfill.Landing.{Landing}
use epochfill.Store.{EpochDb}
use epochfill.Store.Resume.{has_sig, has_sig-append}
use epochfill.Store.SigSet.{SigSet, sigs_of, union}
use epochfill.Run.Process.{Process, ProcessReach}
use epochfill.Run.Exact.{is_written, any_row, ProcessReach-Exact}

-- The signatures of the slots that pass the test, beside those that are there.
abbrev pub union_all : (ℕ → List Landing) → (ℕ → Bool) → List ℕ → SigSet → SigSet
union_all collected p [] q = q
union_all collected p (slot ∷ r) q =
    let rest = union_all collected p r q in if p slot then union (collected slot) rest else rest

module _ (collected : ℕ → List Landing) where
  abbrev all_rows : (ℕ → Bool) → List ℕ → List Landing → List Landing
  all_rows p [] rows = rows
  all_rows p (slot ∷ r) rows =
      let rest = all_rows p r rows in if p slot then collected slot ++ rest else rest

  union_all-sigs_of :
      (p : ℕ → Bool) (slots : List ℕ) (rows : List Landing)
      → union_all collected p slots (sigs_of rows) ≡ sigs_of (all_rows p slots rows)
  unfolding union
  union_all-sigs_of p [] rows = refl
  union_all-sigs_of p (slot ∷ r) rows = elim (Bool-cases (p slot)) [
    | inl here ↦ rw (here, union_all-sigs_of p r rows)
    | inr missing ↦ rw (missing, union_all-sigs_of p r rows)
  ]

  has_sig-all_rows :
      (s : GoString) (p : ℕ → Bool) (slots : List ℕ) (rows : List Landing)
      → has_sig s (all_rows p slots rows) ≡ (has_sig s rows || any_row collected s p slots)
  has_sig-all_rows s p [] rows = ground arith
  has_sig-all_rows s p (slot ∷ r) rows =
      ground
        (arith, has_sig-append s (collected slot) (all_rows p r rows), has_sig-all_rows s p r rows)

  -- In every state that a call of `process` reaches, failures and cancellations included, the table
  -- has, as a set of signatures, what was in it before the call and the rows collected from the
  -- slots that are written, and nothing else.
  pub process_exact :
      {workers : ℕ} {pending : List ℕ} {db : EpochDb} {t : Process}
      → ProcessReach collected workers pending db t
      → sigs_of t.db.landings
        ≡ union_all collected (λ j. is_written (t.phase j)) pending (sigs_of db.landings)
  process_exact {workers} {pending} {db} {t} q =
      let p : ℕ → Bool = λ j. is_written (t.phase j) in
      Quot.sound (λ s.
        (ProcessReach-Exact collected pending db q).rows s
        ∙ sym (has_sig-all_rows s p pending db.landings))
      ∙ sym (union_all-sigs_of p pending db.landings)
