-- ===== src/Store/SigSet.antt =====
-- The landing table as the set of its signatures: what is left when the order of the rows and the
-- other columns are forgotten.
use mathlib.Core.Quot
use mathlib.Core.Quot.{Quot, Quot-set}
use epochfill.Common.{
  ℕ, suc, ◌≡◌, ◌∙◌, refl, ap, sym, Bool, Bool-cases, inl, inr, ◌||◌, List, [], ◌∷◌, ◌++◌, length,
  arith, if◌then◌else◌,
}
use epochfill.Go.Text.{GoString}
use epochfill.Landing.{Landing}
use epochfill.Store.{EpochDb, write_slot}
use epochfill.Store.Seed.{any_fault}
use epochfill.Store.Table.{insert_landing}
use epochfill.Store.Write.{insert_landings, write_slot_lem}
use epochfill.Store.Resume.{has_sig, has_sig-append, has_sig-insert_landing}

-- Two tables hold rows of the same signatures.
abbrev pub SameSigs : List Landing → List Landing → Type 0
SameSigs rows rows' = (s : GoString) → has_sig s rows ≡ has_sig s rows'

abbrev pub SigSet : Type 0
SigSet = Quot SameSigs

abbrev pub sigs_of : List Landing → SigSet
sigs_of rows = Quot.mk rows

-- The signatures of the rows, beside those that are there.
unfoldable pub union : List Landing → SigSet → SigSet
union ls =
    Quot.lift Quot-set (λ rows. Quot.mk (ls ++ rows))
      (λ rows rows' h. Quot.sound (λ s.
        has_sig-append s ls rows
        ∙ (ap (λ b. has_sig s ls || b) (h s) ∙ sym (has_sig-append s ls rows'))))

has_sig-insert_landings_or :
    (s : GoString) (ls rows : List Landing)
    → has_sig s (insert_landings ls rows) ≡ (has_sig s ls || has_sig s rows)
has_sig-insert_landings_or s [] rows = refl
has_sig-insert_landings_or s (l ∷ ls) rows =
    has_sig-insert_landings_or s ls (insert_landing l rows)
    ∙ ground (arith, has_sig-insert_landing s l rows)

-- A call of `WriteSlot` that fails adds no signature, and one that succeeds adds those of its rows.
pub write_slot-has_sig :
    (faults : ℕ → Bool) (db : EpochDb) (slot : ℕ) (ls : List Landing) (s : GoString)
    → has_sig s (write_slot faults db slot ls).1.landings ≡ (
        if any_fault faults 0 (suc (suc (suc (length ls))))
        then has_sig s db.landings
        else has_sig s ls || has_sig s db.landings)
write_slot-has_sig faults db slot ls s =
    elim (Bool-cases (any_fault faults 0 (suc (suc (suc (length ls)))))) [
      | inl fails ↦ rw (write_slot_lem faults db slot ls, fails)
      | inr fine ↦
          rw (write_slot_lem faults db slot ls, fine) (has_sig-insert_landings_or s ls db.landings)
    ]
