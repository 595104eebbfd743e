-- ===== src/Store/Resume.antt =====
-- Repeating a write of a slot, as after an interruption.
use epochfill.Common.{
  ℕ, ◌≡◌, ◌∙◌, refl, ap, Bool, true, ◌||◌, List, [], ◌∷◌, ◌++◌, any_of, text_eq, text_eq_iff, All,
  arith, nat_equality,
}
use epochfill.Go.Map.{Map}
use epochfill.Go.Text.{GoString}
use epochfill.Landing.{Landing}
use epochfill.Store.Table.{insert_landing, update_done}
use epochfill.Store.Write.{insert_landings, written, write_slot_lem}
use epochfill.Store.{EpochDb, success, write_slot}

-- A row with this signature is in the table.
abbrev pub has_sig : GoString → List Landing → Bool
has_sig s rows = any_of (λ l. text_eq l.sig s) rows

pub has_sig-append :
    (s : GoString) (rows more : List Landing)
    → has_sig s (rows ++ more) ≡ (has_sig s rows || has_sig s more)
has_sig-append s [] more = refl
has_sig-append s (l ∷ rows) more = ground (arith, has_sig-append s rows more)

pub has_sig-insert_landing :
    (s : GoString) (l : Landing) (rows : List Landing)
    → has_sig s (insert_landing l rows) ≡ (text_eq l.sig s || has_sig s rows)
unfolding insert_landing
has_sig-insert_landing s l rows =
    ground (arith, has_sig-append s rows (l ∷ []), text_eq_iff l.sig s)

-- A row that is there stays, whatever is inserted.
has_sig-insert_landings :
    (s : GoString) (ls rows : List Landing)
    → has_sig s rows ≡ true
    → has_sig s (insert_landings ls rows) ≡ true
has_sig-insert_landings s [] rows h = h
has_sig-insert_landings s (l ∷ ls) rows h =
    has_sig-insert_landings s ls (insert_landing l rows)
      (ground (arith, has_sig-insert_landing s l rows))

abbrev pub AllPresent : List Landing → List Landing → Type 0
AllPresent ls rows = All (λ l. has_sig l.sig rows ≡ true) ls

pub insert_landings-AllPresent : (ls rows : List Landing) → AllPresent ls (insert_landings ls rows)
insert_landings-AllPresent [] rows = tt
insert_landings-AllPresent (l ∷ ls) rows = (
  has_sig-insert_landings l.sig ls (insert_landing l rows)
      (ground (arith, has_sig-insert_landing l.sig l rows, text_eq_iff l.sig l.sig)),
  insert_landings-AllPresent ls (insert_landing l rows),
)

pub AllPresent-insert_landings :
    (ls more rows : List Landing) → AllPresent ls rows → AllPresent ls (insert_landings more rows)
AllPresent-insert_landings [] more rows h = tt
AllPresent-insert_landings (l ∷ ls) more rows h =
    (has_sig-insert_landings l.sig more rows h.0, AllPresent-insert_landings ls more rows h.1)

insert_landing_present :
    (l : Landing) (rows : List Landing) → has_sig l.sig rows ≡ true → insert_landing l rows ≡ rows
unfolding insert_landing
insert_landing_present l rows h = rw h

insert_landings_present :
    (ls rows : List Landing) → AllPresent ls rows → insert_landings ls rows ≡ rows
insert_landings_present [] rows h = refl
insert_landings_present (l ∷ ls) rows h =
    ap (insert_landings ls) (insert_landing_present l rows h.0)
    ∙ insert_landings_present ls rows h.1

update_done_twice :
    (slot : ℕ) (m : Map ℕ ℕ) → update_done slot (update_done slot m) ≡ update_done slot m
unfolding update_done
update_done_twice slot [] = refl
update_done_twice slot ((k, d) ∷ m) = ground (arith, update_done_twice slot m)

written_twice :
    (slot : ℕ) (ls : List Landing) (db : EpochDb)
    → written slot ls (written slot ls db) ≡ written slot ls db
written_twice slot ls db = rw (
  update_done_twice slot db.slots,
  insert_landings_present ls (insert_landings ls db.landings)
      (insert_landings-AllPresent ls db.landings),
)

-- A slot that was written with success and is written again, as after an interruption: whether or
-- not the second call fails, it leaves the database as it is.
pub write_slot_again :
    (faults faults' : ℕ → Bool) (db db' : EpochDb) (slot : ℕ) (ls : List Landing)
    → write_slot faults db slot ls ≡ (success, db')
    → (write_slot faults' db' slot ls).1 ≡ db'
write_slot_again faults faults' db db' slot ls h =
    rw (write_slot_lem faults' db' slot ls)
      (ground (arith, write_slot_lem faults db slot ls, written_twice slot ls db, h))
