-- ===== src/Store/Table.antt =====
-- The tables `landing`, `backfill_slot` and `backfill_meta`, and one function for each statement.
use epochfill.Common.{
  ℕ, suc, ◌+◌, List, [], ◌∷◌, ◌++◌, text_eq, any_of, nat_eq, if◌then◌else◌, text_equality,
  nat_equality,
}
use epochfill.Go.Map.{Map}
use epochfill.Go.Text.{GoString}
use epochfill.Go.Word.{lt_i64}
use epochfill.Landing.{Landing}

-- `backfill_slot` maps a slot, as the pattern of an `int64`, to `done`.
pub record EpochDb : Type 0 where
  pub landings : List Landing
  pub slots : Map ℕ ℕ
  pub meta : Map GoString GoString

-- `INSERT INTO landing ... ON CONFLICT(sig) DO NOTHING`.
unfoldable pub insert_landing : Landing → List Landing → List Landing
insert_landing l rows = if any_of (λ x. text_eq x.sig l.sig) rows then rows else rows ++ (l ∷ [])

-- One row `(slot, 0)` of `INSERT INTO backfill_slot ... ON CONFLICT(slot) DO NOTHING`.
unfoldable pub insert_slot : ℕ → Map ℕ ℕ → Map ℕ ℕ
insert_slot slot [] = (slot, 0) ∷ []
insert_slot slot ((k, d) ∷ r) = if nat_eq k slot then (k, d) ∷ r else (k, d) ∷ insert_slot slot r

-- `UPDATE backfill_slot SET done = 1 WHERE slot = ?`.
unfoldable pub update_done : ℕ → Map ℕ ℕ → Map ℕ ℕ
update_done slot [] = []
update_done slot ((k, d) ∷ r) = (k, if nat_eq k slot then 1 else d) ∷ update_done slot r

-- `SELECT slot FROM backfill_slot WHERE done = 0 ORDER BY slot`; the order is that of `int64`.
abbrev pub undone : Map ℕ ℕ → List ℕ
undone [] = []
undone ((k, d) ∷ r) = if nat_eq d 0 then k ∷ undone r else undone r

unfoldable pub order_slot : ℕ → List ℕ → List ℕ
order_slot s [] = s ∷ []
order_slot s (t ∷ r) = if lt_i64 t s then t ∷ order_slot s r else s ∷ (t ∷ r)

unfoldable pub order_slots : List ℕ → List ℕ
order_slots [] = []
order_slots (s ∷ r) = order_slot s (order_slots r)

-- `SELECT COUNT(*), COALESCE(SUM(done),0) FROM backfill_slot`.
abbrev pub count_slots : Map ℕ ℕ → ℕ
count_slots [] = 0
count_slots (_ ∷ r) = suc (count_slots r)

abbrev pub sum_done : Map ℕ ℕ → ℕ
sum_done [] = 0
sum_done ((_, d) ∷ r) = d + sum_done r
