-- ===== src/Examples/Download.antt =====
-- A download of two chunks that is interrupted after the first.
use epochfill.Common.{◌≡◌, refl, true, false, none, some, [], ◌∷◌, elem, nat_equality, arith}
use epochfill.Go.Word.{lt_i64}
use epochfill.Parts.{
  PartsFile, Disk, opened, new_parts, open_parts, pending, pending_from, mark_done, whole, flush,
}
use epochfill.Parts.Steps.{
  reading, put, running, stopped, start, store, mark, flush_last, crash, Reach, begin, next,
}
use epochfill.Parts.Crash.{open_parts-durable}

abbrev first_written : Disk
first_written = record {
  written = put 0 true (λ i. false);
  durable = put 0 false (λ i. false);
  sidecar = none;
}

abbrev first_marked : PartsFile
first_marked = record { state = 1 ∷ 0 ∷ []; dirty = 1 }

abbrev after_flush : Disk
after_flush = record {
  written = put 0 true (λ i. false);
  durable = put 0 true (λ i. false);
  sidecar = some (1 ∷ 0 ∷ []);
}

opened_new : open_parts false (reading none) 2 ≡ opened (new_parts 2) none
unfolding open_parts
opened_new = refl

marking : Reach 2 (running first_marked first_written)
unfolding mark_done lt_i64
marking =
    next
      (next (next begin (start {side = none} false opened_new))
        (store {p = new_parts 2} 0 true refl))
      (mark {p = new_parts 2} 0 refl)

crashed : Reach 2 (stopped after_flush)
unfolding flush
crashed =
    next (next marking (flush_last true whole))
      (crash (put 0 true (λ i. false)) (λ i on. on) (λ i on. on))

reopened :
    open_parts false (reading (some (1 ∷ 0 ∷ []))) 2
    ≡ opened (record { state = 1 ∷ 0 ∷ []; dirty = 0 }) (some (1 ∷ 0 ∷ []))
unfolding open_parts
reopened = refl

first_kept : elem 0 (pending (record { state = 1 ∷ 0 ∷ []; dirty = 0 })) ≡ false
unfolding pending_from
first_kept = refl

open_parts-durable_example : after_flush.durable 0 ≡ true
open_parts-durable_example =
    open_parts-durable 2 {d = after_flush} false 0 crashed reopened (omega arith) first_kept
