-- ===== src/Examples/History.antt =====
-- A wallet with three signatures, one of them in epoch 1.
use epochfill.Go.Text.{bytes_of}
use epochfill.Run.Discovery.{discover_slots, discover_slots_lem}
use epochfill.Common.{
  map, false, true, ℕ, suc, ◌+◌, ◌≡◌, refl, Option, none, some, List, [], ◌∷◌, ◌++◌, length, elem,
  nat_equality, take, drop, drop_all-append, arith,
}
use native.Mathlib.Nat.{zero-add, suc-add, add-zero}
use mathlib.Core.Path.{subst}
use epochfill.Signatures.{SigRef, discovered, seek_loop, seek_marker, last_sig, discover_signatures}
use epochfill.Store.Order.{DistinctSlots}
use epochfill.Signatures.{distinct_slots, page_failed}
use epochfill.Signatures.Distinct.{has_slot}
use epochfill.Signatures.Paging.{last_slot, of_epoch, Follows, Descends, discover_signatures_lem}

-- Signatures are the positions in the history, from 1 on.
abbrev history : List (SigRef ℕ)
history =
    record { sig = 1; slot = 900000 }
    ∷ record { sig = 2; slot = 432005 }
    ∷ record { sig = 3; slot = 5 }
    ∷ []

abbrev from_cursor : Option ℕ → List (SigRef ℕ)
from_cursor none = history
from_cursor (some n) = drop n history

abbrev page : Option ℕ → Option (List (SigRef ℕ))
page before = some (take 1000 (from_cursor before))

abbrev no_block : ℕ → Option (List ℕ)
no_block slot = none

-- A signature of the history is its position.
abbrev Numbered : ℕ → List (SigRef ℕ) → Type 0
Numbered n [] = Unit
Numbered n (s ∷ r) = (s.sig ≡ suc n) × Numbered (suc n) r

Numbered-drop :
    (n : ℕ) (front m : List (SigRef ℕ)) → Numbered n (front ++ m) → Numbered (n + length front) m
Numbered-drop n [] m h = rw add-zero h
Numbered-drop n (s ∷ front) m h = rw shift (Numbered-drop (suc n) front m h.1)
  where
    shift : n + suc (length front) ≡ suc n + length front
    shift = omega arith

last_sig-Numbered :
    (n : ℕ) (s : SigRef ℕ) (r rest : List (SigRef ℕ))
    → Numbered n ((s ∷ r) ++ rest)
    → last_sig s r ≡ n + suc (length r)
last_sig-Numbered n s [] rest h = omega (arith, h.0)
last_sig-Numbered n s (t ∷ r) rest h = omega (arith, last_sig-Numbered (suc n) t r rest h.1)

drop_read :
    (front : List (SigRef ℕ)) (s : SigRef ℕ) (r rest : List (SigRef ℕ))
    → drop (length front + suc (length r)) (front ++ ((s ∷ r) ++ rest)) ≡ rest
drop_read [] s r rest = rw zero-add (drop_all-append r rest)
drop_read (x ∷ front) s r rest = rw suc-add (drop_read front s r rest)

history-Numbered : Numbered 0 history
history-Numbered = (refl, (refl, (refl, tt)))

history-Follows : Follows 999 history page
history-Follows front s r rest split = rw (at, split, drop_read front s r rest)
  where
    at : last_sig s r ≡ length front + suc (length r)
    at = last_sig-Numbered (length front) s r rest (
        subst (λ n. Numbered n ((s ∷ r) ++ rest)) {x = 0 + length front} {y = length front}
          (omega arith)
          (Numbered-drop 0 front ((s ∷ r) ++ rest) (subst (Numbered 0) split history-Numbered)))

history-Descends : Descends history
history-Descends = ((omega arith, (omega arith, tt)), ((omega arith, tt), (tt, tt)))

nothing_marked : seek_marker no_block (last_slot 1) ≡ none
unfolding seek_marker seek_loop
nothing_marked = refl

discover_signatures_lem_example :
    discover_signatures no_block page 1 4 ≡ discovered (of_epoch 1 history)
discover_signatures_lem_example =
    discover_signatures_lem no_block page 1 4 history [] history history-Follows history-Descends
      refl tt (rw nothing_marked) (omega arith)

discover_slots_lem_example :
    (discover_slots {Sig = ℕ} false true
        (some (map (λ (s : SigRef ℕ). s.slot) history))
        []
        page_failed
      ≡ some (distinct_slots history))
    × (discover_slots true false none (bytes_of "rpc") (discovered history)
        ≡ some (distinct_slots history))
    × DistinctSlots (distinct_slots history)
    × ((j : ℕ) → elem j (distinct_slots history) ≡ has_slot j history)
discover_slots_lem_example =
    discover_slots_lem history false none b'r' (b'p' ∷ b'c' ∷ []) [] page_failed
