-- ===== src/Signatures/Paging.antt =====
-- What the paging of `DiscoverSignatures` of backfill/sigs.go finds of a wallet's history.
use epochfill.Common.{
  ℕ, zero, suc, ◌+◌, ◌*◌, ◌%◌, ◌&&◌, leb, if◌then◌else◌, ◌≤◌, ◌<◌, ◌≡◌, ◌∙◌, refl, ap, sym, true,
  Bool-cases, inl, inr, Option, some, List, [], ◌∷◌, ◌++◌, length, take, drop, ltb, All, arith,
  take-append-drop, length-drop, length-append,
}
use mathlib.Core.List.{append_assoc, append-nil}
use epochfill.Go.Word.{u64_mod, add64, sub64}
use epochfill.Signatures.{
  SigRef, discovered, in_epoch, reached_before, last_sig, page_loop, page_loop_step, epoch_bounds,
  seek_marker, discover_signatures,
}

-- The first and the last slot of an epoch, as 64-bit words.
abbrev pub first_slot : ℕ → ℕ
first_slot epoch = epoch * 432000 % u64_mod

abbrev pub last_slot : ℕ → ℕ
last_slot epoch = (epoch * 432000 + 431999) % u64_mod

epoch_bounds_lem : (epoch : ℕ) → epoch_bounds epoch ≡ (first_slot epoch, last_slot epoch)
unfolding epoch_bounds add64 sub64
epoch_bounds_lem epoch = ap (λ last. (first_slot epoch, last)) (omega arith)

module _ {Sig : Type 0} where
  -- The references of a history whose slot lies in the epoch.
  abbrev pub of_epoch : ℕ → List (SigRef Sig) → List (SigRef Sig)
  of_epoch epoch [] = []
  of_epoch epoch (s ∷ r) =
      if leb (first_slot epoch) s.slot && leb s.slot (last_slot epoch)
      then s ∷ of_epoch epoch r
      else of_epoch epoch r

  in_epoch-of_epoch :
      (epoch : ℕ) (l : List (SigRef Sig))
      → in_epoch (first_slot epoch) (last_slot epoch) l ≡ of_epoch epoch l
  unfolding in_epoch
  in_epoch-of_epoch epoch [] = refl
  in_epoch-of_epoch epoch (s ∷ r) = ground (arith, in_epoch-of_epoch epoch r)

  -- The history of a wallet comes newest first.
  abbrev pub Descends : List (SigRef Sig) → Type 0
  Descends [] = Unit
  Descends (s ∷ r) = All (λ t. t.slot ≤ s.slot) r × Descends r

  in_epoch-append :
      (first last : ℕ) (l m : List (SigRef Sig))
      → in_epoch first last (l ++ m) ≡ in_epoch first last l ++ in_epoch first last m
  unfolding in_epoch
  in_epoch-append first last [] m = refl
  in_epoch-append first last (s ∷ r) m = ground (arith, in_epoch-append first last r m)

  -- Nothing of the epoch comes after a slot before it.
  in_epoch_below :
      (first last bound : ℕ) (l : List (SigRef Sig))
      → bound < first
      → All (λ t. t.slot ≤ bound) l
      → in_epoch first last l ≡ []
  unfolding in_epoch
  in_epoch_below first last bound [] low h = refl
  in_epoch_below first last bound (s ∷ r) low h =
      ground (arith, in_epoch_below first last bound r low h.1, h.0)

  All-drop :
      (bound : ℕ) (l m : List (SigRef Sig))
      → All (λ t. t.slot ≤ bound) (l ++ m)
      → All (λ t. t.slot ≤ bound) m
  All-drop bound [] m h = h
  All-drop bound (s ∷ r) m h = All-drop bound r m h.1

  Descends-drop : (l m : List (SigRef Sig)) → Descends (l ++ m) → Descends m
  Descends-drop [] m h = h
  Descends-drop (s ∷ r) m h = Descends-drop r m h.1

  in_epoch_after :
      (first last : ℕ) (l m : List (SigRef Sig))
      → Descends (l ++ m)
      → reached_before first last l ≡ true
      → in_epoch first last m ≡ []
  unfolding reached_before
  in_epoch_after first last [] m h met = cc
  in_epoch_after first last (s ∷ r) m h met = elim (Bool-cases (ltb s.slot first)) [
    | inl below ↦ in_epoch_below first last s.slot m (ground arith) (All-drop s.slot r m h.0)
    | inr inside ↦ in_epoch_after first last r m h.1 (ground arith)
  ]

  -- What the RPC documents of a page after the last signature of another: at most `suc k` references,
  -- those that follow in the history.
  abbrev pub Follows : ℕ → List (SigRef Sig) → (Option Sig → Option (List (SigRef Sig))) → Type 0
  Follows k history page =
      (front : List (SigRef Sig)) (s : SigRef Sig) (r rest : List (SigRef Sig))
      → history ≡ front ++ ((s ∷ r) ++ rest)
      → page (some (last_sig s r)) ≡ some (take (suc k) rest)

  module _ (page : Option Sig → Option (List (SigRef Sig))) (first last k : ℕ)
      (history : List (SigRef Sig)) (follows : Follows k history page)
      (order : Descends history) where
    page_loop_lem :
        (fuel : ℕ) (before : Option Sig) (out front rest : List (SigRef Sig))
        → history ≡ front ++ rest
        → page before ≡ some (take (suc k) rest)
        → length rest < fuel
        → page_loop page first last fuel before out ≡ discovered (out ++ in_epoch first last rest)
    page_loop_lem zero before out front rest split read enough = absurd (omega arith)
    page_loop_lem (suc fuel) before out front [] split read enough =
        rw (page_loop_step page first last fuel before out, read) (unfold in_epoch in rw append-nil)
    page_loop_lem (suc fuel) before out front (s ∷ r) split read enough =
        rw (page_loop_step page first last fuel before out, read)
          (elim (Bool-cases (reached_before first last (s ∷ p))) [
            | inl met ↦
                rw met (ap (λ (t : List (SigRef Sig)). discovered (out ++ t)) (all_here met))
            | inr onward ↦ rw onward (
                page_loop_lem fuel (some (last_sig s p)) (out ++ in_epoch first last (s ∷ p))
                  (front ++ (s ∷ p)) q further (follows front s p q joined)
                  (rw length-drop (omega arith))
                ∙ ap discovered (
                    append_assoc out (in_epoch first last (s ∷ p)) (in_epoch first last q)
                    ∙ ap (λ (t : List (SigRef Sig)). out ++ t) (sym parts)))
          ])
      where
        p : List (SigRef Sig)
        p = take k r

        q : List (SigRef Sig)
        q = drop k r

        whole : (s ∷ p) ++ q ≡ s ∷ r
        whole = ap (λ (t : List (SigRef Sig)). s ∷ t) (take-append-drop k r)

        joined : history ≡ front ++ ((s ∷ p) ++ q)
        joined = rw whole split

        further : history ≡ (front ++ (s ∷ p)) ++ q
        further = joined ∙ sym (append_assoc front (s ∷ p) q)

        parts : in_epoch first last (s ∷ r) ≡ in_epoch first last (s ∷ p) ++ in_epoch first last q
        parts = ap (in_epoch first last) (sym whole) ∙ in_epoch-append first last (s ∷ p) q

        all_here :
            reached_before first last (s ∷ p) ≡ true
            → in_epoch first last (s ∷ p) ≡ in_epoch first last (s ∷ r)
        all_here met =
            sym (append-nil (in_epoch first last (s ∷ p)))
            ∙ ap (λ (t : List (SigRef Sig)). in_epoch first last (s ∷ p) ++ t)
                (sym (
                  in_epoch_after first last (s ∷ p) q
                    (Descends-drop front ((s ∷ p) ++ q) (rw joined at order)) met))
            ∙ sym parts

  in_epoch_above :
      (first last : ℕ) (l : List (SigRef Sig))
      → All (λ t. last < t.slot) l
      → in_epoch first last l ≡ []
  unfolding in_epoch
  in_epoch_above first last [] h = refl
  in_epoch_above first last (s ∷ r) h = ground (arith, in_epoch_above first last r h.1, h.0)

  discover_in_epoch :
      (block : ℕ → Option (List Sig)) (page : Option Sig → Option (List (SigRef Sig)))
      (epoch fuel : ℕ) (history newer rest : List (SigRef Sig))
      → Follows 999 history page
      → Descends history
      → history ≡ newer ++ rest
      → All (λ t. (epoch_bounds epoch).1 < t.slot) newer
      → page (seek_marker block (epoch_bounds epoch).1) ≡ some (take 1000 rest)
      → length history < fuel
      → discover_signatures block page epoch fuel
        ≡ discovered (in_epoch (epoch_bounds epoch).0 (epoch_bounds epoch).1 history)
  unfolding discover_signatures
  discover_in_epoch block page epoch fuel history newer rest follows order split above read enough =
      page_loop_lem page first last 999 history follows order fuel (seek_marker block last) [] newer
        rest split read few
      ∙ ap discovered (sym relevant)
    where
      first : ℕ
      first = (epoch_bounds epoch).0

      last : ℕ
      last = (epoch_bounds epoch).1

      few : length rest < fuel
      few = omega (arith, ap (length {A = SigRef Sig}) split ∙ length-append newer rest)

      relevant : in_epoch first last history ≡ in_epoch first last rest
      relevant =
          ap (in_epoch first last) split
          ∙ in_epoch-append first last newer rest
          ∙ rw (in_epoch_above first last newer above)

  -- For a node that pages through the wallet's history, newest slot first, at most 1000 references
  -- at a time, and whose page at the marker that was found (or, with none, its first page) leaves
  -- out only references newer than the epoch: one request more than the history has references is
  -- enough, and exactly the references whose slot lies between the first and the last slot of the
  -- epoch, as 64-bit words, are discovered, in the order of the history.
  pub discover_signatures_lem :
      (block : ℕ → Option (List Sig)) (page : Option Sig → Option (List (SigRef Sig)))
      (epoch fuel : ℕ) (history newer rest : List (SigRef Sig))
      → Follows 999 history page
      → Descends history
      → history ≡ newer ++ rest
      → All (λ t. last_slot epoch < t.slot) newer
      → page (seek_marker block (last_slot epoch)) ≡ some (take 1000 rest)
      → length history < fuel
      → discover_signatures block page epoch fuel ≡ discovered (of_epoch epoch history)
  discover_signatures_lem block page epoch fuel history newer rest follows order split above read
        enough =
      discover_in_epoch block page epoch fuel history newer rest follows order split
        (rw (epoch_bounds_lem epoch) above) (rw (epoch_bounds_lem epoch) read) enough
      ∙ ap discovered (rw (epoch_bounds_lem epoch) (in_epoch-of_epoch epoch history))
