-- ===== src/Gsfa/Unpack/Stops.antt =====
-- What the loop of the copy of Gsfa/Unpack, as in backfill/gsfa.go, has stored when it ends.
use mathlib.Core.List.{append-nil, append_assoc}
use mathlib.Core.Path.{subst}
use epochfill.Common.{
  ℕ, zero, suc, ◌+◌, ◌≡◌, ◌∙◌, refl, ap, sym, Bool, true, false, Option, none, some, List, [], ◌∷◌,
  ◌++◌, length, take, text_equality, if◌then◌else◌, arith,
}
use epochfill.Go.Word.{add64}
use epochfill.Parts.{WriteEnd, whole, not_opened, cut}
use epochfill.Gsfa.Unpack.{Stream, gives, last, Copy, Rounds, timed_read, write_piece, copy_loop}

-- All that the reader yields.
abbrev pub body_of : Stream → List ℕ
body_of (gives p r) = p ++ body_of r
body_of (last p ended) = p

-- How many bytes the file has stored when the first fault comes; `none` if there is none.
abbrev pub piece_stop : Option ℕ → List ℕ → Option ℕ
piece_stop fault [] = none
piece_stop none (c ∷ p) = none
piece_stop (some k) (c ∷ p) = some (length (take k (c ∷ p)))

abbrev pub later_stop : Option ℕ → ℕ → Option ℕ → Option ℕ
later_stop (some k) n rest = some k
later_stop none n none = none
later_stop none n (some k) = some (n + k)

abbrev pub first_stop : (ℕ → Option ℕ) → ℕ → Stream → Option ℕ
first_stop fault i (gives p r) =
    later_stop (piece_stop (fault i) p) (length p) (first_stop fault (suc i) r)
first_stop fault i (last p ended) =
    later_stop (piece_stop (fault i) p) (length p) (if ended then none else some 0)

abbrev pub copy_end : Bool → (ℕ → Option ℕ) → Stream → WriteEnd
copy_end false fault stream = not_opened
copy_end true fault stream = elim (first_stop fault 0 stream) [ none ↦ whole | some k ↦ cut k ]

abbrev pub stored : Option ℕ → List ℕ → List ℕ
stored none l = l
stored (some k) l = take k l

abbrev pub unstopped : Option ℕ → Bool
unstopped none = true
unstopped (some k) = false

take-append-add : (k : ℕ) (p l : List ℕ) → take (length p + k) (p ++ l) ≡ p ++ take k l
take-append-add k [] l = ap (λ n. take n l) (omega arith)
take-append-add k (c ∷ p) l =
    ap (λ n. take n (c ∷ (p ++ l))) shift ∙ ap (λ (t : List ℕ). c ∷ t) (take-append-add k p l)
  where
    shift : suc (length p) + k ≡ suc (length p + k)
    shift = omega arith

take-append-short : (k : ℕ) (p l : List ℕ) → take (length (take k p)) (p ++ l) ≡ take k p
take-append-short zero p l = refl
take-append-short (suc k) [] l = refl
take-append-short (suc k) (c ∷ p) l = ap (λ (t : List ℕ). c ∷ t) (take-append-short k p l)

-- The state after a write that stores `q`.
abbrev pub pushed : Bool → Bool → ℕ → List ℕ → Copy → Copy
pushed false due time q s = record s {
  content = s.content ++ q;
  write_ns = add64 s.write_ns time;
  timed = add64 s.timed (length q);
  total = add64 s.total (length q);
}
pushed true due time q s = record s {
  content = s.content ++ q;
  written = add64 s.written (length q);
  write_ns = add64 s.write_ns time;
  timed = add64 s.timed (length q);
  total = add64 s.total (length q);
  calls = s.calls ++ ((add64 s.written (length q), due) ∷ []);
}

-- What `write_piece` stores of a piece.
abbrev pub kept : Option ℕ → List ℕ → List ℕ
kept none p = p
kept (some k) p = take k p

pub write_piece-pushed :
    (with_bar : Bool) (w : Rounds) (i c : ℕ) (p : List ℕ) (s : Copy) (fault : Option ℕ)
    → w.fault i ≡ fault
    → write_piece with_bar w i (c ∷ p) s
      ≡ (unstopped fault, pushed with_bar (w.due i) (w.write_time i) (kept fault (c ∷ p)) s)
unfolding write_piece
write_piece-pushed false w i c p s none e = rw e refl
write_piece-pushed false w i c p s (some k) e = rw e refl
write_piece-pushed true w i c p s none e = rw e refl
write_piece-pushed true w i c p s (some k) e = rw e refl

stored-kept : (k : ℕ) (p : List ℕ) → take (length (take k p)) p ≡ take k p
stored-kept zero p = refl
stored-kept (suc k) [] = refl
stored-kept (suc k) (c ∷ p) = ap (λ (t : List ℕ). c ∷ t) (stored-kept k p)

pub pushed_content :
    (with_bar due : Bool) (time : ℕ) (q : List ℕ) (s : Copy)
    → (pushed with_bar due time q s).content ≡ s.content ++ q
pushed_content true due time q s = refl
pushed_content false due time q s = refl

-- A fault after `stop` bytes of what is written, and what has arrived by then.
unfoldable pub Arrived : Bool × Copy → Copy → Option ℕ → List ℕ → Type 0
Arrived after s stop body =
    (after.0 ≡ unstopped stop) × (after.1.content ≡ s.content ++ stored stop body)

-- The fault of a round comes within its piece.
Within : Option ℕ → List ℕ → Type 0
Within none p = Unit
Within (some k) p = (l : List ℕ) → take k (p ++ l) ≡ take k p

piece_stop-Within : (fault : Option ℕ) (p : List ℕ) → Within (piece_stop fault p) p
unfolding Within
piece_stop-Within none [] = tt
piece_stop-Within (some k) [] = tt
piece_stop-Within none (c ∷ p) = tt
piece_stop-Within (some k) (c ∷ p) =
    λ l. take-append-short k (c ∷ p) l ∙ sym (stored-kept k (c ∷ p))

later_stop-Arrived :
    (p body : List ℕ) (s now : Copy) (ok : Bool) (after : Bool × Copy) (stop rest : Option ℕ)
    → Arrived (ok, now) s stop p
    → Within stop p
    → Arrived after now rest body
    → Arrived (if ok then after else (false, now)) s (later_stop stop (length p) rest) (p ++ body)
unfolding Arrived Within
later_stop-Arrived p body s now ok after none none (went, content) within (ends, all) =
    rw went (ends, all ∙ (ap (λ l. l ++ body) content ∙ append_assoc s.content p body))
later_stop-Arrived p body s now ok after none (some k) (went, content) within (ends, all) =
    rw went (
      ends,
      all
          ∙ (ap (λ l. l ++ take k body) content
              ∙ (append_assoc s.content p (take k body)
                  ∙ ap (λ l. s.content ++ l) (sym (take-append-add k p body)))),
    )
later_stop-Arrived p body s now ok after (some k) rest (went, content) within arrived =
    rw went (refl, content ∙ ap (λ l. s.content ++ l) (sym (within body)))

module _ (with_bar : Bool) (w : Rounds) where
  write_piece-Arrived :
      (i : ℕ) (p : List ℕ) (s : Copy) (fault : Option ℕ)
      → w.fault i ≡ fault
      → Arrived (write_piece with_bar w i p s) s (piece_stop fault p) p
  unfolding Arrived
  write_piece-Arrived i [] s none e = unfold write_piece in (refl, sym (append-nil s.content))
  write_piece-Arrived i [] s (some k) e = unfold write_piece in (refl, sym (append-nil s.content))
  write_piece-Arrived i (c ∷ p) s none e =
      rw (write_piece-pushed with_bar w i c p s none e)
        (refl, pushed_content with_bar (w.due i) (w.write_time i) (c ∷ p) s)
  write_piece-Arrived i (c ∷ p) s (some k) e =
      rw (write_piece-pushed with_bar w i c p s (some k) e) (
        refl,
        pushed_content with_bar (w.due i) (w.write_time i) (take k (c ∷ p)) s
            ∙ ap (λ q. s.content ++ q) (sym (stored-kept k (c ∷ p))),
      )

  ended_Arrived :
      (ended : Bool) (now : Copy) → Arrived (ended, now) now (if ended then none else some 0) []
  unfolding Arrived
  ended_Arrived true now = (refl, sym (append-nil now.content))
  ended_Arrived false now = (refl, sym (append-nil now.content))

  pub copy_loop-Arrived :
      (i : ℕ) (stream : Stream) (s : Copy)
      → Arrived (copy_loop with_bar w i stream s) s (first_stop w.fault i stream) (body_of stream)
  unfolding copy_loop Arrived
  copy_loop-Arrived i (gives p r) s =
      let done = write_piece with_bar w i p (timed_read (w.read_time i) s) in
      later_stop-Arrived p (body_of r) s done.1 done.0 (copy_loop with_bar w (suc i) r done.1)
        (piece_stop (w.fault i) p) (first_stop w.fault (suc i) r)
        (write_piece-Arrived i p (timed_read (w.read_time i) s) (w.fault i) refl)
        (piece_stop-Within (w.fault i) p) (copy_loop-Arrived (suc i) r done.1)
  copy_loop-Arrived i (last p ended) s =
      let done = write_piece with_bar w i p (timed_read (w.read_time i) s) in
      subst
        (λ l.
          Arrived (if done.0 then (ended, done.1) else (false, done.1)) s
            (later_stop (piece_stop (w.fault i) p) (length p) (if ended then none else some 0)) l)
        (append-nil p)
        (later_stop-Arrived p [] s done.1 done.0 (ended, done.1) (piece_stop (w.fault i) p)
          (if ended then none else some 0)
          (write_piece-Arrived i p (timed_read (w.read_time i) s) (w.fault i) refl)
          (piece_stop-Within (w.fault i) p) (ended_Arrived ended done.1))
