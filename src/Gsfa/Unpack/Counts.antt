-- ===== src/Gsfa/Unpack/Counts.antt =====
-- The counts beside the copy of Gsfa/Unpack, those of backfill/gsfa.go and backfill/unpack.go.
use epochfill.Common.{
  ℕ, zero, suc, ◌+◌, ◌≤◌, ◌≡◌, ◌∙◌, refl, sym, inl, inr, Bool, true, false, Bool-cases, Option,
  none, some, List, [], ◌∷◌, ◌++◌, length, take, length-append, text_equality, arith,
}
use epochfill.Go.Word.{add64, add64_exact}
use epochfill.Progress.Track.{Small}
use epochfill.Progress.Printed.{Rising}
use epochfill.Gsfa.Unpack.{Stream, gives, last, Copy, Rounds, timed_read, write_piece, copy_loop}
use epochfill.Gsfa.Unpack.Stops.{body_of, pushed, kept, write_piece-pushed, pushed_content}

-- The last count that was reported.
abbrev pub top : ℕ → List (ℕ × Bool) → ℕ
top before [] = before
top before ((n, due) ∷ r) = top n r

-- The counts agree with the file, and the calls of `onWrite` rise to them.
unfoldable pub Counted : Bool → Copy → Type 0
Counted false s = Unit
Counted true s = (s.written ≡ length s.content) × Rising 0 s.calls × (top 0 s.calls ≡ s.written)

pub record Good (with_bar : Bool) (s : Copy) : Type 0 where
  pub same_total : s.total ≡ length s.content
  pub same_timed : s.timed ≡ length s.content
  pub counted : Counted with_bar s

Rising-append :
    (d n : ℕ) (due : Bool) (calls : List (ℕ × Bool))
    → Rising d calls
    → top d calls ≤ n
    → Small n
    → Rising d (calls ++ ((n, due) ∷ []))
Rising-append d n due [] h le small = (le, small, tt)
Rising-append d n due ((m, b) ∷ r) (step, fits, h) le small =
    (step, fits, Rising-append m n due r h le small)

top-append : (d n : ℕ) (due : Bool) (calls : List (ℕ × Bool)) → top d (calls ++ ((n, due) ∷ [])) ≡ n
top-append d n due [] = refl
top-append d n due ((m, b) ∷ r) = top-append m n due r

pushed-Counted :
    (with_bar due : Bool) (time : ℕ) (q : List ℕ) (s : Copy)
    → Counted with_bar s
    → Small (length s.content + length q)
    → Counted with_bar (pushed with_bar due time q s)
unfolding Counted
pushed-Counted false due time q s h small = tt
pushed-Counted true due time q s (same, rising, last_call) small =
    let exact : add64 s.written (length q) ≡ length s.content + length q =
      rw same (add64_exact (length s.content) (length q) (omega arith)) in
    (
      exact ∙ sym (length-append s.content q),
      Rising-append 0 (add64 s.written (length q)) due s.calls rising (omega arith) (omega arith),
      top-append 0 (add64 s.written (length q)) due s.calls,
    )

advance :
    (content q : List ℕ) (n : ℕ)
    → n ≡ length content
    → Small (length content + length q)
    → add64 n (length q) ≡ length (content ++ q)
advance content q n same small =
    rw (same, length-append content q) (add64_exact (length content) (length q) (omega arith))

length-take_le : (k : ℕ) (p : List ℕ) → length (take k p) ≤ length p
length-take_le zero p = omega arith
length-take_le (suc k) [] = omega arith
length-take_le (suc k) (c ∷ p) = omega (arith, length-take_le k p)

pushed-Good :
    (with_bar due : Bool) (time : ℕ) (q : List ℕ) (s : Copy)
    → Good with_bar s
    → Small (length s.content + length q)
    → Good with_bar (pushed with_bar due time q s)
unfolding Counted
pushed-Good true due time q s h small = record {
  same_total = advance s.content q s.total h.same_total small;
  same_timed = advance s.content q s.timed h.same_timed small;
  counted = pushed-Counted true due time q s h.counted small;
}
pushed-Good false due time q s h small = record {
  same_total = advance s.content q s.total h.same_total small;
  same_timed = advance s.content q s.timed h.same_timed small;
  counted = tt;
}

length-kept_le : (fault : Option ℕ) (p : List ℕ) → length (kept fault p) ≤ length p
length-kept_le none p = omega arith
length-kept_le (some k) p = length-take_le k p

timed_read-Good :
    (with_bar : Bool) (time : ℕ) (s : Copy) → Good with_bar s → Good with_bar (timed_read time s)
unfolding Counted
timed_read-Good true time s h = record {
  same_total = h.same_total;
  same_timed = h.same_timed;
  counted = h.counted;
}
timed_read-Good false time s h = record {
  same_total = h.same_total;
  same_timed = h.same_timed;
  counted = tt;
}

module _ (with_bar : Bool) (w : Rounds) where
  GoodUpTo : ℕ → Copy → Type 0
  GoodUpTo n s = Good with_bar s × (length s.content ≤ n)

  write_piece-Good :
      (i : ℕ) (p : List ℕ) (s : Copy)
      → Good with_bar s
      → Small (length s.content + length p)
      → GoodUpTo (length s.content + length p) (write_piece with_bar w i p s).1
  unfolding GoodUpTo
  write_piece-Good i [] s h small = unfold write_piece in (h, omega arith)
  write_piece-Good i (c ∷ p) s h small =
      let q = kept (w.fault i) (c ∷ p) in
      let le = length-kept_le (w.fault i) (c ∷ p) in
      rw (write_piece-pushed with_bar w i c p s (w.fault i) refl) (
        pushed-Good with_bar (w.due i) (w.write_time i) q s h (omega (arith, le)),
        rw (pushed_content with_bar (w.due i) (w.write_time i) q s)
            (omega (arith, le, length-append s.content q)),
      )

  pub copy_loop-Good :
      (i : ℕ) (stream : Stream) (s : Copy)
      → Good with_bar s
      → Small (length s.content + length (body_of stream))
      → Good with_bar (copy_loop with_bar w i stream s).1
  unfolding copy_loop GoodUpTo
  copy_loop-Good i (gives p r) s h small =
      let read = timed_read (w.read_time i) s in
      let done = write_piece with_bar w i p read in
      let l = length-append p (body_of r) in
      let (now, le) =
        write_piece-Good i p read (timed_read-Good with_bar (w.read_time i) s h)
          (omega (arith, l)) in
      elim (Bool-cases done.0) [
        | inl went ↦ rw went (copy_loop-Good (suc i) r done.1 now (omega (arith, l, le)))
        | inr stopped ↦ rw stopped now
      ]
  copy_loop-Good i (last p ended) s h small =
      let read = timed_read (w.read_time i) s in
      let done = write_piece with_bar w i p read in
      let (now, le) =
        write_piece-Good i p read (timed_read-Good with_bar (w.read_time i) s h) small in
      elim (Bool-cases done.0) [ inl went ↦ rw went now | inr stopped ↦ rw stopped now ]
