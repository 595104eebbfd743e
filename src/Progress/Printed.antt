-- ===== src/Progress/Printed.antt =====
-- What the bar of backfill/progress.go prints while a transfer goes on.
use epochfill.Common.{
  ℕ, suc, ◌+◌, ◌≤◌, ◌≡◌, ◌∙◌, refl, ap, inl, inr, Bool, true, false, not, Bool-cases, Option, some,
  ◌>>=◌, List, [], ◌∷◌, ◌++◌, length, nat_eq, ◌&&◌, All, All-append, arith,
}
use epochfill.Go.Text.{GoString}
use epochfill.Go.Word.{lt_i64}
use epochfill.Progress.{
  Output, frame, line, newline, Bar, new_bar, percent, truncate, print, draw, log, show, set,
  finish, set_all, transfer, bar_width,
}
use epochfill.Progress.Track.{
  Small, nat_percent, percent-nat_percent, nat_percent_le, nat_percent_mono, track_cells,
}

-- The track of a frame has 32 cells, and no percentage is above 100.
abbrev pub Fine : Output → Type 0
Fine (frame label cells pct done total) = (length cells ≡ bar_width) × (pct ≤ 100)
Fine (line label pct done total) = pct ≤ 100
Fine newline = Unit

abbrev pub lines : List Output → ℕ
lines [] = 0
lines (frame label cells pct done total ∷ r) = lines r
lines (line label pct done total ∷ r) = suc (lines r)
lines (newline ∷ r) = lines r

-- The counts of bytes do not fall, and none is too large.
abbrev pub Rising : ℕ → List (ℕ × Bool) → Type 0
Rising before [] = Unit
Rising before ((done, due) ∷ r) = (before ≤ done) × Small done × Rising done r

lines-append : (l m : List Output) → lines (l ++ m) ≡ lines l + lines m
lines-append [] m = omega arith
lines-append (frame label cells pct done total ∷ l) m = lines-append l m
lines-append (line label pct done total ∷ l) m = ground (arith, lines-append l m)
lines-append (newline ∷ l) m = lines-append l m

show-draw :
    (due : Bool) (b : Bar)
    → b.finished ≡ false
    → b.tty ≡ true
    → (not due && lt_i64 b.done b.total) ≡ false
    → show due b ≡ draw b
unfolding show
show-draw due b going terminal repaint = ground (arith, going, terminal, repaint)

finish-draw :
    (b drawn : Bar)
    → b.finished ≡ false
    → b.tty ≡ true
    → draw (record b { finished = true; done = b.total }) ≡ some drawn
    → finish b ≡ some (print newline drawn)
unfolding finish
finish-draw b drawn going terminal e =
    ground (arith, going, terminal) ∙ ap (λ o. o >>= λ d. some (print newline d)) e

module _ (total : ℕ) (total_small : Small total) where
  -- The bar is in order.
  pub record Kept (b : Bar) : Type 0 where
    pub same_total : b.total ≡ total
    pub small : Small b.done
    pub fine : All Fine b.printed
    pub counted : lines b.printed ≤ b.last_pct
    pub behind : b.last_pct ≤ nat_percent total b.done

  Draws : Bar → Option Bar → Type 0
  Draws b after =
      (drawn : Bar) × (after ≡ some drawn)
      × All Fine drawn.printed
      × (lines drawn.printed ≡ lines b.printed)
      × (drawn.last_pct ≡ b.last_pct)
      × (drawn.done ≡ b.done)
      × (drawn.total ≡ b.total)

  percent_le : (done : ℕ) → Small done → percent total done ≤ 100
  percent_le done h =
      rw (percent-nat_percent total done (omega arith) h) (nat_percent_le total done)

  draw-Draws : (b : Bar) → b.total ≡ total → Small b.done → All Fine b.printed → Draws b (draw b)
  unfolding draw Draws
  draw-Draws b same small fine =
      let pct = percent b.total b.done in
      let le : pct ≤ 100 = rw same (percent_le b.done small) in
      let (cells, drawn, width) = track_cells pct le in
      let o = frame (truncate b.label 22) cells pct b.done b.total in
      (
        print o b,
        rw drawn,
        All-append Fine b.printed (o ∷ []) fine ((width, le), tt),
        lines-append b.printed (o ∷ []) ∙ (omega arith),
        refl,
        refl,
        refl,
      )

  log_done : (b : Bar) → (log b).done ≡ b.done
  unfolding log
  log_done b = ground arith

  log-Kept : (b : Bar) → Kept b → Kept (log b)
  unfolding log
  log-Kept b h =
      let pct = percent b.total b.done in
      let exact : pct ≡ nat_percent total b.done =
        rw h.same_total (percent-nat_percent total b.done (omega arith) h.small) in
      elim (Bool-cases (nat_eq pct b.last_pct)) [
        | inl same ↦ rw same h
        | inr moved ↦ rw moved (record {
          same_total = h.same_total;
          small = h.small;
          fine =
              All-append Fine b.printed (line b.label pct b.done b.total ∷ []) h.fine
                (rw h.same_total (percent_le b.done h.small), tt);
          counted =
              (let e = lines-append b.printed (line b.label pct b.done b.total ∷ []) in
                let c = h.counted in let d = h.behind in ground (arith, moved));
          behind = rw exact (omega arith);
        })
      ]

  Shown : Option Bar → ℕ → Type 0
  Shown after done = (b : Bar) × (after ≡ some b) × Kept b × (b.done ≡ done)

  set-Shown :
      (done : ℕ) (due : Bool) (b : Bar)
      → Kept b
      → b.done ≤ done
      → Small done
      → Shown (set done due b) done
  unfolding set show Shown Draws
  set-Shown done due b h rising small =
      let now : Bar = record b { done = done } in
      let h' : Kept now = record {
        same_total = h.same_total;
        small = small;
        fine = h.fine;
        counted = h.counted;
        behind =
            (let d = h.behind in let e = nat_percent_mono total b.done done rising in omega arith);
      } in
      elim (Bool-cases b.finished) [
        | inl over ↦ (now, rw over, h', refl)
        | inr going ↦ elim (Bool-cases b.tty) [
          | inr piped ↦ (log now, rw (going, piped), log-Kept now h', log_done now)
          | inl terminal ↦ elim (Bool-cases (not due && lt_i64 done b.total)) [
            | inl early ↦ (now, rw (going, terminal, early), h', refl)
            | inr repaint ↦
                let (drawn, e, fine, same_lines, same_pct, same_done, same) =
                  draw-Draws now h.same_total small h.fine in
                (
                  drawn,
                  show-draw due now going terminal repaint ∙ e,
                  record {
                    same_total = same ∙ h.same_total;
                    small = rw same_done small;
                    fine = fine;
                    counted = (let c = h.counted in rw (same_lines, same_pct) c);
                    behind = rw (same_pct, same_done) h'.behind;
                  },
                  same_done,
                )
          ]
        ]
      ]

  pub set_all-Kept :
      (calls : List (ℕ × Bool)) (b : Bar)
      → Kept b
      → Rising b.done calls
      → (after : Bar) × (set_all calls b ≡ some after) × Kept after
  unfolding Shown
  set_all-Kept [] b h rising = (b, refl, h)
  set_all-Kept ((done, due) ∷ r) b h (le, small, rising) =
      let (shown, e, h', same) = set-Shown done due b h le small in
      let (after, e', h'') = set_all-Kept r shown h' (rw same rising) in (after, rw e e', h'')

  pub finish-Fine :
      (b : Bar)
      → Kept b
      → (after : Bar) × (finish b ≡ some after)
        × All Fine after.printed
        × (lines after.printed ≤ 100)
  unfolding finish Draws
  finish-Fine b h =
      let few : lines b.printed ≤ 100 =
        (let c = h.counted in
          let d = h.behind in let e = nat_percent_le total b.done in omega arith) in
      elim (Bool-cases b.finished) [
        | inl over ↦ (b, rw over, h.fine, few)
        | inr going ↦ elim (Bool-cases b.tty) [
          | inr piped ↦ (record b { finished = true }, rw (going, piped), h.fine, few)
          | inl terminal ↦
              let (drawn, e, fine, same_lines, same_pct, same_done, same) =
                draw-Draws (record b { finished = true; done = b.total }) h.same_total
                  (rw h.same_total total_small) h.fine in
              (
                print newline drawn,
                finish-draw b drawn going terminal e,
                All-append Fine drawn.printed (newline ∷ []) fine (tt, tt),
                (let l = lines-append drawn.printed (newline ∷ []) in omega arith),
              )
        ]
      ]

  pub new_bar-Kept : (tty : Bool) (label : GoString) → Kept (new_bar tty label total)
  new_bar-Kept tty label = record {
    same_total = refl;
    small = omega arith;
    fine = tt;
    counted = omega arith;
    behind = omega arith;
  }

  -- For a transfer of a size that 100 times over is still an `int64`, and counts of bytes of which
  -- this holds too and that do not fall: neither a `Set` nor `Finish` panics; on a terminal the track
  -- of each frame has 32 cells, no percentage that is printed is above 100, and no more than 100
  -- lines are printed where stderr is not a terminal.
  pub transfer-Fine :
      (tty : Bool) (label : GoString) (calls : List (ℕ × Bool))
      → Rising 0 calls
      → (after : Bar) × (transfer calls (new_bar tty label total) ≡ some after)
        × All Fine after.printed
        × (lines after.printed ≤ 100)
  unfolding transfer
  transfer-Fine tty label [] rising = (new_bar tty label total, refl, tt, omega arith)
  transfer-Fine tty label (call ∷ calls) rising =
      let (shown, e, h) =
        set_all-Kept (call ∷ calls) (new_bar tty label total) (new_bar-Kept tty label) rising in
      let (after, e', fine, few) = finish-Fine shown h in (after, rw e e', fine, few)
