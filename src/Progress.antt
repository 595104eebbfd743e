-- ===== src/Progress.antt =====
-- The progress bar of backfill/progress.go, with what it prints as a list. The rate and the time left
-- are floating point and are left out. `due` says whether 100 ms have passed since the last repaint.
pub mod Track
pub mod Printed
pub mod Units
use epochfill.Common.{
  ℕ, zero, suc, ◌+◌, ◌-◌, ◌*◌, Bool, true, false, not, Option, none, some, ◌>>=◌, List, [], ◌∷◌,
  ◌++◌, length, take, replicate, ltb, nat_eq, ◌&&◌, if◌then◌else◌,
}
use epochfill.Go.Word.{lt_i64, mul64, div_i64, sub64}
use epochfill.Go.Text.{GoString}

abbrev pub bar_width : ℕ
bar_width = 32

-- `strings.Repeat` of one character: `none` is the panic on a negative count.
abbrev pub repeat_char : ℕ → ℕ → Option (List ℕ)
repeat_char c n = if lt_i64 n 0 then none else some (replicate n c)

-- The bytes of the ellipsis.
abbrev pub ellipsis : GoString
ellipsis = 226 ∷ 128 ∷ 166 ∷ []

-- `truncate`
unfoldable pub truncate : GoString → ℕ → GoString
truncate s n = if not (ltb n (length s)) then s else take (n - 1) s ++ ellipsis

-- What is printed to stderr. A frame is repainted over the one before it.
pub data Output : Type 0 where
  frame : GoString → List ℕ → ℕ → ℕ → ℕ → Output
  line : GoString → ℕ → ℕ → ℕ → Output
  newline : Output

pub record Bar : Type 0 where
  pub label : GoString
  pub total : ℕ
  pub tty : Bool
  pub done : ℕ
  pub last_pct : ℕ
  pub finished : Bool
  pub printed : List Output

-- `NewBar`; `tty` is `isTerminal`.
abbrev pub new_bar : Bool → GoString → ℕ → Bar
new_bar tty label total = record {
  label = label;
  total = total;
  tty = tty;
  done = 0;
  last_pct = 0;
  finished = false;
  printed = [];
}

-- `pctLocked`
unfoldable pub percent : ℕ → ℕ → ℕ
percent total done =
    let pct = div_i64 (mul64 100 done) total in
    if lt_i64 0 total then (if lt_i64 100 pct then 100 else pct) else 0

-- `filled` and `track` of `drawLocked`.
unfoldable pub track : ℕ → Option (List ℕ)
track pct =
    let filled = div_i64 (mul64 bar_width pct) 100 in
    do
      full ← repeat_char 9608 filled
      rest ← repeat_char 9617 (sub64 bar_width filled)
      some (full ++ rest)

abbrev pub print : Output → Bar → Bar
print o b = record b { printed = b.printed ++ (o ∷ []) }

-- `drawLocked`; `none` is a panic.
unfoldable pub draw : Bar → Option Bar
draw b = do
  cells ← track (percent b.total b.done)
  some (print (frame (truncate b.label 22) cells (percent b.total b.done) b.done b.total) b)

-- `logLocked`
unfoldable pub log : Bar → Bar
log b =
    let pct = percent b.total b.done in
    if nat_eq pct b.last_pct
    then b
    else print (line b.label pct b.done b.total) (record b { last_pct = pct })

-- `Set`, after `b.done = done`.
unfoldable pub show : Bool → Bar → Option Bar
show due b =
    if b.finished
    then some b
    else if not b.tty
    then some (log b)
    else if not due && lt_i64 b.done b.total
    then some b
    else draw b

unfoldable pub set : ℕ → Bool → Bar → Option Bar
set done due b = show due (record b { done = done })

-- `Finish`
unfoldable pub finish : Bar → Option Bar
finish b =
    if b.finished
    then some b
    else if not b.tty
    then some (record b { finished = true })
    else do drawn ← draw (record b { finished = true; done = b.total }); some (print newline drawn)

-- The calls that a transfer makes: a `Set` with each count of bytes, and `Finish`.
abbrev pub set_all : List (ℕ × Bool) → Bar → Option Bar
set_all [] b = some b
set_all ((done, due) ∷ r) b = do shown ← set done due b; set_all r shown

-- Without a call there is no bar.
unfoldable pub transfer : List (ℕ × Bool) → Bar → Option Bar
transfer [] b = some b
transfer (call ∷ calls) b = do shown ← set_all (call ∷ calls) b; finish shown
