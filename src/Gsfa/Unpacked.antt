-- ===== src/Gsfa/Unpacked.antt =====
-- The copy of Gsfa/Unpack, as backfill/gsfa.go makes it, against `write_file` of Gsfa/Extract.
use epochfill.Common.{
  ℕ, ◌≤◌, ◌≡◌, refl, ap, Bool, true, false, Option, none, some, List, [], length, nat_eq, ◌&&◌, All,
  text_equality, arith,
}
use epochfill.Go.Word.{lt_i64}
use epochfill.Go.Decimal.{atoi, FitsU64, atoi-FitsU64}
use epochfill.Go.Map.{insert}
use epochfill.Go.Text.{GoString}
use epochfill.Parts.{whole, cut}
use epochfill.Progress.{Output, Bar, new_bar}
use epochfill.Progress.Track.{Small}
use epochfill.Progress.Printed.{Fine, set_all-Kept, finish-Fine, new_bar-Kept}
use epochfill.Gsfa.Extract.{Files, write_file}
use epochfill.Gsfa.Unpack.{
  size_for, copy_buf_size, Stream, Copy, blank_copy, Rounds, copy_loop, copy_buffer, has_bar,
  bar_after, copy_file,
}
use epochfill.Gsfa.Unpack.Stops.{
  body_of, first_stop, copy_end, stored, unstopped, Arrived, copy_loop-Arrived,
}
use epochfill.Gsfa.Unpack.Counts.{Good, Counted, copy_loop-Good}

size_for_bounds : (n : Option ℕ) → FitsU64 n → (4096 ≤ size_for n) × (size_for n ≤ 67108864)
size_for_bounds none h = (omega arith, omega arith)
size_for_bounds (some n) h = unfold lt_i64 in (ground arith, ground arith)

-- Whatever the environment variable holds, the buffer of the copy has between 4 KiB and 64 MiB.
pub copy_buf_size_bounds :
    (env : GoString) → (4096 ≤ copy_buf_size env) × (copy_buf_size env ≤ 67108864)
unfolding copy_buf_size
copy_buf_size_bounds env = size_for_bounds (atoi env) (atoi-FitsU64 env)

-- The bar was drawn without a panic, and what it printed is in order.
Drawn : Option Bar → Type 0
Drawn after = (bar : Bar) × (after ≡ some bar) × All Fine bar.printed

bar_after-Drawn :
    (with_bar ok tty : Bool) (label : GoString) (size : ℕ) (s : Copy)
    → Counted with_bar s
    → Small size
    → Drawn (bar_after with_bar ok s.calls (new_bar tty label size))
unfolding Drawn bar_after Counted
bar_after-Drawn false ok tty label size s h small = (new_bar tty label size, refl, tt)
bar_after-Drawn true false tty label size s (same, rising, last_call) small =
    let (shown, e, kept) =
      set_all-Kept size small s.calls (new_bar tty label size) (new_bar-Kept size small tty label)
        rising in
    (shown, e, kept.fine)
bar_after-Drawn true true tty label size s (same, rising, last_call) small =
    let (shown, e, kept) =
      set_all-Kept size small s.calls (new_bar tty label size) (new_bar-Kept size small tty label)
        rising in
    let (after, e', fine, few) = finish-Fine size small shown kept in (after, rw e e', fine)

blank-Good : (with_bar : Bool) → Good with_bar blank_copy
unfolding Counted
blank-Good true = record { same_total = refl; same_timed = refl; counted = (refl, tt, refl) }
blank-Good false = record { same_total = refl; same_timed = refl; counted = tt }

copied_as :
    (path : GoString) (body : List ℕ) (size total : ℕ) (files : Files) (content : List ℕ)
    (ok : Bool) (stop : Option ℕ)
    → ok ≡ unstopped stop
    → content ≡ stored stop body
    → total ≡ length content
    → (ok && nat_eq total size, insert path content files)
      ≡ write_file (elim stop [ none ↦ whole | some k ↦ cut k ]) path body size files
unfolding write_file
copied_as path body size total files content ok none went same count = rw (went, count, same) refl
copied_as path body size total files content ok (some k) went same count = rw (went, same) refl

copy_buffer_runs :
    (env : GoString) (with_bar : Bool) (w : Rounds) (stream : Stream)
    → copy_buffer (copy_buf_size env) with_bar w stream
      ≡ some (copy_loop with_bar w 0 stream blank_copy)
unfolding copy_buffer
copy_buffer_runs env with_bar w stream = let (low, high) = copy_buf_size_bounds env in ground arith

-- For an entry whose header's size and whose bytes, a hundred times over, are an `int64`, whatever
-- the pieces in which its bytes are read, the environment variable and the times of the bar: the
-- copy does not panic, what its bar prints is in order, and its error and the files are those of
-- `write_file` on all the bytes that the reader yields, cut off where the first read or write
-- fails.
pub copy_file-write_file :
    (opened : Bool) (env : GoString) (tty : Bool) (label : GoString) (w : Rounds) (path : GoString)
    (stream : Stream) (size : ℕ) (files : Files)
    → Small size
    → Small (length (body_of stream))
    → (out : List Output) × (copy_file opened env tty label w path stream size files
        ≡ some (write_file (copy_end opened w.fault stream) path (body_of stream) size files, out))
      × All Fine out
unfolding copy_file Arrived Drawn
copy_file-write_file false env tty label w path stream size files fits small =
    ([], unfold write_file in refl, tt)
copy_file-write_file true env tty label w path stream size files fits small =
    let (ok, s) = copy_loop (has_bar size) w 0 stream blank_copy in
    let counts =
      copy_loop-Good (has_bar size) w 0 stream blank_copy (blank-Good (has_bar size))
        (omega arith) in
    let (went, content) = copy_loop-Arrived (has_bar size) w 0 stream blank_copy in
    let (bar, drawn, fine) =
      bar_after-Drawn (has_bar size) ok tty label size s counts.counted fits in
    (
      bar.printed,
      rw (copy_buffer_runs env (has_bar size) w stream, drawn)
          (ap (λ r. some (r, bar.printed))
            (copied_as path (body_of stream) size s.total files s.content ok
              (first_stop w.fault 0 stream) went content counts.same_total)),
      fine,
    )
