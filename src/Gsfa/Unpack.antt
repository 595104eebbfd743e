-- ===== src/Gsfa/Unpack.antt =====
-- The copy of one entry to its file: `writeFile` and `countingWriter` of backfill/gsfa.go, and
-- `copyBufSize`, `timedReader` and `timedWriter` of backfill/unpack.go, with the loop of
-- `io.CopyBuffer` written out. The file returns an error whenever it stores less than it was given.
pub mod Stops
pub mod Counts
use epochfill.Common.{
  ℕ, zero, suc, Bool, true, false, not, Option, none, some, ◌>>=◌, List, [], ◌∷◌, ◌++◌, length,
  take, nat_eq, ◌&&◌, if◌then◌else◌, text_equality,
}
use epochfill.Go.Word.{add64, lt_i64}
use epochfill.Go.Decimal.{atoi}
use epochfill.Go.Map.{insert}
use epochfill.Go.Text.{GoString}
use epochfill.Progress.{Output, Bar, new_bar, set_all, finish}
use epochfill.Gsfa.Extract.{Files}

abbrev pub default_copy_buf : ℕ
default_copy_buf = 32768

abbrev pub clamp : ℕ → ℕ
clamp n =
    let low = if lt_i64 n 4096 then 4096 else n in if lt_i64 67108864 low then 67108864 else low

abbrev pub size_for : Option ℕ → ℕ
size_for none = default_copy_buf
size_for (some n) = if not (lt_i64 0 n) then default_copy_buf else clamp n

-- `copyBufSize`; `env` is the text of EPOCHFILL_COPY_BUF, empty where it is not set.
unfoldable pub copy_buf_size : GoString → ℕ
copy_buf_size env = size_for (atoi env)

-- What the calls of `Read` return: bytes with a nil error; or bytes with `io.EOF` (`true`) or
-- another error.
pub data Stream : Type 0 where
  gives : List ℕ → Stream → Stream
  last : List ℕ → Bool → Stream

-- The file, and the fields of the readers and writers around it; `calls` are those of `onWrite`.
pub record Copy : Type 0 where
  pub content : List ℕ
  pub written : ℕ
  pub timed : ℕ
  pub total : ℕ
  pub read_ns : ℕ
  pub write_ns : ℕ
  pub calls : List (ℕ × Bool)

abbrev pub blank_copy : Copy
blank_copy = record {
  content = [];
  written = 0;
  timed = 0;
  total = 0;
  read_ns = 0;
  write_ns = 0;
  calls = [];
}

-- What is outside of the program in each round of the loop: the two times that are measured, whether
-- the bar is due, and the fault of the file, `some k` when it stores k bytes and returns an error.
pub record Rounds : Type 0 where
  pub read_time : ℕ → ℕ
  pub write_time : ℕ → ℕ
  pub due : ℕ → Bool
  pub fault : ℕ → Option ℕ

-- `Write` of the file: how many bytes, whether the error is nil, and the state.
abbrev pub file_write : Option ℕ → List ℕ → Copy → ℕ × Bool × Copy
file_write none p s = (length p, true, record s { content = s.content ++ p })
file_write (some k) p s = (length (take k p), false, record s { content = s.content ++ take k p })

-- `countingWriter.Write`
abbrev pub counting_write : Bool → Option ℕ → List ℕ → Copy → ℕ × Bool × Copy
counting_write due fault p s =
    let (n, ok, now) = file_write fault p s in
    let written = add64 now.written n in
    (n, ok, record now { written = written; calls = now.calls ++ ((written, due) ∷ []) })

abbrev pub dst_write : Bool → Bool → Option ℕ → List ℕ → Copy → ℕ × Bool × Copy
dst_write false due fault p s = file_write fault p s
dst_write true due fault p s = counting_write due fault p s

-- `timedReader.Read` and `timedWriter.Write`
abbrev pub timed_read : ℕ → Copy → Copy
timed_read time s = record s { read_ns = add64 s.read_ns time }

abbrev pub timed_write : Bool → Rounds → ℕ → List ℕ → Copy → ℕ × Bool × Copy
timed_write with_bar w i p s =
    let (n, ok, now) = dst_write with_bar (w.due i) (w.fault i) p s in
    (
      n,
      ok,
      record now { write_ns = add64 now.write_ns (w.write_time i); timed = add64 now.timed n },
    )

-- The write of a round, if something was read.
unfoldable pub write_piece : Bool → Rounds → ℕ → List ℕ → Copy → Bool × Copy
write_piece with_bar w i [] s = (true, s)
write_piece with_bar w i (c ∷ p) s =
    let (n, ok, now) = timed_write with_bar w i (c ∷ p) s in
    (ok, record now { total = add64 now.total n })

-- The loop of `io.CopyBuffer`: whether the error is nil, and the state.
unfoldable pub copy_loop : Bool → Rounds → ℕ → Stream → Copy → Bool × Copy
copy_loop with_bar w i (gives p r) s =
    let done = write_piece with_bar w i p (timed_read (w.read_time i) s) in
    let rest = copy_loop with_bar w (suc i) r done.1 in if done.0 then rest else (false, done.1)
copy_loop with_bar w i (last p ended) s =
    let done = write_piece with_bar w i p (timed_read (w.read_time i) s) in
    if done.0 then (ended, done.1) else (false, done.1)

-- `none` is the panic on a buffer without bytes.
unfoldable pub copy_buffer : ℕ → Bool → Rounds → Stream → Option (Bool × Copy)
copy_buffer buf with_bar w stream =
    if nat_eq buf 0 then none else some (copy_loop with_bar w 0 stream blank_copy)

-- `barThreshold`, and the guard on the size.
abbrev pub bar_threshold : ℕ
bar_threshold = 67108864

abbrev pub has_bar : ℕ → Bool
has_bar size = not (lt_i64 size bar_threshold)

-- The bar, if there is one, after the calls of `onWrite`, and `Finish` if the error is nil.
unfoldable pub bar_after : Bool → Bool → List (ℕ × Bool) → Bar → Option Bar
bar_after false ok calls b = some b
bar_after true false calls b = set_all calls b
bar_after true true calls b = do shown ← set_all calls b; finish shown

-- `writeFile`: whether the error is nil, the files, and what the bar printed; `none` is a panic.
-- `opened`: `MkdirAll` and `Create` return nil errors.
unfoldable pub copy_file :
    Bool
    → GoString
    → Bool
    → GoString
    → Rounds
    → GoString
    → Stream
    → ℕ
    → Files
    → Option ((Bool × Files) × List Output)
copy_file false env tty label w path stream size files = some ((false, files), [])
copy_file true env tty label w path stream size files = do
  (ok, s) ← copy_buffer (copy_buf_size env) (has_bar size) w stream
  bar ← bar_after (has_bar size) ok s.calls (new_bar tty label size)
  some ((ok && nat_eq s.total size, insert path s.content files), bar.printed)
