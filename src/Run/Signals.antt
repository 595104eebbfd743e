-- ===== src/Run/Signals.antt =====
-- `interruptContext` and `setLogLevel` of main.go: the channel of signals, and the goroutine that
-- takes them. The runtime drops a signal for which the channel has no room.
use epochfill.Common.{
  ◌↔◌, ℕ, suc, ◌+◌, ◌-◌, ◌≤◌, ◌<◌, ◌≡◌, ◌≢◌, ◌∙◌, refl, Bool, true, false, ◌&&◌, ◌==◌, map, ltb,
  leb, text_equality, if◌then◌else◌, arith,
}
use epochfill.Go.Text.{GoString, bytes_of}

-- How far the goroutine is: before the first `<-sig`, before the second, and after `os.Exit(130)`.
pub data Handler : Type 0 where
  listening warned quit : Handler

-- `arrived` counts the signals since `signal.Notify`, those that were dropped among them.
pub record Interrupt : Type 0 where
  pub arrived : ℕ
  pub queued : ℕ
  pub handler : Handler
  pub cancelled : Bool
  pub stopped : Bool

-- `make(chan os.Signal, 2)`
abbrev pub capacity : ℕ
capacity = 2

abbrev pub interrupt_start : Interrupt
interrupt_start = record {
  arrived = 0;
  queued = 0;
  handler = listening;
  cancelled = false;
  stopped = false;
}

abbrev pub enqueue : ℕ → ℕ
enqueue n = if ltb n capacity then suc n else n

pub data HandlerStep (s : Interrupt) : Interrupt → Type 0 where
  take_first :
      s.handler ≡ listening
      → 0 < s.queued
      → HandlerStep s (record s { queued = s.queued - 1; handler = warned; cancelled = true })
  take_second :
      s.handler ≡ warned
      → 0 < s.queued
      → HandlerStep s (record s { queued = s.queued - 1; handler = quit })

-- The steps of the goroutine alone.
pub data HandlerRuns (s : Interrupt) : Interrupt → Type 0 where
  rests : HandlerRuns s s
  more : {t u : Interrupt} → HandlerRuns s t → HandlerStep t u → HandlerRuns s u

-- After `signal.Stop` no signal reaches the channel.
pub data InterruptStep (s : Interrupt) : Interrupt → Type 0 where
  arrive :
      s.stopped ≡ false
      → s.handler ≢ quit
      → InterruptStep s (record s { arrived = suc s.arrived; queued = enqueue s.queued })
  handle : {t : Interrupt} → HandlerStep s t → InterruptStep s t
  stop : s.handler ≢ quit → InterruptStep s (record s { stopped = true; cancelled = true })

pub data InterruptReach : Interrupt → Type 0 where
  notified : InterruptReach interrupt_start
  stepped : {s t : Interrupt} → InterruptReach s → InterruptStep s t → InterruptReach t

-- `setLogLevel`. Of the characters beyond ASCII none has a letter of these words as its lower case.
pub data Level : Type 0 where
  trace debug info : Level

abbrev pub to_lower : ℕ → ℕ
to_lower c = if leb b'A' c && leb c b'Z' then c + 32 else c

abbrev pub level_of : GoString → Level
level_of word =
    if word == bytes_of "trace" then trace else if word == bytes_of "debug" then debug else info

abbrev pub log_level : GoString → Level
log_level env = level_of (map to_lower env)

-- How many signals the goroutine has taken.
abbrev taken : Handler → ℕ
taken listening = 0
taken warned = 1
taken quit = 2

abbrev has_cancelled : Handler → Bool
has_cancelled listening = false
has_cancelled _ = true

-- No signal is taken that did not arrive, the first two are not dropped, and the context is cancelled
-- exactly if one was taken or the run is over.
record Taken (s : Interrupt) : Type 0 where
  arrived_all : taken s.handler + s.queued ≤ s.arrived
  kept_two : (if ltb s.arrived 2 then s.arrived else 2) ≤ taken s.handler + s.queued
  cancel : s.cancelled ≡ (if s.stopped then true else has_cancelled s.handler)

if_same : (b : Bool) → true ≡ (if b then true else true)
if_same true = refl
if_same false = refl

Handler-Taken : {s t : Interrupt} → HandlerStep s t → Taken s → Taken t
Handler-Taken {s} (take_first here some_queued) h =
    let a : s.queued ≤ s.arrived = (let e = rw here at h.arrived_all in omega arith) in
    let k : (if ltb s.arrived 2 then s.arrived else 2) ≤ s.queued =
      (let e = rw here at h.kept_two in omega arith) in
    record { arrived_all = omega arith; kept_two = omega arith; cancel = if_same s.stopped }
Handler-Taken {s} (take_second here some_queued) h =
    let a : 1 + s.queued ≤ s.arrived = rw here at h.arrived_all in
    let k : (if ltb s.arrived 2 then s.arrived else 2) ≤ 1 + s.queued = rw here at h.kept_two in
    record { arrived_all = omega arith; kept_two = omega arith; cancel = rw here at h.cancel }

Step-Taken : {s t : Interrupt} → InterruptStep s t → Taken s → Taken t
Step-Taken (arrive going running) h = record {
  arrived_all = (let a = h.arrived_all in ground arith);
  kept_two = (let a = h.kept_two in ground arith);
  cancel = h.cancel;
}
Step-Taken (handle step) h = Handler-Taken step h
Step-Taken (stop running) h = record {
  arrived_all = h.arrived_all;
  kept_two = h.kept_two;
  cancel = refl;
}

InterruptReach-Taken : {s : Interrupt} → InterruptReach s → Taken s
InterruptReach-Taken notified = record {
  arrived_all = omega arith;
  kept_two = omega arith;
  cancel = refl;
}
InterruptReach-Taken (stepped r step) = Step-Taken step (InterruptReach-Taken r)

Runs-Taken : {s t : Interrupt} → HandlerRuns s t → Taken s → Taken t
Runs-Taken rests h = h
Runs-Taken (more runs step) h = Handler-Taken step (Runs-Taken runs h)

Step_arrived : {s t : Interrupt} → HandlerStep s t → t.arrived ≡ s.arrived
Step_arrived (take_first here some_queued) = refl
Step_arrived (take_second here some_queued) = refl

Runs_arrived : {s t : Interrupt} → HandlerRuns s t → t.arrived ≡ s.arrived
Runs_arrived rests = refl
Runs_arrived (more runs step) = Step_arrived step ∙ Runs_arrived runs

-- The goroutine can reach `os.Exit` by its own steps.
abbrev pub Quits : Interrupt → Type 0
Quits s = (t : Interrupt) × HandlerRuns s t × (t.handler ≡ quit) × (t.cancelled ≡ true)

cancelled_by : (s : Interrupt) → Taken s → has_cancelled s.handler ≡ true → s.cancelled ≡ true
cancelled_by s h e = h.cancel ∙ (rw e (ground arith))

Taken-Quits : (s : Interrupt) (at : Handler) → s.handler ≡ at → Taken s → 2 ≤ s.arrived → Quits s
Taken-Quits s listening here h two =
    let k : 2 ≤ s.queued = (let e = rw here at h.kept_two in ground arith) in
    (
      record s { queued = s.queued - 1 - 1; handler = quit; cancelled = true },
      more (more rests (take_first here (omega arith))) (take_second refl (omega arith)),
      refl,
      refl,
    )
Taken-Quits s warned here h two =
    let k : 1 ≤ s.queued = (let e = rw here at h.kept_two in ground arith) in
    (
      record s { queued = s.queued - 1; handler = quit },
      more rests (take_second here k),
      refl,
      cancelled_by s h (rw here refl),
    )
Taken-Quits s quit here h two = (s, rests, here, cancelled_by s h (rw here refl))

-- In every state that signals, the goroutine and the end of `main` reach: the goroutine goes on to
-- `os.Exit(130)` by its own steps, with the context cancelled before, if two signals have arrived,
-- and only then. Neither of the first two signals is dropped, however many follow.
pub Quits-after_two : {s : Interrupt} → InterruptReach s → (Quits s ↔ (2 ≤ s.arrived))
Quits-after_two {s} r = (
  (λ (q : Quits s).
      let (t, runs, over, cancelled) = q in
      let h = Runs-Taken runs (InterruptReach-Taken r) in
      let a : 2 + t.queued ≤ t.arrived = rw over at h.arrived_all in
      let e = Runs_arrived runs in omega arith),
  Taken-Quits s s.handler refl (InterruptReach-Taken r),
)
