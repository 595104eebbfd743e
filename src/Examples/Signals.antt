-- ===== src/Examples/Signals.antt =====
-- Two signals that arrive before the goroutine takes the first.
use epochfill.Common.{◌≤◌, ◌↔◌, false, refl}
use epochfill.Run.Signals.{
  Interrupt, InterruptReach, notified, stepped, arrive, Quits, Quits-after_two, listening,
}

abbrev twice : Interrupt
twice = record { arrived = 2; queued = 2; handler = listening; cancelled = false; stopped = false }

arrived_twice : InterruptReach twice
arrived_twice = stepped (stepped notified (arrive refl (λ e. cc))) (arrive refl (λ e. cc))

Quits-after_two_example : Quits twice ↔ (2 ≤ 2)
Quits-after_two_example = Quits-after_two arrived_twice
