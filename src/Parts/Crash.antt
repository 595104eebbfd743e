-- ===== src/Parts/Crash.antt =====
-- What the sidecar claims is durable, however the download of backfill/oldfaithful.go is interrupted.
use epochfill.Common.{
  ℕ, ◌<◌, ◌≡◌, ◌∙◌, inl, inr, Bool, true, false, not, Bool-cases, Option, none, some, List, length,
  take, elem, ltb, nat_eq, nat_eq→eq, all_of, nat_equality, arith,
}
use native.Mathlib.Nat.{zero-add}
use epochfill.Parts.{
  PartsFile, Disk, sync_every, opened, open_parts, pending, WriteEnd, whole, not_opened, cut, flush,
  maybe_flush, close,
}
use epochfill.Parts.Claims.{
  claims, length-mark_done, mark_done-claims, claims-mark_done, take_whole, claims-pending_from,
}
use epochfill.Parts.Steps.{
  reading, System, running, stopped, Step, start, store, mark, settle, flush_maybe, flush_last,
  finish, crash, Reach, begin, next,
}
use epochfill.Parts.Open.{open_parts_lem}

module _ (n : ℕ) where
  -- The sidecar on disk, if it is whole, claims only what is durable.
  abbrev Sound : Disk → Type 0
  Sound d =
      (l : List ℕ) (i : ℕ)
      → d.sidecar ≡ some l
      → length l ≡ n
      → claims l i ≡ true
      → d.durable i ≡ true

  -- The sidecar in memory claims only what is written, and no less than the one on disk.
  record Held (p : PartsFile) (d : Disk) : Type 0 where
    size : length p.state ≡ n
    there : (i : ℕ) → claims p.state i ≡ true → d.written i ≡ true
    above :
        (l : List ℕ) (i : ℕ)
        → d.sidecar ≡ some l
        → length l ≡ n
        → claims l i ≡ true
        → claims p.state i ≡ true

  abbrev HeldBy : Option PartsFile → Disk → Type 0
  HeldBy none d = Unit
  HeldBy (some p) d = Held p d

  record Safe (s : System) : Type 0 where
    sound : Sound s.disk
    synced_written : (i : ℕ) → s.disk.durable i ≡ true → s.disk.written i ≡ true
    held : HeldBy s.process s.disk

  -- A flush, however it ends.
  flush-Safe :
      (sync_ok : Bool) (end : WriteEnd) (p : PartsFile) (d : Disk)
      → Safe (running p d)
      → Safe (running (flush sync_ok end p d).1 (flush sync_ok end p d).2)
  unfolding flush
  flush-Safe false end p d h = h
  flush-Safe true not_opened p d h = record {
    sound = λ l i side size claim. h.synced_written i (h.sound l i side size claim);
    synced_written = λ i w. w;
    held = record { size = h.held.size; there = h.held.there; above = h.held.above };
  }
  flush-Safe true whole p d h = record {
    sound = λ l i side size claim. h.held.there i (cc (side, claim));
    synced_written = λ i w. w;
    held = record {
      size = h.held.size;
      there = h.held.there;
      above = λ l i side size claim. cc (side, claim);
    };
  }
  flush-Safe true (cut k) p d h = record {
    sound = λ l i side size claim. h.held.there i (same l i side size claim);
    synced_written = λ i w. w;
    held = record { size = h.held.size; there = h.held.there; above = same };
  }
    where
      same :
          (l : List ℕ) (i : ℕ)
          → some (take k p.state) ≡ some l
          → length l ≡ n
          → claims l i ≡ true
          → claims p.state i ≡ true
      same l i side size claim =
          cc (side, claim, take_whole k p.state (cc (side, size, h.held.size)))

  maybe_flush-Safe :
      (sync_ok : Bool) (end : WriteEnd) (p : PartsFile) (d : Disk)
      → Safe (running p d)
      → Safe (running (maybe_flush sync_ok end p d).1 (maybe_flush sync_ok end p d).2)
  unfolding maybe_flush
  maybe_flush-Safe sync_ok end p d h = elim (Bool-cases (ltb p.dirty sync_every)) [
    | inl few ↦ rw few h
    | inr many ↦ rw many (flush-Safe sync_ok end p d h)
  ]

  halted : (p : PartsFile) (d : Disk) → Safe (running p d) → Safe (stopped d)
  halted p d h = record { sound = h.sound; synced_written = h.synced_written; held = tt }

  without_sidecar : (d : Disk) → Safe (stopped d) → Safe (stopped (record d { sidecar = none }))
  without_sidecar d h = record {
    sound = λ l i side size claim. cc;
    synced_written = h.synced_written;
    held = tt;
  }

  close-Safe :
      (remove_fails : Bool) (p : PartsFile) (d : Disk)
      → Safe (running p d)
      → Safe (stopped (close remove_fails p d).1)
  unfolding close
  close-Safe remove_fails p d h = elim (Bool-cases (all_of (λ b. not (nat_eq b 0)) p.state)) [
    | inr incomplete ↦ rw incomplete (halted p d h)
    | inl complete ↦ elim (Bool-cases remove_fails) [
      | inl fails ↦ rw (complete, fails) (halted p d h)
      | inr removed ↦ rw (complete, removed) (without_sidecar d (halted p d h))
    ]
  ]

  Step-Safe : {s s' : System} → Step n s s' → Safe s → Safe s'
  Step-Safe (start {d = d} {p = p} {side = side} remove_fails e) h =
      let o = open_parts_lem n remove_fails d.sidecar p side e in
      record {
        sound = λ l i on size claim. h.sound l i (o.kept l on) size claim;
        synced_written = h.synced_written;
        held = record {
          size = o.size;
          there = λ i claim.
              (let (l, here, size, claimed) = o.from i claim in
                h.synced_written i (h.sound l i here size claimed));
          above = λ l i on size claim. o.above l i on claim;
        };
      }
  Step-Safe (store {d = d} {p = p} i b todo) h = record {
    sound = λ l j side size claim.
        ground (arith, h.sound l j side size claim, h.held.above l j side size claim, todo);
    synced_written = λ j on. ground (arith, h.synced_written j);
    held = record {
      size = h.held.size;
      there = λ j claim. ground (arith, h.held.there j claim, todo);
      above = h.held.above;
    };
  }
  Step-Safe (mark {d = d} {p = p} i w) h = record {
    sound = h.sound;
    synced_written = h.synced_written;
    held = record {
      size = length-mark_done i p ∙ h.held.size;
      there = λ j claim. elim (Bool-cases (nat_eq i j)) [
        | inl same ↦ rw (← nat_eq→eq i j same) w
        | inr other ↦ h.held.there j (claims-mark_done i j p claim other)
      ];
      above = λ l j side size claim. mark_done-claims i j p (h.held.above l j side size claim);
    };
  }
  Step-Safe (settle {d = d} i w) h = record {
    sound = λ l j side size claim. ground (arith, h.sound l j side size claim);
    synced_written = λ j on. ground (arith, h.synced_written j, w);
    held = record { size = h.held.size; there = h.held.there; above = h.held.above };
  }
  Step-Safe (flush_maybe {d = d} {p = p} sync_ok end) h = maybe_flush-Safe sync_ok end p d h
  Step-Safe (flush_last {d = d} {p = p} sync_ok end) h = flush-Safe sync_ok end p d h
  Step-Safe (finish {d = d} {p = p} remove_fails) h = close-Safe remove_fails p d h
  Step-Safe (crash left kept was) h = record {
    sound = λ l i side size claim. kept i (h.sound l i side size claim);
    synced_written = λ i on. on;
    held = tt;
  }

  Reach-Safe : {s : System} → Reach n s → Safe s
  Reach-Safe begin = record {
    sound = λ l i side size claim. cc;
    synced_written = λ i on. cc;
    held = tt;
  }
  Reach-Safe (next r step) = Step-Safe step (Reach-Safe r)

  pub running_size : {d : Disk} {p : PartsFile} → Reach n (running p d) → length p.state ≡ n
  running_size r = let safe = Reach-Safe r in safe.held.size

  pub running_there :
      {d : Disk} {p : PartsFile} (i : ℕ)
      → Reach n (running p d)
      → claims p.state i ≡ true
      → d.written i ≡ true
  running_there i r claim = let safe = Reach-Safe r in safe.held.there i claim

  -- After any sequence of chunk writes, marks, flushes that fail or break off, crashes and
  -- restarts of a download of `n` chunks from a blank disk: when the sidecar is then opened with
  -- no error, every one of the `n` chunks that `pending` does not list is durable in the data
  -- file.
  pub open_parts-durable :
      {d : Disk} {p : PartsFile} {side : Option (List ℕ)} (remove_fails : Bool) (i : ℕ)
      → Reach n (stopped d)
      → open_parts remove_fails (reading d.sidecar) n ≡ opened p side
      → i < n
      → elem i (pending p) ≡ false
      → d.durable i ≡ true
  open_parts-durable {d} {p} {side} remove_fails i r e inside absent =
      let safe = Reach-Safe r in
      let o = open_parts_lem n remove_fails d.sidecar p side e in
      let (l, here, size, claimed) =
        o.from i (claims-pending_from p.state 0 i (omega (arith, o.size)) (rw zero-add absent)) in
      safe.sound l i here size claimed

  -- While a download of `n` chunks runs, after any sequence of chunk writes, marks, flushes that
  -- fail or break off, crashes and restarts from a blank disk: every one of the `n` chunks that
  -- its `pending` does not list is written in the data file.
  pub marked_written :
      {d : Disk} {p : PartsFile} (i : ℕ)
      → Reach n (running p d)
      → i < n
      → elem i (pending p) ≡ false
      → d.written i ≡ true
  marked_written {d} {p} i r inside absent =
      let safe = Reach-Safe r in
      safe.held.there i
        (claims-pending_from p.state 0 i (omega (arith, safe.held.size)) (rw zero-add absent))
