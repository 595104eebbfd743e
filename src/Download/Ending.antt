-- ===== src/Download/Ending.antt =====
-- The dispatcher and the workers of `runChunks` of backfill/oldfaithful.go do not wait for each other
-- for ever.
use epochfill.Common.{
  ℕ, suc, ◌+◌, ◌<◌, ◌≡◌, ◌≢◌, refl, ◌⊎◌, inl, inr, Bool, true, false, Bool-cases, elem, nat_eq,
  nat_equality, if◌then◌else◌, arith, total_of, total_of-set_at, total_of-zero,
}
use epochfill.Go.Word.{i64_half}
use epochfill.Parts.{PartsFile, Disk, pending}
use epochfill.Parts.Steps.{running, Reach}
use epochfill.Download.{Phase, kept, queued, fetching, stored, marked, finished, lost, first_phase}
use epochfill.Download.Pool.{
  Pool, set_phase, initial, PoolStep, send, close_jobs, interrupt, read_error, write_error,
  chunk_written, chunk_marked, flush_error, chunk_flushed, PoolReach, started, moved,
}
use epochfill.Download.Complete.{Sane, inside_in, PoolReach-Sane}

-- The steps that a chunk still has before it.
abbrev pub to_do : Phase → ℕ
to_do queued = 4
to_do fetching = 3
to_do stored = 2
to_do marked = 1
to_do _ = 0

-- The worker that a chunk keeps from the next one.
abbrev pub held : Phase → ℕ
held fetching = 1
held stored = 1
held marked = 1
held lost = 1
held _ = 0

abbrev pub is_queued : Phase → Bool
is_queued queued = true
is_queued _ = false

abbrev pub is_lost : Phase → Bool
is_lost lost = true
is_lost _ = false

module _ (n : ℕ) where
  -- The steps that are left: those of the chunks, and the closing of the jobs.
  abbrev pub work : Pool → ℕ
  work s = total_of to_do s.phase n + (if s.closed then 0 else 1)

  abbrev pub Moves : Pool → Pool → Type 0
  Moves s s' = (work s' < work s) ⊎ ((work s' ≡ work s) × (s'.phase ≡ s.phase))

  pub less_work :
      (i : ℕ) (ph old : Phase) (s : Pool)
      → Sane n s
      → s.phase i ≡ old
      → old ≢ kept
      → to_do ph < to_do old
      → total_of to_do (set_phase i ph s.phase) n + (if s.closed then 0 else 1) < work s
  less_work i ph old s h here moving less =
      let e =
        rw here at (total_of-set_at to_do i ph s.phase n (inside_in n s i old h here moving)) in
      omega arith

  pub Step-Moves : {s s' : Pool} → PoolStep n s s' → Sane n s → Moves s s'
  Step-Moves {s} (send i k open_jobs here first some_free) h =
      inl (less_work i fetching queued s h here (λ e. cc) (omega arith))
  Step-Moves {s} (close_jobs why) h = elim (Bool-cases s.closed) [
    | inl shut ↦ inr (ground (arith, shut), refl)
    | inr jobs ↦ inl (ground (arith, jobs))
  ]
  Step-Moves interrupt h = inr (refl, refl)
  Step-Moves {s} (read_error i here) h =
      inl (less_work i lost fetching s h here (λ e. cc) (omega arith))
  Step-Moves {s} (write_error i b here) h =
      inl (less_work i lost fetching s h here (λ e. cc) (omega arith))
  Step-Moves {s} (chunk_written i here) h =
      inl (less_work i stored fetching s h here (λ e. cc) (omega arith))
  Step-Moves {s} (chunk_marked i here) h =
      inl (less_work i marked stored s h here (λ e. cc) (omega arith))
  Step-Moves {s} (flush_error i sync_ok end here fails) h =
      inl (less_work i lost marked s h here (λ e. cc) (omega arith))
  Step-Moves {s} (chunk_flushed i sync_ok end here fine) h =
      inl (less_work i finished marked s h here (λ e. cc) (omega arith))

  -- Each worker waits for a job, holds a chunk, or has given up.
  pub record Staffed (workers : ℕ) (s : Pool) : Type 0 where
    pub staff : total_of held s.phase n + s.free ≡ workers
    pub lost_stops : (i : ℕ) → s.phase i ≡ lost → s.stopping ≡ true

  lost_before :
      (i j : ℕ) (ph : Phase) (s : Pool)
      → ph ≢ lost
      → set_phase i ph s.phase j ≡ lost
      → s.phase j ≡ lost
  lost_before i j ph s other h = elim (Bool-cases (nat_eq i j)) [
    | inl same ↦ absurd (other (rw same at h))
    | inr apart ↦ rw apart at h
  ]

  staff_moves :
      (workers i free : ℕ) (ph old : Phase) (s : Pool)
      → Sane n s
      → Staffed workers s
      → s.phase i ≡ old
      → old ≢ kept
      → held ph + free ≡ held old + s.free
      → total_of held (set_phase i ph s.phase) n + free ≡ workers
  staff_moves workers i free ph old s h t here moving same =
      let e =
        rw here at (total_of-set_at held i ph s.phase n (inside_in n s i old h here moving)) in
      let own = t.staff in omega arith

  Step-Staffed :
      (workers : ℕ) {s s' : Pool}
      → PoolStep n s s'
      → Sane n s
      → Staffed workers s
      → Staffed workers s'
  Step-Staffed workers {s} (send i k open_jobs here first some_free) h t = record {
    staff = staff_moves workers i k fetching queued s h t here (λ e. cc) (omega arith);
    lost_stops = λ j gone. t.lost_stops j (lost_before i j fetching s (λ e. cc) gone);
  }
  Step-Staffed workers (close_jobs why) h t = record { staff = t.staff; lost_stops = t.lost_stops }
  Step-Staffed workers interrupt h t = record { staff = t.staff; lost_stops = t.lost_stops }
  Step-Staffed workers {s} (read_error i here) h t = record {
    staff = staff_moves workers i s.free lost fetching s h t here (λ e. cc) refl;
    lost_stops = λ j gone. refl;
  }
  Step-Staffed workers {s} (write_error i b here) h t = record {
    staff = staff_moves workers i s.free lost fetching s h t here (λ e. cc) refl;
    lost_stops = λ j gone. refl;
  }
  Step-Staffed workers {s} (chunk_written i here) h t = record {
    staff = staff_moves workers i s.free stored fetching s h t here (λ e. cc) refl;
    lost_stops = λ j gone. t.lost_stops j (lost_before i j stored s (λ e. cc) gone);
  }
  Step-Staffed workers {s} (chunk_marked i here) h t = record {
    staff = staff_moves workers i s.free marked stored s h t here (λ e. cc) refl;
    lost_stops = λ j gone. t.lost_stops j (lost_before i j marked s (λ e. cc) gone);
  }
  Step-Staffed workers {s} (flush_error i sync_ok end here fails) h t = record {
    staff = staff_moves workers i s.free lost marked s h t here (λ e. cc) refl;
    lost_stops = λ j gone. refl;
  }
  Step-Staffed workers {s} (chunk_flushed i sync_ok end here fine) h t = record {
    staff = staff_moves workers i (suc s.free) finished marked s h t here (λ e. cc) (omega arith);
    lost_stops = λ j gone. t.lost_stops j (lost_before i j finished s (λ e. cc) gone);
  }

  initial-Staffed : (workers : ℕ) (p : PartsFile) (d : Disk) → Staffed workers (initial workers p d)
  unfolding first_phase
  initial-Staffed workers p d = record {
    staff =
        (let none_held =
            total_of-zero held (first_phase p) n (λ i inside. idle (elem i (pending p))) in
          omega arith);
    lost_stops = λ i gone. absurd (not_lost (elem i (pending p)) gone);
  }
    where
      idle : (b : Bool) → held (if b then queued else kept) ≡ 0
      idle true = refl
      idle false = refl

      not_lost : (b : Bool) → (if b then queued else kept) ≢ lost
      not_lost true = λ e. cc
      not_lost false = λ e. cc

  module _ (small : n < i64_half) (workers : ℕ) {p : PartsFile} {d : Disk}
      (r : Reach n (running p d)) where
    pub PoolReach-Staffed : {s : Pool} → PoolReach n workers p d s → Staffed workers s
    PoolReach-Staffed started = initial-Staffed workers p d
    PoolReach-Staffed (moved q step) =
        Step-Staffed workers step (PoolReach-Sane n small r q) (PoolReach-Staffed q)
