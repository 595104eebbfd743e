-- ===== src/Download/Live.antt =====
-- From every state, the download of backfill/oldfaithful.go can go on to its end.
use epochfill.Common.{
  ℕ, zero, suc, ◌<◌, ◌≡◌, ◌≢◌, refl, ◌⊎◌, inl, inr, true, false, Bool-cases, arith, total_of-zero,
  search,
}
use epochfill.Go.Word.{i64_half}
use epochfill.Parts.{PartsFile, Disk, maybe_flush, whole}
use epochfill.Parts.Steps.{running, Reach}
use epochfill.Download.{Phase, kept, queued, fetching, stored, marked, finished, lost}
use epochfill.Download.Pool.{
  Pool, PoolStep, send, close_jobs, chunk_written, chunk_marked, flush_error, chunk_flushed,
  PoolReach, in_flight, Ended,
}
use epochfill.Download.Complete.{Sane, PoolReach-Sane}
use epochfill.Download.Ending.{
  held, is_queued, is_lost, work, Moves, less_work, Step-Moves, Staffed, PoolReach-Staffed,
}

module _ (n : ℕ) where
  -- A step that leaves less to do.
  abbrev pub GoesOn : Pool → Type 0
  GoesOn s = (s' : Pool) × PoolStep n s s' × (work n s' < work n s)

  -- A worker that holds a chunk can go on.
  worker-GoesOn :
      (i : ℕ) (ph : Phase) (s : Pool) → Sane n s → s.phase i ≡ ph → in_flight ph ≡ true → GoesOn s
  worker-GoesOn i fetching s h here busy =
      (_, chunk_written i here, less_work n i stored fetching s h here (λ e. cc) (omega arith))
  worker-GoesOn i stored s h here busy =
      (_, chunk_marked i here, less_work n i marked stored s h here (λ e. cc) (omega arith))
  worker-GoesOn i marked s h here busy =
      elim (Bool-cases (maybe_flush true whole s.parts s.disk).0) [
        | inl fine ↦ (
          _,
          chunk_flushed i true whole here fine,
          less_work n i finished marked s h here (λ e. cc) (omega arith),
        )
        | inr fails ↦ (
          _,
          flush_error i true whole here fails,
          less_work n i lost marked s h here (λ e. cc) (omega arith),
        )
      ]
  worker-GoesOn i kept s h here busy = cc
  worker-GoesOn i queued s h here busy = cc
  worker-GoesOn i finished s h here busy = cc
  worker-GoesOn i lost s h here busy = cc

  is_queued-queued : (ph : Phase) → is_queued ph ≡ true → ph ≡ queued
  is_queued-queued queued h = refl
  is_queued-queued kept h = cc
  is_queued-queued fetching h = cc
  is_queued-queued stored h = cc
  is_queued-queued marked h = cc
  is_queued-queued finished h = cc
  is_queued-queued lost h = cc

  is_lost-lost : (ph : Phase) → is_lost ph ≡ true → ph ≡ lost
  is_lost-lost lost h = refl
  is_lost-lost kept h = cc
  is_lost-lost queued h = cc
  is_lost-lost fetching h = cc
  is_lost-lost stored h = cc
  is_lost-lost marked h = cc
  is_lost-lost finished h = cc

  none_held : (ph : Phase) → in_flight ph ≡ false → is_lost ph ≡ false → held ph ≡ 0
  none_held kept busy gone = refl
  none_held queued busy gone = refl
  none_held fetching busy gone = cc
  none_held stored busy gone = cc
  none_held marked busy gone = cc
  none_held finished busy gone = refl
  none_held lost busy gone = cc

  not_queued : (ph : Phase) → is_queued ph ≡ false → ph ≢ queued
  not_queued ph h = λ e. cc (rw e at h)

  -- Without a free worker, and with none at work, one has given up.
  all_lost :
      (workers : ℕ) (s : Pool)
      → Staffed n workers s
      → 0 < workers
      → s.free ≡ 0
      → ((i : ℕ) → i < n → in_flight (s.phase i) ≡ false)
      → s.stopping ≡ true
  all_lost workers s t some_workers none_free idle = elim (search is_lost s.phase n) [
    | inl (i, inside, gone, first) ↦ t.lost_stops i (is_lost-lost (s.phase i) gone)
    | inr none_lost ↦
        let e =
          total_of-zero held s.phase n
            (λ i inside. none_held (s.phase i) (idle i inside) (none_lost i inside)) in
        let own = t.staff in absurd (omega arith)
  ]

  closing : (s : Pool) → s.closed ≡ false → work n (record s { closed = true }) < work n s
  closing s jobs = ground (arith, jobs)

  -- With the jobs open and no worker at work, the dispatcher can go on.
  dispatcher-GoesOn :
      (workers : ℕ) (s : Pool)
      → Sane n s
      → Staffed n workers s
      → 0 < workers
      → s.closed ≡ false
      → ((i : ℕ) → i < n → in_flight (s.phase i) ≡ false)
      → GoesOn s
  dispatcher-GoesOn workers s h t some_workers jobs idle = elim (search is_queued s.phase n) [
    | inl (i, inside, waits, first) ↦
        by_free s.free refl i (is_queued-queued (s.phase i) waits) first
    | inr none_waits ↦ (
      _,
      close_jobs (inl (λ i inside. not_queued (s.phase i) (none_waits i inside))),
      closing s jobs,
    )
  ]
    where
      by_free :
          (k : ℕ)
          → s.free ≡ k
          → (i : ℕ) → s.phase i ≡ queued
          → ((j : ℕ) → j < i → is_queued (s.phase j) ≡ false)
          → GoesOn s
      by_free zero none_free i here first = (
        _,
        close_jobs (inr (inl (all_lost workers s t some_workers none_free idle))),
        closing s jobs,
      )
      by_free (suc k) some_free i here first = (
        _,
        send i k jobs here (λ j less. not_queued (s.phase j) (first j less)) some_free,
        less_work n i fetching queued s h here (λ e. cc) (omega arith),
      )

  -- For a download of `n` chunks, fewer than 2 ^ 63, that has a worker and starts on whatever earlier
  -- ones have left: in every state that the workers and the dispatcher reach, they have ended, or some
  -- step is possible that leaves less to do; and every step that is possible leaves less to do, or
  -- leaves as much and every chunk in its phase.
  pub download_ends :
      (workers : ℕ) {p : PartsFile} {d : Disk} {s : Pool}
      → n < i64_half
      → 0 < workers
      → Reach n (running p d)
      → PoolReach n workers p d s
      → (Ended n s ⊎ GoesOn s) × ((s' : Pool) → PoolStep n s s' → Moves n s s')
  download_ends workers {s = s} small some_workers r q =
      let h = PoolReach-Sane n small r q in
      let t = PoolReach-Staffed n small workers r q in
      (
        elim (search in_flight s.phase n) [
          | inl (i, inside, busy, first) ↦ inr (worker-GoesOn i (s.phase i) s h refl busy)
          | inr idle ↦ elim (Bool-cases s.closed) [
            | inl shut ↦ inl (record { no_jobs = shut; idle = idle })
            | inr jobs ↦ inr (dispatcher-GoesOn workers s h t some_workers jobs idle)
          ]
        ],
        λ s' step. Step-Moves n step h,
      )
