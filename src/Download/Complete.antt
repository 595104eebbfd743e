-- ===== src/Download/Complete.antt =====
-- A download that returns nil has every chunk.
use epochfill.Common.{
  ℕ, suc, ◌<◌, ◌≡◌, ◌≢◌, ◌∙◌, refl, ap, sym, ◌⊎◌, inl, inr, Bool, true, false, Bool-cases, List, [],
  ◌∷◌, ◌++◌, elem, nat_eq, nat_eq→eq, nat_equality, arith,
}
use mathlib.Core.Path.{subst}
use epochfill.Go.Word.{i64_half}
use epochfill.Parts.{PartsFile, Disk, pending, mark_done, maybe_flush}
use epochfill.Parts.Claims.{claims, claims-mark_done, mark_done-claims}
use epochfill.Parts.Steps.{put, running, store, mark, flush_maybe, Reach, next}
use epochfill.Parts.Crash.{running_size}
use epochfill.Download.{
  ChunkError, read_failed, write_failed, flush_failed, Phase, kept, queued, fetching, stored,
  marked, finished, lost, first_phase,
}
use epochfill.Download.Marks.{
  mark_done_marks, pending-claims, pending-lt, claims-pending, maybe_flush_keeps, has_error,
  has_error-append,
}
use epochfill.Download.Pool.{
  Pool, set_phase, give_up, wrote, initial, PoolStep, send, close_jobs, interrupt, read_error,
  write_error, chunk_written, chunk_marked, flush_error, chunk_flushed, PoolReach, started, moved,
}

-- What a phase says of the sidecar's claim, of the data file, and of the channel of errors.
abbrev pub Fits : Phase → Bool → Bool → Bool → Type 0
Fits kept claimed there failed = claimed ≡ true
Fits queued claimed there failed = claimed ≡ false
Fits fetching claimed there failed = claimed ≡ false
Fits stored claimed there failed = (claimed ≡ false) × (there ≡ true)
Fits marked claimed there failed = claimed ≡ true
Fits finished claimed there failed = claimed ≡ true
Fits lost claimed there failed = failed ≡ true

Fits-failed :
    (ph : Phase) (claimed there failed : Bool)
    → Fits ph claimed there failed
    → Fits ph claimed there true
Fits-failed kept claimed there failed h = h
Fits-failed queued claimed there failed h = h
Fits-failed fetching claimed there failed h = h
Fits-failed stored claimed there failed h = h
Fits-failed marked claimed there failed h = h
Fits-failed finished claimed there failed h = h
Fits-failed lost claimed there failed h = refl

module _ (n : ℕ) where
  abbrev pub AllFit : (ℕ → Phase) → List ℕ → (ℕ → Bool) → Bool → Type 0
  AllFit phase state there failed =
      (j : ℕ) → j < n → Fits (phase j) (claims state j) (there j) failed

  -- One chunk moves on, and all else about the others stays as it was.
  move-AllFit :
      (i : ℕ) (ph : Phase) (phase : ℕ → Phase) (state state' : List ℕ) (there there' : ℕ → Bool)
      (failed failed' : Bool)
      → AllFit phase state there failed
      → ((j : ℕ) → nat_eq i j ≡ false → (claims state' j ≡ claims state j) × (there' j ≡ there j))
      → (failed' ≡ failed) ⊎ (failed' ≡ true)
      → (i < n → Fits ph (claims state' i) (there' i) failed')
      → AllFit (set_phase i ph phase) state' there' failed'
  move-AllFit i ph phase state state' there there' failed failed' all others more own j inside =
      elim (Bool-cases (nat_eq i j)) [
        | inl same ↦ rw same (
            subst (λ k. k < n → Fits ph (claims state' k) (there' k) failed') (nat_eq→eq i j same)
              own inside)
        | inr apart ↦
            let (claim, on) = others j apart in
            rw (apart, claim, on)
              (elim more [
                | inl e ↦ rw e (all j inside)
                | inr e ↦
                    rw e (Fits-failed (phase j) (claims state j) (there j) failed (all j inside))
              ])
      ]

  -- Once the jobs are closed, a chunk is still queued only if a context is done.
  abbrev pub Left : Pool → Type 0
  Left s =
      s.closed ≡ true
      → (i : ℕ) → i < n
      → s.phase i ≡ queued
      → (s.stopping ≡ true) ⊎ (s.parent_done ≡ true)

  pub record Sane (s : Pool) : Type 0 where
    pub reach : Reach n (running s.parts s.disk)
    pub fits : AllFit s.phase s.parts.state s.disk.written (has_error s.errs)
    pub stopped_by : s.stopping ≡ true → has_error s.errs ≡ true
    pub left : Left s
    pub range : (i : ℕ) → s.phase i ≢ kept → i < n

  not_requeued :
      (i j : ℕ) (ph : Phase) (phase : ℕ → Phase)
      → ph ≢ queued
      → set_phase i ph phase j ≡ queued
      → phase j ≡ queued
  not_requeued i j ph phase other h = elim (Bool-cases (nat_eq i j)) [
    | inl same ↦ absurd (other (rw same at h))
    | inr apart ↦ rw apart at h
  ]

  set_phase-range :
      (i : ℕ) (ph : Phase) (phase : ℕ → Phase)
      → i < n
      → ((j : ℕ) → phase j ≢ kept → j < n)
      → (j : ℕ) → set_phase i ph phase j ≢ kept
      → j < n
  set_phase-range i ph phase inside all j h = elim (Bool-cases (nat_eq i j)) [
    | inl same ↦ omega (arith, nat_eq→eq i j same)
    | inr apart ↦ all j (rw apart at h)
  ]

  put_other : (i : ℕ) (b : Bool) (f : ℕ → Bool) (j : ℕ) → nat_eq i j ≡ false → put i b f j ≡ f j
  put_other i b f j h = rw h

  put_self : (i : ℕ) (b : Bool) (f : ℕ → Bool) → put i b f i ≡ b
  put_self i b f = let e : nat_eq i i ≡ true = ground arith in rw e

  same_claims :
      (i j : ℕ) (p : PartsFile)
      → nat_eq i j ≡ false
      → claims (mark_done i p).state j ≡ claims p.state j
  same_claims i j p apart = elim (Bool-cases (claims p.state j)) [
    | inl on ↦ mark_done-claims i j p on ∙ sym on
    | inr off ↦ elim (Bool-cases (claims (mark_done i p).state j)) [
      | inl on ↦ absurd (cc (claims-mark_done i j p on apart, off))
      | inr off' ↦ off' ∙ sym off
    ]
  ]

  -- A worker that ends with an error after the disk and the sidecar have changed, the data file
  -- at this chunk only.
  give_up-Sane :
      (i : ℕ) (e : ChunkError) (s t : Pool)
      → Sane s
      → Reach n (running t.parts t.disk)
      → t.parts.state ≡ s.parts.state
      → ((j : ℕ) → nat_eq i j ≡ false → t.disk.written j ≡ s.disk.written j)
      → t.phase ≡ s.phase
      → t.errs ≡ s.errs
      → i < n
      → Sane (give_up i e t)
  give_up-Sane i e s t h reach state there phase errs own = record {
    reach = reach;
    fits =
        move-AllFit i lost t.phase s.parts.state t.parts.state s.disk.written t.disk.written
          (has_error s.errs) (has_error (t.errs ++ (e ∷ []))) (rw phase h.fits)
          (λ j apart. (ap (λ l. claims l j) state, there j apart)) (inr (has_error-append t.errs e))
          (λ inside. has_error-append t.errs e);
    stopped_by = λ _. has_error-append t.errs e;
    left = λ shut j inside waits. inl refl;
    range = λ j. set_phase-range i lost t.phase own (rw phase h.range) j;
  }

  -- A worker that goes on.
  advance-Sane :
      (i : ℕ) (ph : Phase) (free : ℕ) (p : PartsFile) (d : Disk) (s : Pool)
      → Sane s
      → ph ≢ queued
      → Reach n (running p d)
      → ((j : ℕ)
          → nat_eq i j ≡ false
          → (claims p.state j ≡ claims s.parts.state j) × (d.written j ≡ s.disk.written j))
      → i < n
      → Fits ph (claims p.state i) (d.written i) (has_error s.errs)
      → Sane (record s { phase = set_phase i ph s.phase; free = free; parts = p; disk = d })
  advance-Sane i ph free p d s h other reach others inside_n own = record {
    reach = reach;
    fits =
        move-AllFit i ph s.phase s.parts.state p.state s.disk.written d.written (has_error s.errs)
          (has_error s.errs) h.fits others (inl refl) (λ _. own);
    stopped_by = h.stopped_by;
    left = λ shut j inside waits. h.left shut j inside (not_requeued i j ph s.phase other waits);
    range = set_phase-range i ph s.phase inside_n h.range;
  }

  -- What fits a chunk in a phase that is known.
  Fits-in :
      (s : Pool) (i : ℕ) (ph : Phase)
      → Sane s
      → s.phase i ≡ ph
      → ph ≢ kept
      → Fits ph (claims s.parts.state i) (s.disk.written i) (has_error s.errs)
  Fits-in s i ph h here moving = rw here at (h.fits i (h.range i (rw here moving)))

  pub inside_in : (s : Pool) (i : ℕ) (ph : Phase) → Sane s → s.phase i ≡ ph → ph ≢ kept → i < n
  inside_in s i ph h here moving = h.range i (rw here moving)

  module _ (small : n < i64_half) where
    Step-Sane : {s s' : Pool} → PoolStep n s s' → Sane s → Sane s'
    Step-Sane {s} (send i k open_jobs here first some_free) h =
        advance-Sane i fetching k s.parts s.disk s h (λ e. cc) h.reach (λ j apart. (refl, refl))
          (inside_in s i queued h here (λ e. cc)) (Fits-in s i queued h here (λ e. cc))
    Step-Sane {s} (close_jobs why) h = record {
      reach = h.reach;
      fits = h.fits;
      stopped_by = h.stopped_by;
      left = λ shut i inside waits. (elim why [
        | inl none_left ↦ absurd (none_left i inside waits)
        | inr done ↦ done
      ]);
      range = h.range;
    }
    Step-Sane {s} interrupt h = record {
      reach = h.reach;
      fits = h.fits;
      stopped_by = h.stopped_by;
      left = λ shut i inside waits. inr refl;
      range = h.range;
    }
    Step-Sane {s} (read_error i here) h =
        give_up-Sane i (read_failed i) s s h h.reach refl (λ j apart. refl) refl refl
          (inside_in s i fetching h here (λ e. cc))
    Step-Sane {s} (write_error i b here) h =
        give_up-Sane i (write_failed i) s (record s { disk = wrote i b s.disk }) h
          (next h.reach (store i b (Fits-in s i fetching h here (λ e. cc)))) refl
          (put_other i b s.disk.written) refl refl (inside_in s i fetching h here (λ e. cc))
    Step-Sane {s} (chunk_written i here) h =
        let todo = Fits-in s i fetching h here (λ e. cc) in
        advance-Sane i stored s.free s.parts (wrote i true s.disk) s h (λ e. cc)
          (next h.reach (store i true todo))
          (λ j apart. (refl, put_other i true s.disk.written j apart))
          (inside_in s i fetching h here (λ e. cc)) (todo, put_self i true s.disk.written)
    Step-Sane {s} (chunk_marked i here) h =
        let inside = inside_in s i stored h here (λ e. cc) in
        let size = running_size n h.reach in
        advance-Sane i marked s.free (mark_done i s.parts) s.disk s h (λ e. cc)
          (next h.reach (mark i (Fits-in s i stored h here (λ e. cc)).1))
          (λ j apart. (same_claims i j s.parts apart, refl)) inside
          (mark_done_marks i s.parts (omega (arith, size)) (omega (arith, size)))
    Step-Sane {s} (flush_error i sync_ok end here fails) h =
        let kept_state = maybe_flush_keeps sync_ok end s.parts s.disk in
        give_up-Sane i flush_failed s
          (record s {
            parts = (maybe_flush sync_ok end s.parts s.disk).1;
            disk = (maybe_flush sync_ok end s.parts s.disk).2;
          })
          h (next h.reach (flush_maybe sync_ok end)) kept_state.0
          (λ j apart. ap (λ f. f j) kept_state.1) refl refl (inside_in s i marked h here (λ e. cc))
    Step-Sane {s} (chunk_flushed i sync_ok end here fine) h =
        let kept_state = maybe_flush_keeps sync_ok end s.parts s.disk in
        advance-Sane i finished (suc s.free) (maybe_flush sync_ok end s.parts s.disk).1
          (maybe_flush sync_ok end s.parts s.disk).2 s h (λ e. cc)
          (next h.reach (flush_maybe sync_ok end))
          (λ j apart. (ap (λ l. claims l j) kept_state.0, ap (λ f. f j) kept_state.1))
          (inside_in s i marked h here (λ e. cc))
          (ap (λ l. claims l i) kept_state.0 ∙ Fits-in s i marked h here (λ e. cc))

    initial-Sane :
        (workers : ℕ) (p : PartsFile) (d : Disk)
        → Reach n (running p d)
        → Sane (initial workers p d)
    unfolding first_phase
    initial-Sane workers p d r = record {
      reach = r;
      fits = λ j inside. elim (Bool-cases (elem j (pending p))) [
        | inl todo ↦ rw todo (pending-claims p j todo)
        | inr old ↦ rw old (claims-pending p j (omega (arith, running_size n r)) old)
      ];
      stopped_by = λ h. cc;
      left = λ h. cc;
      range = λ j moving. elim (Bool-cases (elem j (pending p))) [
        | inl todo ↦ omega (arith, pending-lt p j todo, running_size n r)
        | inr old ↦ absurd (moving (rw old))
      ];
    }

    pub PoolReach-Sane :
        {workers : ℕ} {p : PartsFile} {d : Disk} {s : Pool}
        → Reach n (running p d)
        → PoolReach n workers p d s
        → Sane s
    PoolReach-Sane {workers} {p} {d} r started = initial-Sane workers p d r
    PoolReach-Sane r (moved q step) = Step-Sane step (PoolReach-Sane r q)
