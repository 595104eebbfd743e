-- ===== src/Download/Result.antt =====
-- What the result of `DownloadResumable` of backfill/oldfaithful.go means, and what the next call does.
use epochfill.Common.{
  ℕ, zero, suc, ◌+◌, ◌-◌, ◌*◌, ◌/◌, ◌<◌, ltb, if◌then◌else◌, ◌≤◌, ◌≡◌, ◌≢◌, ◌∙◌, refl, ap, inl, inr,
  Bool, true, false, not, Bool-cases, Option, none, List, [], ◌∷◌, replicate, elem, all_of, nat_eq,
  nat_equality, arith,
}
use native.Mathlib.Nat.{zero-add}
use epochfill.Go.Word.{u64_mod, i64_half, add64, sub64, mul64, div_i64, lt_i64-small}
use epochfill.Parts.{
  PartsFile, Disk, opened, new_parts, open_parts, pending, pending_from, WriteEnd, whole,
  not_opened, cut, flush, close,
}
use epochfill.Parts.Claims.{claims}
use epochfill.Parts.Steps.{reading, running, Reach}
use epochfill.Parts.Crash.{running_there}
use epochfill.Download.{
  ChunkError, Phase, kept, queued, fetching, stored, marked, finished, lost, first_error,
  chunks_result, download_chunk, chunk_count, chunk_size,
}
use epochfill.Download.Marks.{pending-claims, has_error}
use epochfill.Download.Pool.{Pool, PoolReach, in_flight, Ended}
use epochfill.Download.Complete.{Fits, Sane, PoolReach-Sane}

no_error : (errs : List ChunkError) → first_error errs ≡ none → has_error errs ≡ false
no_error [] h = refl
no_error (e ∷ r) h = cc

nil_result :
    (flush_ok parent_done : Bool) (errs : List ChunkError)
    → chunks_result flush_ok parent_done errs ≡ none
    → (flush_ok ≡ true) × (parent_done ≡ false) × (has_error errs ≡ false)
unfolding chunks_result
nil_result true false errs h = (refl, refl, no_error errs h)
nil_result true true errs h = cc
nil_result false parent_done errs h = cc

flush_synced :
    (sync_ok : Bool) (end : WriteEnd) (p : PartsFile) (d : Disk)
    → (flush sync_ok end p d).0 ≡ true
    → ((flush sync_ok end p d).1.state ≡ p.state)
      × ((flush sync_ok end p d).2.written ≡ d.written)
      × ((flush sync_ok end p d).2.durable ≡ d.written)
unfolding flush
flush_synced false end p d h = cc
flush_synced true whole p d h = (refl, refl, refl)
flush_synced true not_opened p d h = cc
flush_synced true (cut k) p d h = cc

-- A chunk that no worker holds, that is not queued and of which no error came is claimed.
Fits-done :
    (ph : Phase) (claimed there : Bool)
    → Fits ph claimed there false
    → in_flight ph ≡ false
    → ph ≢ queued
    → claimed ≡ true
Fits-done kept claimed there h idle other = h
Fits-done queued claimed there h idle other = absurd (other refl)
Fits-done fetching claimed there h idle other = cc
Fits-done stored claimed there h idle other = cc
Fits-done marked claimed there h idle other = cc
Fits-done finished claimed there h idle other = h
Fits-done lost claimed there h idle other = cc

module _ (n : ℕ) (small : n < i64_half) where
  all_claimed :
      (s : Pool)
      → Sane n s
      → Ended n s
      → s.parent_done ≡ false
      → has_error s.errs ≡ false
      → (i : ℕ) → i < n
      → claims s.parts.state i ≡ true
  all_claimed s h ended no_interrupt fine i inside =
      Fits-done (s.phase i) (claims s.parts.state i) (s.disk.written i)
        (rw fine at (h.fits i inside)) (ended.idle i inside)
        (λ waits. (elim (h.left ended.no_jobs i inside waits) [
          | inl stopped ↦ cc (h.stopped_by stopped, fine)
          | inr interrupted ↦ cc (interrupted, no_interrupt)
        ]))

  -- For a download of `n` chunks, fewer than 2 ^ 63, that starts on whatever earlier downloads,
  -- interruptions and crashes have left, with its workers interleaved in any order and failing
  -- anywhere: if the workers have ended and `runChunks` returns nil, the last flush included, then
  -- every one of the `n` chunks is written in the data file and durable, and none is pending.
  pub download_complete :
      {p : PartsFile} {d : Disk} {s : Pool} (workers : ℕ) (sync_ok : Bool) (end : WriteEnd) (i : ℕ)
      → Reach n (running p d)
      → PoolReach n workers p d s
      → Ended n s
      → chunks_result (flush sync_ok end s.parts s.disk).0 s.parent_done s.errs ≡ none
      → i < n
      → ((flush sync_ok end s.parts s.disk).2.written i ≡ true)
        × ((flush sync_ok end s.parts s.disk).2.durable i ≡ true)
        × (elem i (pending (flush sync_ok end s.parts s.disk).1) ≡ false)
  download_complete {s = s} workers sync_ok end i r q ended nil inside =
      let h = PoolReach-Sane n small r q in
      let (flushed, no_interrupt, fine) =
        nil_result (flush sync_ok end s.parts s.disk).0 s.parent_done s.errs nil in
      let (state, written, durable) = flush_synced sync_ok end s.parts s.disk flushed in
      let claimed = all_claimed s h ended no_interrupt fine i inside in
      let there = running_there n i h.reach claimed in
      (
        ap (λ f. f i) written ∙ there,
        ap (λ f. f i) durable ∙ there,
        not_pending (flush sync_ok end s.parts s.disk).1 (ap (λ l. claims l i) state ∙ claimed),
      )
    where
      not_pending : (t : PartsFile) → claims t.state i ≡ true → elem i (pending t) ≡ false
      not_pending t claim = elim (Bool-cases (elem i (pending t))) [
        | inl todo ↦ absurd (cc (pending-claims t i todo, claim))
        | inr old ↦ old
      ]

pending_new : (n i k : ℕ) → k < n → elem (i + k) (pending_from (replicate n 0) i) ≡ true
unfolding pending_from
pending_new zero i k h = absurd (omega arith)
pending_new (suc n) i zero h = ground arith
pending_new (suc n) i (suc k) h =
    ground (arith, rw shift at (pending_new n (suc i) k (omega arith)))
  where
    shift : suc i + k ≡ i + suc k
    shift = omega arith

-- After a download whose sidecar has every chunk marked, `Close` removes the sidecar, and the next
-- call, which finds none, has every one of the `n` chunks to do again.
pub download_again :
    (n i : ℕ) (p : PartsFile) (d : Disk) (remove_fails : Bool)
    → all_of (λ b. not (nat_eq b 0)) p.state ≡ true
    → i < n
    → (q : PartsFile) × (side : Option (List ℕ)) × (open_parts remove_fails
          (reading (close false p d).1.sidecar)
          n
        ≡ opened q side)
      × (elem i (pending q) ≡ true)
unfolding close open_parts
download_again n i p d remove_fails complete inside =
    (new_parts n, none, rw complete, rw zero-add at (pending_new n 0 i inside))

-- The words of the computation do not wrap for an object of fewer than 2 ^ 63 - 2 ^ 25 bytes.
chunk_count_exact :
    (total : ℕ)
    → total + download_chunk < i64_half
    → chunk_count total ≡ (total + 33554431) / 33554432
unfolding chunk_count add64 sub64 div_i64
chunk_count_exact total h = ground arith

chunk_start_exact : (idx : ℕ) → idx * 33554432 < u64_mod → mul64 idx 33554432 ≡ idx * 33554432
unfolding mul64
chunk_start_exact idx h = omega arith

rem_exact : (total start : ℕ) → start < total → total < u64_mod → sub64 total start ≡ total - start
unfolding sub64
rem_exact total start h small = omega arith

chunk_size_exact :
    (total idx : ℕ)
    → total < i64_half
    → idx * download_chunk < total
    → chunk_size total idx ≡ (
        if ltb (total - idx * download_chunk) download_chunk
        then total - idx * download_chunk
        else download_chunk)
unfolding chunk_size
chunk_size_exact total idx small inside =
    rw
      (
        chunk_start_exact idx (omega arith),
        rem_exact total (idx * 33554432) inside (omega arith),
        lt_i64-small (total - idx * 33554432) 33554432 (omega arith) (omega arith),
      )
      refl

-- For every byte of an object whose size and one chunk more are less than 2 ^ 63, there is one
-- chunk that holds it, and only one; it is no longer than 32 MiB and ends inside the object.
pub chunks_tile :
    (total b : ℕ)
    → total + download_chunk < i64_half
    → b < total
    → (idx : ℕ) × (idx < chunk_count total)
      × (idx * download_chunk ≤ b)
      × (b < idx * download_chunk + chunk_size total idx)
      × (chunk_size total idx ≤ download_chunk)
      × (idx * download_chunk + chunk_size total idx ≤ total)
      × ((other : ℕ)
          → other < chunk_count total
          → other * download_chunk ≤ b
          → b < other * download_chunk + chunk_size total other
          → other ≡ idx)
chunks_tile total b small inside =
    let size = chunk_size_exact total (b / download_chunk) (omega arith) (omega arith) in
    (
      b / download_chunk,
      rw (chunk_count_exact total small) (omega arith),
      omega arith,
      ground (arith, size),
      ground (arith, size),
      ground (arith, size),
      λ other counted low high.
          ground (arith, chunk_size_exact total other (omega arith) (omega arith)),
    )
