-- ===== src/Fetch.antt =====
-- `Client.ReadRange` of backfill/oldfaithful.go: the one primitive of every read of the archive. The
-- HTTP server is a parameter: what it answers to a request for the bytes from `start` to `end`,
-- `end` included, or `none` for a request that fails. A body that breaks off is a shorter body.
use epochfill.Common.{
  zero, suc, ℕ, ◌+◌, ◌-◌, ◌≤◌, ◌<◌, ◌≡◌, refl, false, not, ◌&&◌, Option, none, some, List, [], ◌∷◌,
  length, take, drop, ltb, nat_eq, if◌then◌else◌, arith, length-drop,
}
use epochfill.Go.Word.{i64_half, add64, sub64}

pub record Response : Type 0 where
  pub status : ℕ
  pub body : List ℕ

-- The buffer after a nil error, or the error.
pub data Fetched : Type 0 where
  fetched : List ℕ → Fetched
  request_failed : Fetched
  bad_status : ℕ → Fetched
  short_read : Fetched

abbrev pub with_response : ℕ → Option Response → Fetched
with_response len none = request_failed
with_response len (some r) =
    if not (nat_eq r.status 206) && not (nat_eq r.status 200)
    then bad_status r.status
    else if ltb (length r.body) len
    then short_read
    else fetched (take len r.body)

-- `into` is given by its length.
unfoldable pub read_range : (ℕ → ℕ → Option Response) → ℕ → ℕ → Fetched
read_range server start len =
    if nat_eq len 0
    then fetched []
    else with_response len (server start (sub64 (add64 start len) 1))

-- A file behind a server that answers ranges as RFC 9110 says: status 206, and the bytes asked for.
abbrev pub Serves : List ℕ → (ℕ → ℕ → Option Response) → Type 0
Serves file server =
    (start end : ℕ)
    → start ≤ end
    → end < length file
    → server start end
      ≡ some (record { status = 206; body = take (end + 1 - start) (drop start file) })

length-take_all {ℓ} : {A : Type ℓ} (n : ℕ) (l : List A) → n ≤ length l → length (take n l) ≡ n
length-take_all zero l h = refl
length-take_all (suc n) [] h = absurd (omega arith)
length-take_all (suc n) (x ∷ l) h = ground (arith, length-take_all n l)

take-take {ℓ} : {A : Type ℓ} (n : ℕ) (l : List A) → take n (take n l) ≡ take n l
take-take zero l = refl
take-take (suc n) [] = refl
take-take (suc n) (x ∷ l) = rw (take-take n l)

with_response_whole :
    (len : ℕ) (body : List ℕ)
    → len ≤ length body
    → with_response len (some (record { status = 206; body = take len body }))
      ≡ fetched (take len body)
with_response_whole len body h = ground (arith, length-take_all len body, take-take len body)

-- From a server that serves a file below 2 ^ 63 bytes, a range inside the file is read whole, the
-- empty range included.
pub read_range-Serves :
    (file : List ℕ) (server : ℕ → ℕ → Option Response) (start len : ℕ)
    → Serves file server
    → length file < i64_half
    → start + len ≤ length file
    → read_range server start len ≡ fetched (take len (drop start file))
unfolding read_range
read_range-Serves file server start zero serves small inside = refl
read_range-Serves file server start (suc k) serves small inside =
    rw (nonzero, last, serves start (start + k) (omega arith) (omega arith), count)
      (with_response_whole (suc k) (drop start file) (rw length-drop (omega arith)))
  where
    nonzero : nat_eq (suc k) 0 ≡ false
    nonzero = ground arith

    last : sub64 (add64 start (suc k)) 1 ≡ start + k
    last = unfold add64 sub64 in omega arith

    count : start + k + 1 - start ≡ suc k
    count = omega arith
