-- ===== src/Client.antt =====
-- `Client` of backfill/oldfaithful.go: the size of its pool of connections, the URLs, and the root
-- CID; and `worker_count`, the workers that `runChunks` starts.
pub mod Sizes
use epochfill.Common.{
  ℕ, ◌+◌, ◌*◌, ◌%◌, Bool, true, false, Option, none, some, List, [], ◌∷◌, ◌++◌, take, nat_eq, ltb,
  ◌==◌, text_equality, if◌then◌else◌,
}
use epochfill.Go.Word.{u64_mod, lt_i64}
use epochfill.Go.Text.{GoString, bytes_of, trim_space}
use epochfill.Go.Decimal.{format_uint, atoi}

abbrev pub endpoint : GoString
endpoint = bytes_of "https://files.old-faithful.net"

abbrev pub default_download_concurrency : ℕ
default_download_concurrency = 16

-- The fields are `int`s, as patterns. `max_conns` is also `MaxIdleConnsPerHost`.
pub record Client : Type 0 where
  pub download_concurrency : ℕ
  pub max_conns : ℕ
  pub max_idle : ℕ

abbrev pub sized : ℕ → Client
sized max_parallel = record {
  download_concurrency = default_download_concurrency;
  max_conns = max_parallel;
  max_idle = (max_parallel * 2) % u64_mod;
}

-- `NewClient`
unfoldable pub new_client : ℕ → Client
new_client max_parallel =
    if lt_i64 max_parallel default_download_concurrency
    then sized default_download_concurrency
    else sized max_parallel

-- The client that `Run` makes.
unfoldable pub client_for : ℕ → ℕ → Client
client_for concurrency download_concurrency =
    let client =
      new_client
        (if lt_i64 concurrency download_concurrency then download_concurrency else concurrency) in
    if lt_i64 0 download_concurrency
    then record client { download_concurrency = download_concurrency }
    else client

-- `cfg.Concurrency` after its default.
unfoldable pub slot_workers : ℕ → ℕ
slot_workers concurrency = if lt_i64 0 concurrency then concurrency else 32

-- `workers` of `runChunks`, for `todo` chunks.
unfoldable pub worker_count : ℕ → ℕ → ℕ
worker_count concurrency todo =
    let workers = if lt_i64 0 concurrency then concurrency else default_download_concurrency in
    if lt_i64 todo workers then todo else workers

abbrev epoch_dir : ℕ → GoString
epoch_dir epoch =
    endpoint ++ (bytes_of "/" ++ (format_uint epoch ++ (bytes_of "/epoch-" ++ format_uint epoch)))

-- `CarURL`, `cidURL`, `IndexURL` and `GsfaURL`
unfoldable pub car_url : ℕ → GoString
car_url epoch = epoch_dir epoch ++ bytes_of ".car"

unfoldable pub cid_url : ℕ → GoString
cid_url epoch = epoch_dir epoch ++ bytes_of ".cid"

unfoldable pub index_url : ℕ → GoString → GoString → GoString
index_url epoch root_cid name =
    epoch_dir epoch
    ++ (bytes_of "-" ++ (root_cid ++ (bytes_of "-mainnet-" ++ (name ++ bytes_of ".index"))))

unfoldable pub gsfa_url : ℕ → GoString
gsfa_url epoch = epoch_dir epoch ++ bytes_of "-gsfa.index.tar.zstd"

-- `http.Client.Do` of a GET: an error, or the status and the body, `none` for an error on the way.
pub data Answer : Type 0 where
  no_answer : Answer
  answer : ℕ → Option (List ℕ) → Answer

pub data RootCid : Type 0 where
  root_cid : GoString → RootCid
  no_response bad_body empty_response : RootCid
  bad_status : ℕ → RootCid

abbrev pub trimmed : GoString → RootCid
trimmed cid = if cid == [] then empty_response else root_cid cid

abbrev pub with_body : Option (List ℕ) → RootCid
with_body none = bad_body
with_body (some body) = trimmed (trim_space (take 512 body))

-- `RootCID`, for a body of ASCII text.
unfoldable pub fetch_root_cid : (GoString → Answer) → ℕ → RootCid
fetch_root_cid get epoch = elim (get (cid_url epoch)) [
  | no_answer ↦ no_response
  | answer status body ↦ if nat_eq status 200 then with_body body else bad_status status
]

-- `Size`, from the answer to a HEAD request: its status, and the text of its content-length; `none` is
-- an error.
unfoldable pub head_size : Option (ℕ × GoString) → Option ℕ
head_size none = none
head_size (some (status, content_length)) = if nat_eq status 200 then atoi content_length else none
