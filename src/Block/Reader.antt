-- ===== src/Block/Reader.antt =====
-- `ReadBlock` and `anchor` of backfill/block.go, with `BlockCID` and `Locate` of backfill/index.go.
-- The index files' readers are parameters: a slot's CID, and a CID's offset and size.
use epochfill.Common.{ℕ, zero, suc, ◌+◌, ◌-◌, Option, none, some, leb, ltb, if◌then◌else◌, Eq}
use epochfill.Go.Word.{add64}
use epochfill.Fetch.{Response, Fetched, fetched, read_range}
use epochfill.Block.Ipld.{Ipld}
use epochfill.Block.Region.{ParsedBlock, ParseResult, parsed, parse_region}

abbrev pub max_region_bytes : ℕ
max_region_bytes = 134217728

abbrev pub max_skip_back : ℕ
max_skip_back = 200

module _ (ipld : Ipld) where
  open ipld use {Cid}

  -- The errors of `ReadBlock` in the order of its tests; `region_refused` holds the error, or the
  -- panic, of `parseRegion`.
  pub data ReadResult : Type 0 where
    block_read : ParsedBlock ipld → ReadResult
    no_cid no_location no_anchor empty_range too_large : ReadResult
    range_failed : Fetched → ReadResult
    region_refused : ParseResult ipld → ReadResult

  module _ (block_cid : ℕ → Option Cid) (locate : Cid → Option (ℕ × ℕ)) where
    -- The offset just past a block node.
    abbrev pub past : Option (ℕ × ℕ) → Option ℕ
    past none = none
    past (some (off, size)) = some (add64 off size)

    abbrev pub past_cid : Option Cid → Option ℕ
    past_cid none = none
    past_cid (some c) = past (locate c)

    abbrev pub or_else : Option ℕ → Option ℕ → Option ℕ
    or_else none rest = rest
    or_else (some n) rest = some n

    -- `for back := ...; back <= maxSkipBack && back <= slot; back++`, with the rounds that
    -- `maxSkipBack` leaves.
    unfoldable pub anchor_loop : ℕ → ℕ → ℕ → Option ℕ
    anchor_loop zero slot back = none
    anchor_loop (suc rounds) slot back =
        let rest = anchor_loop rounds slot (back + 1) in
        if leb back slot then or_else (past_cid (block_cid (slot - back))) rest else none

    unfoldable pub anchor : ℕ → Option ℕ
    anchor slot = anchor_loop max_skip_back slot 1

  module _ ⦃e : Eq Cid⦄ (block_cid : ℕ → Option Cid) (locate : Cid → Option (ℕ × ℕ))
      (server : ℕ → ℕ → Option Response) where
    abbrev pub after_parse : ℕ → ℕ → ParseResult ipld → ReadResult
    after_parse slot len (parsed p) = block_read (record p { slot = slot; bytes_read = len })
    after_parse slot len r = region_refused r

    abbrev pub after_fetch : ℕ → ℕ → Cid → Fetched → ReadResult
    after_fetch slot len c (fetched buf) = after_parse slot len (parse_region ipld buf c)
    after_fetch slot len c r = range_failed r

    abbrev pub with_anchor : ℕ → Cid → ℕ → Option ℕ → ReadResult
    with_anchor slot c end none = no_anchor
    with_anchor slot c end (some start) =
        if leb end start
        then empty_range
        else if ltb max_region_bytes (end - start)
        then too_large
        else after_fetch slot (end - start) c (read_range server start (end - start))

    abbrev pub with_location : ℕ → Cid → Option (ℕ × ℕ) → ReadResult
    with_location slot c none = no_location
    with_location slot c (some (off, size)) =
        with_anchor slot c (add64 off size) (anchor block_cid locate slot)

    abbrev pub with_block_cid : ℕ → Option Cid → ReadResult
    with_block_cid slot none = no_cid
    with_block_cid slot (some c) = with_location slot c (locate c)

    unfoldable pub read_block : ℕ → ReadResult
    read_block slot = with_block_cid slot (block_cid slot)
