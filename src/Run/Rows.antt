-- ===== src/Run/Rows.antt =====
-- What a worker of `process` of backfill/run.go makes of a slot: `ReadBlock`, and then `collect`. The
-- nodes of the archive are those of the chain: `node_of` and `meta_of` go from one record of
-- accessors to the other. `now` is the time at which a slot was collected.
use epochfill.Common.{ℕ, Option, none, some, List, [], ◌∷◌, Eq}
use epochfill.Go.Text.{GoString}
use epochfill.Landing.{Landing}
use epochfill.Fetch.{Response}
use epochfill.Block.Ipld.{Ipld}
use epochfill.Block.Region.{ParsedTx, ParsedBlock}
use epochfill.Block.Reader.{ReadResult, block_read, read_block}
use epochfill.Extract.Chain.{Chain}
use epochfill.Extract.Build.{collect}

module _ (ipld : Ipld) (chain : Chain) (node_of : ipld.TransactionNode → chain.Node)
    (meta_of : ipld.StatusMeta → chain.StatusMeta) where
  abbrev pub view_meta : Option ipld.StatusMeta → Option chain.StatusMeta
  view_meta none = none
  view_meta (some m) = some (meta_of m)

  abbrev pub views : List (ParsedTx ipld) → List (chain.Node × Option chain.StatusMeta)
  views [] = []
  views (t ∷ r) = (node_of t.node, view_meta t.meta) ∷ views r

  abbrev pub rows_of_block : ℕ → GoString → ParsedBlock ipld → List Landing
  rows_of_block now wallet p = collect chain now wallet p.leader p.slot p.tx_count (views p.txs)

  -- A slot that cannot be read has no rows; `process` counts it as a failure.
  abbrev pub rows_read : ℕ → GoString → ReadResult ipld → List Landing
  rows_read now wallet (block_read p) = rows_of_block now wallet p
  rows_read now wallet _ = []

  module _ ⦃e : Eq ipld.Cid⦄ (block_cid : ℕ → Option ipld.Cid) (locate : ipld.Cid → Option (ℕ × ℕ))
      (server : ℕ → ℕ → Option Response) where
    unfoldable pub slot_rows : (ℕ → ℕ) → GoString → ℕ → List Landing
    slot_rows now wallet slot =
        rows_read (now slot) wallet (read_block ipld block_cid locate server slot)
