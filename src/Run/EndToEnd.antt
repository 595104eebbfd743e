-- ===== src/Run/EndToEnd.antt =====
-- From the archive to the table: a transaction of a slot's block that names the wallet, and the row
-- of its signature.
use epochfill.Common.{
  ℕ, ◌+◌, ◌<◌, ◌≤◌, ◌≡◌, ◌∙◌, refl, ap, Bool, true, false, Option, none, some, List, [], ◌∷◌, ◌++◌,
  length, elem, nat_equality, text_equality, text_eq_iff, Eq, arith,
}
use epochfill.Go.Text.{GoString}
use epochfill.Go.Map.{lookup}
use epochfill.Go.Word.{i64_half}
use epochfill.Car.{Section}
use epochfill.Car.Encode.{encode_all}
use epochfill.Fetch.{Response, Serves}
use epochfill.Landing.{Landing}
use epochfill.Store.{EpochDb, pending_slots}
use epochfill.Store.Resume.{has_sig, AllPresent}
use epochfill.Block.Ipld.{Ipld}
use epochfill.Block.Region.{ParsedTx, ParsedBlock, kind_block}
use epochfill.Block.Membership.{Stored, has_kind, cids}
use epochfill.Block.Assembly.{found_entries, entry_txs}
use epochfill.Block.Reader.{anchor, max_region_bytes}
use epochfill.Block.Anchor.{read_block-encode_all}
use epochfill.Extract.Chain.{Chain}
use epochfill.Extract.Programs.{resolve_keys, contains_key}
use epochfill.Extract.Build.{
  Built, built, refused, apply_position, fill_landing, is_split, build_landing, keep, collect,
}
use epochfill.Run.{RunReach, meta_discovered, yes_text}
use epochfill.Run.Process.{Process, ProcessReach, ProcessEnded}
use epochfill.Run.Finished.{process_complete}
use epochfill.Run.Rows.{view_meta, views, rows_of_block, slot_rows}

pub apply_position-sig :
    (l : Landing) (idx : Option ℕ) (n : ℕ) → (apply_position l idx n).sig ≡ l.sig
unfolding apply_position
apply_position-sig l none n = refl
apply_position-sig l (some idx) n = ground arith

AllPresent-has_sig :
    (s : GoString) (ls rows : List Landing)
    → AllPresent ls rows
    → has_sig s ls ≡ true
    → has_sig s rows ≡ true
AllPresent-has_sig s [] rows h there = cc
AllPresent-has_sig s (l ∷ ls) rows h there =
    ground (arith, text_eq_iff l.sig s, AllPresent-has_sig s ls rows h.1)

module _ (chain : Chain) where
  open chain use {Node, Tx, StatusMeta, data_total, data_bytes, decode_tx, signatures}

  -- The transaction is in one piece and decodes, has a first signature and a status, and names the
  -- wallet among its keys.
  pub record Names (wallet sig : GoString) (node : Node) (meta : Option StatusMeta) : Type 0 where
    pub tx : Tx
    pub status : StatusMeta
    pub more : List GoString
    pub one_piece : is_split chain (data_total node) ≡ false
    pub decoded : decode_tx (data_bytes node) ≡ some tx
    pub signed : signatures tx ≡ sig ∷ more
    pub has_status : meta ≡ some status
    pub named : contains_key chain (resolve_keys chain tx status) wallet ≡ true

  build_landing-Names :
      (wallet sig leader : GoString) (slot n : ℕ) (node : Node) (meta : Option StatusMeta)
      → Names wallet sig node meta
      → (l : Landing) × (build_landing chain node meta wallet leader slot n ≡ built l)
        × (l.sig ≡ sig)
  unfolding build_landing fill_landing
  build_landing-Names wallet sig leader slot n node meta h = (
    apply_position (fill_landing chain h.tx h.status sig wallet leader slot)
        (chain.position_index node) n,
    rw (h.one_piece, h.decoded, h.signed, h.has_status, h.named),
    apply_position-sig (fill_landing chain h.tx h.status sig wallet leader slot)
        (chain.position_index node) n,
  )

  keep-has_sig :
      (now : ℕ) (s : GoString) (b : Built) (rest : List Landing)
      → has_sig s rest ≡ true
      → has_sig s (keep chain now b rest) ≡ true
  keep-has_sig now s (built l) rest h = ground (arith, h)
  keep-has_sig now s (refused e) rest h = h

  collect-has_sig :
      (now : ℕ) (wallet sig leader : GoString) (slot n : ℕ) (node : Node) (meta : Option StatusMeta)
      (before after : List (Node × Option StatusMeta))
      → Names wallet sig node meta
      → has_sig sig (collect chain now wallet leader slot n (before ++ ((node, meta) ∷ after)))
        ≡ true
  unfolding collect
  collect-has_sig now wallet sig leader slot n node meta [] after h =
      let (l, row, same) = build_landing-Names wallet sig leader slot n node meta h in
      rw row (ground (arith, text_eq_iff l.sig sig, same))
  collect-has_sig now wallet sig leader slot n node meta ((other, status) ∷ before) after h =
      keep-has_sig now sig (build_landing chain other status wallet leader slot n)
        (collect chain now wallet leader slot n (before ++ ((node, meta) ∷ after)))
        (collect-has_sig now wallet sig leader slot n node meta before after h)

module _ (ipld : Ipld) ⦃e : Eq ipld.Cid⦄ (cid_bytes : ipld.Cid → List ℕ)
    (decodes : (c : ipld.Cid) (d : List ℕ)
      → ipld.cid_from_bytes (cid_bytes c ++ d) ≡ some (length (cid_bytes c), c))
    (nonempty : (c : ipld.Cid) → 0 < length (cid_bytes c)) (chain : Chain)
    (node_of : ipld.TransactionNode → chain.Node) (meta_of : ipld.StatusMeta → chain.StatusMeta)
    (block_cid : ℕ → Option ipld.Cid) (locate : ipld.Cid → Option (ℕ × ℕ))
    (server : ℕ → ℕ → Option Response) (now : ℕ → ℕ) (wallet : GoString) where
  open ipld use {Cid, BlockNode, decode_block, entry_links}

  views-append :
      (l m : List (ParsedTx ipld))
      → views ipld chain node_of meta_of (l ++ m)
        ≡ views ipld chain node_of meta_of l ++ views ipld chain node_of meta_of m
  views-append [] m = refl
  views-append (t ∷ l) m =
      ap (λ r. (node_of t.node, view_meta ipld chain node_of meta_of t.meta) ∷ r) (views-append l m)

  rows_of_block-has_sig :
      (sig : GoString) (time : ℕ) (p : ParsedBlock ipld) (t : ParsedTx ipld)
      (before after : List (ParsedTx ipld))
      → p.txs ≡ before ++ (t ∷ after)
      → Names chain wallet sig (node_of t.node) (view_meta ipld chain node_of meta_of t.meta)
      → has_sig sig (rows_of_block ipld chain node_of meta_of time wallet p) ≡ true
  rows_of_block-has_sig sig time p t before after split h =
      ap
        (λ txs. has_sig sig (
          collect chain time wallet p.leader p.slot p.tx_count
            (views ipld chain node_of meta_of txs)))
        split
      ∙ (ap (λ l. has_sig sig (collect chain time wallet p.leader p.slot p.tx_count l))
            (views-append before (t ∷ after))
          ∙ collect-has_sig chain time wallet sig p.leader p.slot p.tx_count (node_of t.node)
              (view_meta ipld chain node_of meta_of t.meta)
              (views ipld chain node_of meta_of before) (views ipld chain node_of meta_of after) h)

  -- For a run whose rows are those that the workers read from the archive, and a discovered slot
  -- whose block lies in the archive as for `ReadBlock` (a CID decoder that reads back each CID and
  -- CIDs that are not empty, a server that serves the archive, below 2 ^ 63 bytes, as ranges, indexes
  -- with which the nodes from the slot's anchor to the end of its block node, at most 128 MiB, hold
  -- that node, which decodes, with each CID naming the same bytes): if `process` has ended on the pending slots without failure and without
  -- being cancelled, then each transaction of the block's entries that is in one piece, decodes, has
  -- a status, and names the wallet has a row of its first signature in the table.
  pub archive_to_table :
      {wanted pending : List ℕ} {db : EpochDb} {s : Process} (workers : ℕ) (faults : ℕ → Bool)
      (slot : ℕ) (front back : List ℕ) (store : Cid → Option (List ℕ)) (xs : List (Section Cid))
      (want : Cid) (bytes : List ℕ) (b : BlockNode) (off size : ℕ) (sig : GoString)
      (t : ParsedTx ipld) (before after : List (ParsedTx ipld))
      → RunReach wanted (slot_rows ipld chain node_of meta_of block_cid locate server now wallet) db
      → lookup meta_discovered db.meta ≡ some yes_text
      → pending_slots faults db ≡ some pending
      → ProcessReach
          (slot_rows ipld chain node_of meta_of block_cid locate server now wallet)
          workers
          pending
          db
          s
      → ProcessEnded s
      → s.cancelled ≡ false
      → s.failures ≡ 0
      → elem slot wanted ≡ true
      → block_cid slot ≡ some want
      → locate want ≡ some (off, size)
      → off + size ≡ length front + length (encode_all cid_bytes xs)
      → anchor ipld block_cid locate slot ≡ some (length front)
      → Serves (front ++ (encode_all cid_bytes xs ++ back)) server
      → length (front ++ (encode_all cid_bytes xs ++ back)) < i64_half
      → length (encode_all cid_bytes xs) ≤ max_region_bytes
      → Stored ipld store xs
      → elem want (cids ipld xs) ≡ true
      → store want ≡ some bytes
      → has_kind kind_block bytes ≡ true
      → decode_block bytes ≡ some b
      → entry_txs ipld store xs (found_entries ipld store xs (entry_links b))
        ≡ before ++ (t ∷ after)
      → Names chain wallet sig (node_of t.node) (view_meta ipld chain node_of meta_of t.meta)
      → has_sig sig s.db.landings ≡ true
  unfolding slot_rows
  archive_to_table {wanted} {pending} {db} {s} workers faults slot front back store xs want bytes b
        off size sig t before after r flag listed q ended calm none_failed here has_cid located ends
        starts serves small capped stored inside stored_bytes kind decoded split names =
      let rows = slot_rows ipld chain node_of meta_of block_cid locate server now wallet in
      let (p, read, same_slot, bytes_read, count, txs, leader) =
        read_block-encode_all ipld cid_bytes decodes nonempty block_cid locate server slot front
          back store xs want bytes b off size has_cid located ends starts serves small capped stored
          inside stored_bytes kind decoded in
      AllPresent-has_sig sig (rows slot) s.db.landings
        ((process_complete wanted rows workers faults r flag listed q ended calm none_failed).1 slot
          here)
        (rw read (rows_of_block-has_sig sig (now slot) p t before after (txs ∙ split) names))
