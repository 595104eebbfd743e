-- ===== src/Run/Sound.antt =====
-- From the table back to the archive: where a row that `process` of backfill/run.go adds comes from.
use epochfill.Common.{
  ℕ, ◌≡◌, ◌∙◌, refl, ap, sym, Bool, true, false, Bool-cases, inl, inr, ◌&&◌, Option, List, [], ◌∷◌,
  ◌++◌, elem, nat_equality, text_eq, text_eq_iff, Eq, arith,
}
use epochfill.Go.Text.{GoString}
use epochfill.Fetch.{Response}
use epochfill.Landing.{Landing}
use epochfill.Store.{EpochDb}
use epochfill.Store.Resume.{has_sig}
use epochfill.Block.Ipld.{Ipld}
use epochfill.Block.Region.{ParsedTx, ParsedBlock}
use epochfill.Block.Reader.{
  ReadResult, block_read, no_cid, no_location, no_anchor, empty_range, too_large, range_failed,
  region_refused, read_block,
}
use epochfill.Extract.Chain.{Chain}
use epochfill.Extract.Build.{Built, built, refused, fill_landing, build_landing, keep, collect}
use epochfill.Extract.Laws.{build_landing-Origin}
use epochfill.Run.Process.{Process, ProcessReach}
use epochfill.Run.Exact.{is_written, any_row, ProcessReach-Exact}
use epochfill.Run.EndToEnd.{Names, apply_position-sig}
use epochfill.Run.Rows.{view_meta, views, rows_read, slot_rows}

-- Some slot passes the test and has the row.
any_row-some :
    (collected : ℕ → List Landing) (s : GoString) (p : ℕ → Bool) (slots : List ℕ)
    → any_row collected s p slots ≡ true
    → (slot : ℕ) × (elem slot slots ≡ true) × (p slot ≡ true) × (has_sig s (collected slot) ≡ true)
any_row-some collected s p [] h = cc
any_row-some collected s p (slot ∷ r) h = elim (Bool-cases (p slot && has_sig s (collected slot))) [
  | inl here ↦ (slot, ground arith, ground (arith, here), ground (arith, here))
  | inr elsewhere ↦
      let (other, inside, passes, there) = any_row-some collected s p r (rw elsewhere at h) in
      (other, ground (arith, inside), passes, there)
]

module _ (ipld : Ipld) (chain : Chain) (node_of : ipld.TransactionNode → chain.Node)
    (meta_of : ipld.StatusMeta → chain.StatusMeta) (wallet : GoString) where
  -- One of the transactions names the wallet, and has the signature.
  pub record Source (sig : GoString) (txs : List (ParsedTx ipld)) : Type 0 where
    pub tx : ParsedTx ipld
    pub before : List (ParsedTx ipld)
    pub after : List (ParsedTx ipld)
    pub among : txs ≡ before ++ (tx ∷ after)
    pub names :
        Names chain wallet sig (node_of tx.node) (view_meta ipld chain node_of meta_of tx.meta)

  Source-later :
      (sig : GoString) (t : ParsedTx ipld) (txs : List (ParsedTx ipld))
      → Source sig txs
      → Source sig (t ∷ txs)
  Source-later sig t txs h = record {
    tx = h.tx;
    before = t ∷ h.before;
    after = h.after;
    among = ap (λ (l : List (ParsedTx ipld)). t ∷ l) h.among;
    names = h.names;
  }

  built_Names :
      (node : chain.Node) (meta : Option chain.StatusMeta) (leader sig : GoString) (slot n : ℕ)
      (l : Landing)
      → build_landing chain node meta wallet leader slot n ≡ built l
      → text_eq l.sig sig ≡ true
      → Names chain wallet sig node meta
  unfolding fill_landing
  built_Names node meta leader sig slot n l row same =
      let o = build_landing-Origin chain node meta wallet leader slot n l row in
      let row_sig : l.sig ≡ o.sig =
        ap (λ (m : Landing). m.sig) o.row
        ∙ apply_position-sig (fill_landing chain o.tx o.status o.sig wallet leader slot)
            (chain.position_index node) n in
      let e : o.sig ≡ sig = sym row_sig ∙ (text_eq_iff l.sig sig).0 same in
      record {
        tx = o.tx;
        status = o.status;
        more = o.others;
        one_piece = o.whole;
        decoded = o.decoded;
        signed = rw e at o.signed;
        has_status = o.has_meta;
        named = o.member;
      }

  keep-Source :
      (time : ℕ) (leader sig : GoString) (slot n : ℕ) (t : ParsedTx ipld)
      (txs : List (ParsedTx ipld)) (rest : List Landing) (b : Built)
      → build_landing chain
          (node_of t.node)
          (view_meta ipld chain node_of meta_of t.meta)
          wallet
          leader
          slot
          n
        ≡ b
      → has_sig sig (keep chain time b rest) ≡ true
      → (has_sig sig rest ≡ true → Source sig txs)
      → Source sig (t ∷ txs)
  keep-Source time leader sig slot n t txs rest (refused err) row h later =
      Source-later sig t txs (later h)
  keep-Source time leader sig slot n t txs rest (built l) row h later =
      elim (Bool-cases (text_eq l.sig sig)) [
        | inr apart ↦ Source-later sig t txs (later (rw apart at h))
        | inl same ↦ record {
          tx = t;
          before = [];
          after = txs;
          among = refl;
          names =
              built_Names (node_of t.node) (view_meta ipld chain node_of meta_of t.meta) leader sig
                slot n l row same;
        }
      ]

  collect-Source :
      (time : ℕ) (leader sig : GoString) (slot n : ℕ) (txs : List (ParsedTx ipld))
      → has_sig sig (collect chain time wallet leader slot n (views ipld chain node_of meta_of txs))
        ≡ true
      → Source sig txs
  unfolding collect
  collect-Source time leader sig slot n [] h = cc
  collect-Source time leader sig slot n (t ∷ txs) h =
      keep-Source time leader sig slot n t txs
        (collect chain time wallet leader slot n (views ipld chain node_of meta_of txs))
        (build_landing chain (node_of t.node) (view_meta ipld chain node_of meta_of t.meta) wallet
          leader slot n)
        refl h (collect-Source time leader sig slot n txs)

  -- The block that was read, and the transaction in it.
  pub record ReadSource (sig : GoString) (r : ReadResult ipld) : Type 0 where
    pub block : ParsedBlock ipld
    pub read : r ≡ block_read block
    pub source : Source sig block.txs

  rows_read-ReadSource :
      (time : ℕ) (sig : GoString) (r : ReadResult ipld)
      → has_sig sig (rows_read ipld chain node_of meta_of time wallet r) ≡ true
      → ReadSource sig r
  rows_read-ReadSource time sig (block_read p) h = record {
    block = p;
    read = refl;
    source = collect-Source time p.leader sig p.slot p.tx_count p.txs h;
  }
  rows_read-ReadSource time sig no_cid h = cc
  rows_read-ReadSource time sig no_location h = cc
  rows_read-ReadSource time sig no_anchor h = cc
  rows_read-ReadSource time sig empty_range h = cc
  rows_read-ReadSource time sig too_large h = cc
  rows_read-ReadSource time sig (range_failed f) h = cc
  rows_read-ReadSource time sig (region_refused x) h = cc

  module _ ⦃e : Eq ipld.Cid⦄ (block_cid : ℕ → Option ipld.Cid) (locate : ipld.Cid → Option (ℕ × ℕ))
      (server : ℕ → ℕ → Option Response) (now : ℕ → ℕ) where
    -- In every state that a call of `process` reaches, with its workers and its writer interleaved
    -- in any order and any read or write failing, whatever the archive holds: a signature of which
    -- the table has a row and had none before the call is the first signature of a transaction in
    -- the block that `ReadBlock` read for some pending slot that is written; this transaction is in
    -- one piece, decodes, has a status, and names the wallet.
    pub table_to_archive :
        {workers : ℕ} {pending : List ℕ} {db : EpochDb} {s : Process} (sig : GoString)
        → ProcessReach
            (slot_rows ipld chain node_of meta_of block_cid locate server now wallet)
            workers
            pending
            db
            s
        → has_sig sig db.landings ≡ false
        → has_sig sig s.db.landings ≡ true
        → (slot : ℕ) × (elem slot pending ≡ true)
          × (is_written (s.phase slot) ≡ true)
          × ReadSource sig (read_block ipld block_cid locate server slot)
    unfolding slot_rows
    table_to_archive {workers} {pending} {db} {s} sig q fresh there =
        let rows = slot_rows ipld chain node_of meta_of block_cid locate server now wallet in
        let exact = (ProcessReach-Exact rows pending db q).rows sig in
        let added : any_row rows sig (λ j. is_written (s.phase j)) pending ≡ true =
          ground (arith, exact, fresh, there) in
        let (slot, inside, written, has) =
          any_row-some rows sig (λ j. is_written (s.phase j)) pending added in
        (
          slot,
          inside,
          written,
          rows_read-ReadSource (now slot) sig (read_block ipld block_cid locate server slot) has,
        )
