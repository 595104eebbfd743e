-- ===== src/Examples/EndToEnd.antt =====
-- One slot from the archive to the table.
use epochfill.Common.{
  ℕ, ◌≡◌, refl, true, false, elem, some, List, [], ◌∷◌, nat_equality, text_equality,
}
use epochfill.Go.Text.{GoString, bytes_of}
use epochfill.Block.Region.{ParsedTx, decode_meta}
use epochfill.Landing.{Landing}
use epochfill.Store.Resume.{has_sig}
use epochfill.Extract.Programs.{resolve_keys, contains_key}
use epochfill.Run.Rows.{slot_rows}
use epochfill.Run.Exact.{is_written}
use epochfill.Run.Sound.{ReadSource, table_to_archive}
use epochfill.Block.Reader.{read_block}
use epochfill.Run.EndToEnd.{Names, archive_to_table}
use epochfill.Examples.Archive.{
  archive, cid_byte, reads_back, one_byte, content, contents, sections, contents-Stored,
}
use epochfill.Examples.Requests.{
  slot_cids, places, file, ranged, ranged-Serves, anchored, file_end, file_small, capped,
}
use epochfill.Examples.Ledger.{ledger}
use epochfill.Examples.Database.{no_fault}
use epochfill.Examples.Slots.{empty_table, found, one_run, flagged, one_pending, at_end, ran, ended}

abbrev wallet : GoString
wallet = bytes_of "w"

abbrev rows : ℕ → List Landing
rows = slot_rows archive ledger (λ n. n) (λ m. tt) slot_cids places (ranged file) (λ slot. 0) wallet

abbrev tx_of : List ℕ → ParsedTx archive
tx_of node = record { node = node; meta = decode_meta archive node }

-- The node's bytes are its keys here, and the second is the wallet's.
second-Names : Names ledger wallet (bytes_of "sig") (132 ∷ 0 ∷ 8 ∷ []) (some tt)
unfolding contains_key resolve_keys
second-Names = record {
  tx = 132 ∷ 0 ∷ 8 ∷ [];
  status = tt;
  more = [];
  one_piece = refl;
  decoded = refl;
  signed = refl;
  has_status = refl;
  named = refl;
}

archive_to_table_example : has_sig (bytes_of "sig") (at_end rows).db.landings ≡ true
unfolding decode_meta
archive_to_table_example =
    archive_to_table archive cid_byte reads_back one_byte ledger (λ n. n) (λ m. tt) slot_cids places
      (ranged file) (λ slot. 0) wallet {s = at_end rows} 1 no_fault 7 (1 ∷ 2 ∷ 3 ∷ []) (9 ∷ [])
      content (sections contents) 30 (132 ∷ 2 ∷ 10 ∷ []) (132 ∷ 2 ∷ 10 ∷ []) 23 5 (bytes_of "sig")
      (tx_of (132 ∷ 0 ∷ 8 ∷ [])) (tx_of (132 ∷ 0 ∷ 7 ∷ []) ∷ []) [] (one_run rows) flagged
      one_pending (ran rows) (ended rows) refl refl refl refl refl file_end anchored
      (ranged-Serves file) file_small capped contents-Stored refl refl refl refl refl second-Names

row_there : has_sig (bytes_of "sig") (at_end rows).db.landings ≡ true
unfolding decode_meta
row_there =
    archive_to_table archive cid_byte reads_back one_byte ledger (λ n. n) (λ m. tt) slot_cids places
      (ranged file) (λ slot. 0) wallet {s = at_end rows} 1 no_fault 7 (1 ∷ 2 ∷ 3 ∷ []) (9 ∷ [])
      content (sections contents) 30 (132 ∷ 2 ∷ 10 ∷ []) (132 ∷ 2 ∷ 10 ∷ []) 23 5 (bytes_of "sig")
      (tx_of (132 ∷ 0 ∷ 8 ∷ [])) (tx_of (132 ∷ 0 ∷ 7 ∷ []) ∷ []) [] (one_run rows) flagged
      one_pending (ran rows) (ended rows) refl refl refl refl refl file_end anchored
      (ranged-Serves file) file_small capped contents-Stored refl refl refl refl refl second-Names

no_row : has_sig (bytes_of "sig") found.landings ≡ false
no_row = rw empty_table refl

table_to_archive_example :
    (slot : ℕ) × (elem slot (7 ∷ []) ≡ true)
    × (is_written ((at_end rows).phase slot) ≡ true)
    × ReadSource archive ledger
        (λ n. n)
        (λ m. tt)
        wallet
        (bytes_of "sig")
        (read_block archive slot_cids places (ranged file) slot)
table_to_archive_example =
    table_to_archive archive ledger (λ n. n) (λ m. tt) wallet slot_cids places (ranged file)
      (λ slot. 0) {s = at_end rows} (bytes_of "sig") (ran rows) no_row row_there
