-- ===== src/Examples/Requests.antt =====
-- The small archive behind a server, after the block of an earlier slot.
use epochfill.Common.{
  ℕ, ◌+◌, ◌-◌, ◌%◌, ◌≤◌, ◌<◌, ◌≡◌, refl, Option, none, some, List, [], ◌∷◌, ◌++◌, length, take,
  drop, nat_equality, arith,
}
use epochfill.Go.Map.{lookup}
use epochfill.Go.Word.{u64_mod, i64_half, add64}
use epochfill.Go.Varint.{put_uvarint}
use epochfill.Car.Encode.{encode_section, encode_all}
use epochfill.Fetch.{Response, Serves}
use epochfill.Block.Region.{ParsedBlock}
use epochfill.Block.Assembly.{found_entries, count_transactions, entry_txs, leader_found}
use epochfill.Block.Reader.{block_read, anchor, anchor_loop, max_skip_back, read_block}
use epochfill.Block.Anchor.{end_before, anchor_lem, read_block-encode_all}
use epochfill.Examples.Archive.{
  archive, cid_byte, contents, content, sections, reads_back, one_byte, contents-Stored,
}

abbrev pub ranged : List ℕ → ℕ → ℕ → Option Response
ranged file start end =
    some (record { status = 206; body = take (end + 1 - start) (drop start file) })

pub ranged-Serves : (file : List ℕ) → Serves file (ranged file)
ranged-Serves file = λ start end low high. refl

-- Slot 6 was skipped; the block of slot 5 ends at offset 3.
abbrev pub slot_cids : ℕ → Option ℕ
slot_cids slot = lookup slot ((7, 30) ∷ (5, 40) ∷ [])

abbrev pub places : ℕ → Option (ℕ × ℕ)
places c = lookup c ((30, (23, 5)) ∷ (40, (0, 3)) ∷ [])

anchor_lem_example :
    ((start : ℕ)
      → anchor archive slot_cids places 7 ≡ some start
      → (back : ℕ) × (1 ≤ back)
        × (back ≤ max_skip_back)
        × (back ≤ 7)
        × (end_before archive slot_cids places 7 back ≡ some start)
        × ((b : ℕ) → 1 ≤ b → b < back → end_before archive slot_cids places 7 b ≡ none))
    × (anchor archive slot_cids places 7 ≡ none
        → (b : ℕ) → 1 ≤ b
        → b ≤ max_skip_back
        → b ≤ 7
        → end_before archive slot_cids places 7 b ≡ none)
anchor_lem_example = anchor_lem archive slot_cids places 7

pub anchored : anchor archive slot_cids places 7 ≡ some 3
unfolding anchor anchor_loop add64
anchored = refl

abbrev pub file : List ℕ
file = (1 ∷ 2 ∷ 3 ∷ []) ++ (encode_all cid_byte (sections contents) ++ (9 ∷ []))

pub file_end : 23 + 5 ≡ 3 + length (encode_all cid_byte (sections contents))
unfolding encode_section put_uvarint
file_end = omega arith

pub file_small : length file < i64_half
unfolding encode_section put_uvarint
file_small = omega arith

pub capped : length (encode_all cid_byte (sections contents)) ≤ 134217728
unfolding encode_section put_uvarint
capped = omega arith

read_block-encode_all_example :
    (p : ParsedBlock archive) × (read_block archive slot_cids places (ranged file) 7 ≡ block_read p)
    × (p.slot ≡ 7)
    × (p.bytes_read ≡ length (encode_all cid_byte (sections contents)))
    × (p.tx_count
        ≡ count_transactions archive (found_entries archive content (sections contents) (10 ∷ []))
          % u64_mod)
    × (p.txs
        ≡ entry_txs archive content
            (sections contents)
            (found_entries archive content (sections contents) (10 ∷ [])))
    × (p.leader ≡ leader_found archive content (sections contents) none)
read_block-encode_all_example =
    read_block-encode_all archive cid_byte reads_back one_byte slot_cids places (ranged file) 7
      (1 ∷ 2 ∷ 3 ∷ []) (9 ∷ []) content (sections contents) 30 (132 ∷ 2 ∷ 10 ∷ [])
      (132 ∷ 2 ∷ 10 ∷ []) 23 5 refl refl file_end anchored (ranged-Serves file) file_small capped
      contents-Stored refl refl refl refl
