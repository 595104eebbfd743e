-- ===== src/Examples/Archive.antt =====
-- A small archive: CIDs of one byte, and nodes whose links are the bytes after the kind.
use epochfill.Common.{
  ℕ, ◌+◌, ◌%◌, ◌<◌, ◌≡◌, ◌≢◌, refl, true, Option, none, some, List, [], ◌∷◌, ◌++◌, length, drop,
  nat_equality, arith,
}
use epochfill.Go.Map.{Map, lookup}
use epochfill.Go.Word.{i64_half, u64_mod}
use epochfill.Go.Varint.{uvarint, put_uvarint}
use epochfill.Car.{WalkError, Section, panicked, stuck, walk_sections}
use epochfill.Car.Encode.{encode_section, encode_all, visit_all, walk_sections-encode_all}
use epochfill.Car.Cut.{visit_all_then, cut_error, walk_sections-cut}
use epochfill.Car.Fuel.{walk_sections-ne-stuck, walk_sections-huge_length}
use epochfill.Block.Truncated.{parse_region-cut}
use epochfill.Block.Ipld.{Ipld}
use epochfill.Block.Region.{
  DecodeError, walk_failed, ParsedBlock, parsed, block_not_found, empty_region, visit_node,
  parse_region, leader_from_rewards,
}
use epochfill.Block.Membership.{Stored}
use epochfill.Block.Assembly.{
  found_entries, count_transactions, entry_txs, leader_found, parse_region-encode_all,
  parse_region_not_found,
}

abbrev pub read_cid : List ℕ → Option (ℕ × ℕ)
read_cid [] = none
read_cid (c ∷ _) = some (1, c)

abbrev pub cid_byte : ℕ → List ℕ
cid_byte c = c ∷ []

abbrev pub archive : Ipld
archive = record {
  Cid = ℕ;
  TransactionNode = List ℕ;
  EntryNode = List ℕ;
  BlockNode = List ℕ;
  Container = List ℕ;
  StatusMeta = List ℕ;
  Reward = List ℕ;
  cid_from_bytes = read_cid;
  decode_transaction = λ b. some b;
  decode_entry = λ b. some b;
  decode_block = λ b. some b;
  rewards_link = λ b. none;
  entry_links = λ b. drop 2 b;
  transaction_links = λ b. drop 2 b;
  metadata = λ b. some b;
  is_protobuf = λ b. true;
  get_protobuf = λ b. some b;
  decode_rewards = λ b. some b;
  decompress_zstd = λ b. some b;
  parse_rewards = λ b. none;
  is_fee = λ b. true;
  reward_pubkey = λ b. b;
}

pub reads_back : (c : ℕ) (d : List ℕ) → read_cid (cid_byte c ++ d) ≡ some (length (cid_byte c), c)
reads_back c d = refl

pub one_byte : (c : ℕ) → 0 < length (cid_byte c)
one_byte c = omega arith

-- Two transactions, an entry with both, a block with this entry, and a neighbour's block.
abbrev pub contents : Map ℕ (List ℕ)
contents =
    (20, 132 ∷ 0 ∷ 7 ∷ [])
    ∷ (21, 132 ∷ 0 ∷ 8 ∷ [])
    ∷ (10, 132 ∷ 1 ∷ 20 ∷ 21 ∷ [])
    ∷ (31, 132 ∷ 2 ∷ [])
    ∷ (30, 132 ∷ 2 ∷ 10 ∷ [])
    ∷ []

abbrev pub sections : Map ℕ (List ℕ) → List (Section ℕ)
sections [] = []
sections ((c, b) ∷ r) = record { cid = c; bytes = b } ∷ sections r

abbrev pub content : ℕ → Option (List ℕ)
content c = lookup c contents

pub contents-Stored : Stored archive content (sections contents)
contents-Stored = (refl, (refl, (refl, (refl, (refl, tt)))))

contents_small : length (encode_all cid_byte (sections contents)) < i64_half
unfolding encode_section put_uvarint
contents_small = omega arith

walk_sections-encode_all_example :
    walk_sections read_cid
      (visit_node archive 30)
      (encode_all cid_byte (sections contents))
      (empty_region archive)
    ≡ visit_all (visit_node archive 30) (sections contents) (empty_region archive)
walk_sections-encode_all_example =
    walk_sections-encode_all read_cid (visit_node archive 30) cid_byte reads_back one_byte
      (sections contents) (empty_region archive) contents_small

-- The block node is cut off after its length and its CID.
cut_off :
    3 ∷ 30 ∷ [] ++ (132 ∷ 2 ∷ [])
    ≡ encode_section cid_byte (record { cid = 30; bytes = 132 ∷ 2 ∷ [] })
unfolding encode_section put_uvarint
cut_off = refl

cut_small : length (encode_all cid_byte (sections contents) ++ (3 ∷ 30 ∷ [])) + 2 < i64_half
unfolding encode_section put_uvarint
cut_small = omega arith

walk_sections-cut_example :
    walk_sections read_cid
      (visit_node archive 40)
      (encode_all cid_byte (sections contents) ++ (3 ∷ 30 ∷ []))
      (empty_region archive)
    ≡ visit_all_then
        (visit_node archive 40)
        (cut_error DecodeError cid_byte
          (record { cid = 30; bytes = 132 ∷ 2 ∷ [] })
          (3 ∷ 30 ∷ [])
          (length (encode_all cid_byte (sections contents))))
        (sections contents)
        (empty_region archive)
walk_sections-cut_example =
    walk_sections-cut read_cid (visit_node archive 40) cid_byte reads_back one_byte
      (sections contents) (3 ∷ 30 ∷ []) (132 ∷ 2 ∷ []) (record { cid = 30; bytes = 132 ∷ 2 ∷ [] })
      (empty_region archive) cut_off (omega arith) (omega arith) cut_small

walk_sections-ne-stuck_example :
    walk_sections read_cid
      (visit_node archive 30)
      (3 ∷ 20 ∷ 132 ∷ 0 ∷ 5 ∷ [])
      (empty_region archive)
    ≢ stuck
walk_sections-ne-stuck_example =
    walk_sections-ne-stuck read_cid (visit_node archive 30) (3 ∷ 20 ∷ 132 ∷ 0 ∷ 5 ∷ [])
      (empty_region archive)

-- The section length 2 ^ 63, as a uvarint.
abbrev huge : List ℕ
huge = 128 ∷ 128 ∷ 128 ∷ 128 ∷ 128 ∷ 128 ∷ 128 ∷ 128 ∷ 128 ∷ 1 ∷ []

huge_value : uvarint huge ≡ some (i64_half, 10)
unfolding uvarint
huge_value = refl

walk_sections-huge_length_example :
    walk_sections read_cid (visit_node archive 30) huge (empty_region archive) ≡ panicked
walk_sections-huge_length_example =
    walk_sections-huge_length read_cid (visit_node archive 30) huge (empty_region archive) i64_half
      10 (omega arith) huge_value (omega arith) (omega arith)

-- A block that links to a rewards node with one reward.
abbrev paid : Ipld
paid = record archive { rewards_link = λ b. some 50; parse_rewards = λ b. some (b ∷ []) }

abbrev paid_contents : Map ℕ (List ℕ)
paid_contents = (50, 132 ∷ 5 ∷ 9 ∷ []) ∷ contents

paid_small : length (encode_all cid_byte (sections paid_contents)) < i64_half
unfolding encode_section put_uvarint
paid_small = omega arith

leader_named :
    leader_found paid (λ c. lookup c paid_contents) (sections paid_contents) (some 50)
    ≡ 132 ∷ 5 ∷ 9 ∷ []
unfolding leader_from_rewards
leader_named = refl

parse_region-encode_all_example :
    (p : ParsedBlock paid) × (parse_region paid (encode_all cid_byte (sections paid_contents)) 30
      ≡ parsed p)
    × (p.tx_count
        ≡ count_transactions paid
            (found_entries paid (λ c. lookup c paid_contents) (sections paid_contents) (10 ∷ []))
          % u64_mod)
    × (p.txs
        ≡ entry_txs paid
            (λ c. lookup c paid_contents)
            (sections paid_contents)
            (found_entries paid (λ c. lookup c paid_contents) (sections paid_contents) (10 ∷ [])))
    × (p.leader
        ≡ leader_found paid (λ c. lookup c paid_contents) (sections paid_contents) (some 50))
parse_region-encode_all_example =
    parse_region-encode_all paid cid_byte reads_back one_byte (λ c. lookup c paid_contents)
      (sections paid_contents) 30 (132 ∷ 2 ∷ 10 ∷ []) (132 ∷ 2 ∷ 10 ∷ [])
      (refl, (refl, (refl, (refl, (refl, (refl, tt)))))) paid_small refl refl refl refl

-- The wanted block's node is whole, and the node after it is cut off.
parse_region-cut_example :
    (err : WalkError DecodeError) × (parse_region archive
        (encode_all cid_byte (sections contents) ++ (3 ∷ 30 ∷ []))
        30
      ≡ walk_failed err)
parse_region-cut_example =
    parse_region-cut archive cid_byte reads_back one_byte (sections contents) (3 ∷ 30 ∷ [])
      (132 ∷ 2 ∷ []) (record { cid = 30; bytes = 132 ∷ 2 ∷ [] }) 30 cut_off (omega arith)
      (omega arith) cut_small

parse_region_not_found_example :
    parse_region archive (encode_all cid_byte (sections contents)) 33 ≡ block_not_found
parse_region_not_found_example =
    parse_region_not_found archive cid_byte reads_back one_byte content (sections contents) 33
      contents-Stored contents_small refl
