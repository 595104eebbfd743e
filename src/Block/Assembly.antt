-- ===== src/Block/Assembly.antt =====
-- A block's transactions come from its own entries, whatever else the region holds.
use mathlib.Core.List.{append-nil, append_assoc}
use epochfill.Common.{
  ℕ, ◌+◌, ◌%◌, ◌<◌, ◌≡◌, refl, ap, sym, ◌∙◌, inl, inr, Option-cases, true, false, Option, none,
  some, List, [], ◌∷◌, ◌++◌, length, elem, Eq, arith,
}
use epochfill.Go.Map.{lookup}
use epochfill.Go.Word.{add64, u64_mod, i64_half}
use epochfill.Car.{walk_sections, Section, done}
use epochfill.Car.Encode.{encode_all, walk_sections-encode_all}
use epochfill.Block.Ipld.{Ipld}
use epochfill.Block.Membership.{
  has_kind, transaction_in, entry_in, block_in, rewards_in, cids, Stored, found, prefer-none,
  view-visit_all, entries-visit_node, txs-visit_node, block-visit_node, rewards-visit_node,
  visit_all-done, visit_all-absent,
}
use epochfill.Block.Region.{
  Region, ParsedTx, ParsedBlock, parsed, block_not_found, empty_region, visit_node, parse_region,
  decode_meta, collect_txs, collect_entries, block_leader, leader_at, or_empty, leader_from_rewards,
  kind_block,
}

module _ (ipld : Ipld) ⦃e : Eq ipld.Cid⦄ where
  open ipld use {
    Cid, EntryNode, BlockNode, decode_block, rewards_link, entry_links, transaction_links,
    cid_from_bytes,
  }

  abbrev pub found_txs :
      (Cid → Option (List ℕ)) → List (Section Cid) → List Cid → List (ParsedTx ipld)
  found_txs store xs [] = []
  found_txs store xs (link ∷ links) = elim (found ipld (transaction_in ipld) store xs link) [
    | some node ↦ record { node = node; meta = decode_meta ipld node } ∷ found_txs store xs links
    | none ↦ found_txs store xs links
  ]

  -- The entries of a block, by its links.
  abbrev pub found_entries :
      (Cid → Option (List ℕ)) → List (Section Cid) → List Cid → List EntryNode
  found_entries store xs [] = []
  found_entries store xs (link ∷ links) = elim (found ipld (entry_in ipld) store xs link) [
    | some entry ↦ entry ∷ found_entries store xs links
    | none ↦ found_entries store xs links
  ]

  abbrev pub count_transactions : List EntryNode → ℕ
  count_transactions [] = 0
  count_transactions (entry ∷ r) = length (transaction_links entry) + count_transactions r

  abbrev pub entry_txs :
      (Cid → Option (List ℕ)) → List (Section Cid) → List EntryNode → List (ParsedTx ipld)
  entry_txs store xs [] = []
  entry_txs store xs (entry ∷ r) =
      found_txs store xs (transaction_links entry) ++ entry_txs store xs r

  module _ (store : Cid → Option (List ℕ)) (xs : List (Section Cid)) (r : Region ipld)
      (entries_found : (c : Cid) → lookup c r.entries ≡ found ipld (entry_in ipld) store xs c)
      (txs_found : (c : Cid) → lookup c r.txs ≡ found ipld (transaction_in ipld) store xs c) where
    collect_txs-found : (links : List Cid) → collect_txs ipld r.txs links ≡ found_txs store xs links
    collect_txs-found [] = refl
    collect_txs-found (link ∷ links) = ground (arith, txs_found link, collect_txs-found links)

    -- What the outer loop adds to the block that it starts from.
    record Collected (links : List Cid) (out out' : ParsedBlock ipld) : Type 0 where
      count :
          out.tx_count < u64_mod
          → out'.tx_count
            ≡ (out.tx_count + count_transactions (found_entries store xs links)) % u64_mod
      collected : out'.txs ≡ out.txs ++ entry_txs store xs (found_entries store xs links)
      leader : out'.leader ≡ out.leader

    collect_entries-found :
        (links : List Cid) (out : ParsedBlock ipld)
        → Collected links out (collect_entries ipld r links out)
    unfolding add64
    collect_entries-found [] out = record {
      count = λ h. omega arith;
      collected = sym (append-nil out.txs);
      leader = refl;
    }
    collect_entries-found (link ∷ links) out =
        elim (Option-cases (found ipld (entry_in ipld) store xs link)) [
          | inl p ↦
              let ih = collect_entries-found links out in
              record {
                count = λ h. ground (arith, entries_found link, ih.count h);
                collected = ground (arith, entries_found link, ih.collected);
                leader = ground (arith, entries_found link, ih.leader);
              }
          | inr (entry, p) ↦
              let out' = record out {
                tx_count = add64 out.tx_count (length (transaction_links entry));
                txs = out.txs ++ collect_txs ipld r.txs (transaction_links entry);
              } in
              let ih = collect_entries-found links out' in
              record {
                count = λ h. ground (arith, entries_found link, ih.count (omega arith));
                collected = ground (
                  arith,
                  entries_found link,
                  ih.collected,
                  collect_txs-found (transaction_links entry),
                  append_assoc out.txs (found_txs store xs (transaction_links entry))
                      (entry_txs store xs (found_entries store xs links)),
                );
                leader = ground (arith, entries_found link, ih.leader);
              }
        ]

  -- The leader that the rewards node names to which the block links, and no text without a node that
  -- the region holds or that names one.
  abbrev pub leader_found : (Cid → Option (List ℕ)) → List (Section Cid) → Option Cid → List ℕ
  leader_found store xs none = []
  leader_found store xs (some link) =
      or_empty ipld
        (leader_from_rewards ipld (or_empty ipld (found ipld (rewards_in ipld) store xs link)))

  leader_at-found :
      (store : Cid → Option (List ℕ)) (xs : List (Section Cid)) (r : Region ipld)
      (link : Option Cid)
      → ((c : Cid) → lookup c r.rewards_raw ≡ found ipld (rewards_in ipld) store xs c)
      → leader_at ipld r link ≡ leader_found store xs link
  leader_at-found store xs r none same = refl
  leader_at-found store xs r (some link) same =
      ap (λ raw. or_empty ipld (leader_from_rewards ipld (or_empty ipld raw))) (same link)

  abbrev start : Region ipld → BlockNode → ParsedBlock ipld
  start r b = record {
    slot = 0;
    leader = block_leader ipld r b;
    tx_count = 0;
    txs = [];
    bytes_read = 0;
  }

  parse_region_found :
      (buf : List ℕ) (want : Cid) (r : Region ipld) (b : BlockNode)
      → walk_sections cid_from_bytes (visit_node ipld want) buf (empty_region ipld) ≡ done r
      → r.block ≡ some b
      → parse_region ipld buf want ≡ parsed (collect_entries ipld r (entry_links b) (start r b))
  unfolding parse_region
  parse_region_found buf want r b walked block_found = rw walked (ground (arith, block_found))

  module _ (cid_bytes : Cid → List ℕ)
      (decodes : (c : Cid) (d : List ℕ)
        → cid_from_bytes (cid_bytes c ++ d) ≡ some (length (cid_bytes c), c))
      (nonempty : (c : Cid) → 0 < length (cid_bytes c)) where
    -- For a CID decoder that reads back each CID and CIDs that are not empty, and a region below 2
    -- ^ 63 bytes that holds the wanted block's node, which decodes to `b`, in any surroundings
    -- (more nodes of this block, whole neighbouring blocks, other nodes that do not decode), with
    -- each CID naming the same bytes wherever it is met: the region is parsed, the transaction
    -- count is the sum over the entries that `b` links to, modulo 2 ^ 64, and the transactions are
    -- those of these entries, in the order of the links. Entries and transactions that the region
    -- does not hold, or that do not decode, are left out of the transactions, and such entries of
    -- the count. The leader is the one that the rewards node names to which `b` links, if the region
    -- holds it.
    pub parse_region-encode_all :
        (store : Cid → Option (List ℕ)) (xs : List (Section Cid)) (want : Cid) (bytes : List ℕ)
        (b : BlockNode)
        → Stored ipld store xs
        → length (encode_all cid_bytes xs) < i64_half
        → elem want (cids ipld xs) ≡ true
        → store want ≡ some bytes
        → has_kind kind_block bytes ≡ true
        → decode_block bytes ≡ some b
        → (p : ParsedBlock ipld) × (parse_region ipld (encode_all cid_bytes xs) want ≡ parsed p)
          × (p.tx_count ≡ count_transactions (found_entries store xs (entry_links b)) % u64_mod)
          × (p.txs ≡ entry_txs store xs (found_entries store xs (entry_links b)))
          × (p.leader ≡ leader_found store xs (rewards_link b))
    parse_region-encode_all store xs want bytes b stored small here stored_bytes kind decoded =
        let (r, walked) =
          visit_all-done ipld store want bytes b xs (empty_region ipld) stored stored_bytes
            decoded in
        let block_found =
          view-visit_all ipld want want (λ r. r.block) (block_in ipld) (block-visit_node ipld want)
            store xs (empty_region ipld) r stored walked in
        let collected =
          collect_entries-found store xs r
            (λ c.
              view-visit_all ipld want c (λ r. lookup c r.entries) (entry_in ipld)
                (entries-visit_node ipld want c) store xs (empty_region ipld) r stored walked
              ∙ prefer-none (found ipld (entry_in ipld) store xs c))
            (λ c.
              view-visit_all ipld want c (λ r. lookup c r.txs) (transaction_in ipld)
                (txs-visit_node ipld want c) store xs (empty_region ipld) r stored walked
              ∙ prefer-none (found ipld (transaction_in ipld) store xs c))
            (entry_links b) (start r b) in
        (
          collect_entries ipld r (entry_links b) (start r b),
          parse_region_found (encode_all cid_bytes xs) want r b
              (walk_sections-encode_all cid_from_bytes (visit_node ipld want) cid_bytes decodes
                  nonempty xs (empty_region ipld) small
                ∙ walked)
              (ground (arith, block_found, stored_bytes, here, kind, decoded)),
          omega (arith, collected.count (omega arith)),
          collected.collected,
          collected.leader
              ∙ leader_at-found store xs r (rewards_link b) (λ c.
                view-visit_all ipld want c (λ r. lookup c r.rewards_raw) (rewards_in ipld)
                  (rewards-visit_node ipld want c) store xs (empty_region ipld) r stored walked
                ∙ prefer-none (found ipld (rewards_in ipld) store xs c)),
        )

    -- For a CID decoder that reads back each CID and CIDs that are not empty: a region below 2 ^
    -- 63 bytes of whole nodes that does not hold the wanted block's node, with each CID naming the
    -- same bytes wherever it is met, is refused for this, whatever else it holds.
    pub parse_region_not_found :
        (store : Cid → Option (List ℕ)) (xs : List (Section Cid)) (want : Cid)
        → Stored ipld store xs
        → length (encode_all cid_bytes xs) < i64_half
        → elem want (cids ipld xs) ≡ false
        → parse_region ipld (encode_all cid_bytes xs) want ≡ block_not_found
    unfolding parse_region
    parse_region_not_found store xs want stored small absent =
        let (r, walked) = visit_all-absent ipld want xs (empty_region ipld) absent in
        let nothing =
          view-visit_all ipld want want (λ r. r.block) (block_in ipld) (block-visit_node ipld want)
            store xs (empty_region ipld) r stored walked in
        rw
          (
            walk_sections-encode_all cid_from_bytes (visit_node ipld want) cid_bytes decodes
                nonempty xs (empty_region ipld) small,
            walked,
          )
          (ground (arith, nothing, absent))
