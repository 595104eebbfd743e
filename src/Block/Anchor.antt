-- ===== src/Block/Anchor.antt =====
-- Where a region starts, and which bytes are read for a slot.
use epochfill.Common.{
  ℕ, zero, suc, ◌+◌, ◌-◌, ◌%◌, ◌≤◌, ◌<◌, ◌≡◌, ◌∙◌, refl, ap, inl, inr, true, false, Bool-cases,
  Option-cases, Option, none, some, List, [], ◌∷◌, ◌++◌, length, take, drop, leb, ltb, elem, Eq,
  arith, length-append, take_all-append, drop_all-append,
}
use native.Mathlib.Decide.{dec_lt}
use epochfill.Go.Word.{add64, add64_exact, i64_half, u64_mod}
use epochfill.Car.{Section}
use epochfill.Car.Encode.{encode_all, encode_section}
use epochfill.Fetch.{Response, Serves, read_range-Serves}
use epochfill.Block.Ipld.{Ipld}
use epochfill.Block.Region.{ParsedBlock, parsed, parse_region, kind_block}
use epochfill.Block.Membership.{has_kind, cids, Stored}
use epochfill.Block.Assembly.{
  found_entries, count_transactions, entry_txs, leader_found, parse_region-encode_all,
}
use epochfill.Block.Reader.{
  block_read, past_cid, anchor_loop, anchor, max_skip_back, max_region_bytes, with_anchor,
  read_block,
}

module _ (ipld : Ipld) (block_cid : ℕ → Option ipld.Cid) (locate : ipld.Cid → Option (ℕ × ℕ)) where
  -- The end of the block node of the slot that many slots before, if the indexes have it.
  abbrev pub end_before : ℕ → ℕ → Option ℕ
  end_before slot back = past_cid ipld block_cid locate (block_cid (slot - back))

  record Anchored (slot from rounds : ℕ) (o : Option ℕ) : Type 0 where
    found :
        (start : ℕ)
        → o ≡ some start
        → (back : ℕ) × (from ≤ back)
          × (back < from + rounds)
          × (back ≤ slot)
          × (end_before slot back ≡ some start)
          × ((b : ℕ) → from ≤ b → b < back → end_before slot b ≡ none)
    missing :
        o ≡ none → (b : ℕ) → from ≤ b → b < from + rounds → b ≤ slot → end_before slot b ≡ none

  -- A slot before that is skipped, and then those further back.
  from_here :
      (slot back b : ℕ)
      → end_before slot back ≡ none
      → (back + 1 ≤ b → end_before slot b ≡ none)
      → back ≤ b
      → end_before slot b ≡ none
  from_here slot back b skipped further low = elim (dec_lt back b) [
    | yes more ↦ further (omega arith)
    | no same ↦ ap (end_before slot) {x = b} {y = back} (omega arith) ∙ skipped
  ]

  anchor_loop_lem :
      (rounds slot back : ℕ)
      → Anchored slot back rounds (anchor_loop ipld block_cid locate rounds slot back)
  unfolding anchor_loop
  anchor_loop_lem zero slot back = record {
    found = λ start h. cc;
    missing = λ h b l u s. absurd (omega arith);
  }
  anchor_loop_lem (suc rounds) slot back = elim (Bool-cases (leb back slot)) [
    | inr over ↦
        rw over (record { found = λ start h. cc; missing = λ h b l u s. absurd (ground arith) })
    | inl inside ↦ elim (Option-cases (end_before slot back)) [
      | inr (stop, here) ↦
          rw (inside, here)
            (record {
              found = λ start h. (
                back,
                omega arith,
                omega arith,
                ground arith,
                here ∙ h,
                λ b l u. absurd (omega arith),
              );
              missing = λ h. cc;
            })
      | inl skipped ↦
          let rest = anchor_loop_lem rounds slot (back + 1) in
          rw (inside, skipped)
            (record {
              found = λ start h.
                  (let (at, low, high, fits, there, before) = rest.found start h in
                    (
                      at,
                      omega arith,
                      omega arith,
                      fits,
                      there,
                      λ b l u. from_here slot back b skipped (λ l'. before b l' u) l,
                    ));
              missing = λ h b l u fits.
                  from_here slot back b skipped (λ l'. rest.missing h b l' (omega arith) fits) l;
            })
    ]
  ]

  -- The region of a slot starts just past the block node of the nearest slot before it that the
  -- indexes resolve, among the 200 before it and no earlier than slot 0; if there is no start, the
  -- indexes resolve none of these.
  pub anchor_lem :
      (slot : ℕ)
      → ((start : ℕ)
          → anchor ipld block_cid locate slot ≡ some start
          → (back : ℕ) × (1 ≤ back)
            × (back ≤ max_skip_back)
            × (back ≤ slot)
            × (end_before slot back ≡ some start)
            × ((b : ℕ) → 1 ≤ b → b < back → end_before slot b ≡ none))
        × (anchor ipld block_cid locate slot ≡ none
            → (b : ℕ) → 1 ≤ b
            → b ≤ max_skip_back
            → b ≤ slot
            → end_before slot b ≡ none)
  unfolding anchor
  anchor_lem slot =
      let a = anchor_loop_lem max_skip_back slot 1 in
      (
        λ start h.
            (let (back, low, high, fits, there, before) = a.found start h in
              (back, low, omega arith, fits, there, before)),
        λ h b low high fits. a.missing h b low (omega arith) fits,
      )

module _ (ipld : Ipld) ⦃e : Eq ipld.Cid⦄ (cid_bytes : ipld.Cid → List ℕ)
    (decodes : (c : ipld.Cid) (d : List ℕ)
      → ipld.cid_from_bytes (cid_bytes c ++ d) ≡ some (length (cid_bytes c), c))
    (nonempty : (c : ipld.Cid) → 0 < length (cid_bytes c)) where
  open ipld use {Cid, BlockNode, decode_block, entry_links, rewards_link}

  middle {ℓ} :
      {A : Type ℓ} (front mid back : List A)
      → take (length mid) (drop (length front) (front ++ (mid ++ back))) ≡ mid
  middle front mid back = rw (drop_all-append) (take_all-append mid back)

  with_anchor-region :
      (block_cid : ℕ → Option Cid) (locate : Cid → Option (ℕ × ℕ))
      (server : ℕ → ℕ → Option Response) (slot : ℕ) (want : Cid) (front region back : List ℕ)
      (p : ParsedBlock ipld)
      → Serves (front ++ (region ++ back)) server
      → length (front ++ (region ++ back)) < i64_half
      → 0 < length region
      → length region ≤ max_region_bytes
      → parse_region ipld region want ≡ parsed p
      → with_anchor ipld block_cid locate server slot want
          (length front + length region)
          (some (length front))
        ≡ block_read (record p { slot = slot; bytes_read = length region })
  with_anchor-region block_cid locate server slot want front region back p serves small some_bytes
        capped region_parsed =
      rw (
        not_empty,
        size,
        not_large,
        read_range-Serves (front ++ (region ++ back)) server (length front) (length region) serves
            small (rw (length-append, length-append) (omega arith)),
        middle front region back,
        region_parsed,
      )
    where
      not_empty : leb (length front + length region) (length front) ≡ false
      not_empty = ground arith

      size : length front + length region - length front ≡ length region
      size = omega arith

      not_large : ltb max_region_bytes (length region) ≡ false
      not_large = ground arith

  region_nonempty :
      (xs : List (Section Cid)) (want : Cid)
      → elem want (cids ipld xs) ≡ true
      → 0 < length (encode_all cid_bytes xs)
  unfolding encode_section
  region_nonempty [] want h = cc
  region_nonempty (x ∷ r) want h = simp length-append (omega (arith, nonempty x.cid))

  -- For a CID decoder that reads back each CID and CIDs that are not empty, a server that serves
  -- an archive below 2 ^ 63 bytes as ranges, and indexes with which the nodes from the anchor of a
  -- slot to the end of its block node, at most 128 MiB, hold that block node, which decodes, with
  -- each CID naming the same bytes wherever it is met: `ReadBlock` returns the block of that slot,
  -- with the bytes read counted, the transaction count summed over the entries that the block node
  -- links to modulo 2 ^ 64, and the transactions of these entries in the order of the links, and
  -- with the leader that the rewards node names to which it links, if it lies among them. What
  -- lies around these nodes in the archive does not matter.
  pub read_block-encode_all :
      (block_cid : ℕ → Option Cid) (locate : Cid → Option (ℕ × ℕ))
      (server : ℕ → ℕ → Option Response) (slot : ℕ) (front back : List ℕ)
      (store : Cid → Option (List ℕ)) (xs : List (Section Cid)) (want : Cid) (bytes : List ℕ)
      (b : BlockNode) (off size : ℕ)
      → block_cid slot ≡ some want
      → locate want ≡ some (off, size)
      → off + size ≡ length front + length (encode_all cid_bytes xs)
      → anchor ipld block_cid locate slot ≡ some (length front)
      → Serves (front ++ (encode_all cid_bytes xs ++ back)) server
      → length (front ++ (encode_all cid_bytes xs ++ back)) < i64_half
      → length (encode_all cid_bytes xs) ≤ max_region_bytes
      → Stored ipld store xs
      → elem want (cids ipld xs) ≡ true
      → store want ≡ some bytes
      → has_kind kind_block bytes ≡ true
      → decode_block bytes ≡ some b
      → (p : ParsedBlock ipld) × (read_block ipld block_cid locate server slot ≡ block_read p)
        × (p.slot ≡ slot)
        × (p.bytes_read ≡ length (encode_all cid_bytes xs))
        × (p.tx_count
            ≡ count_transactions ipld (found_entries ipld store xs (entry_links b)) % u64_mod)
        × (p.txs ≡ entry_txs ipld store xs (found_entries ipld store xs (entry_links b)))
        × (p.leader ≡ leader_found ipld store xs (rewards_link b))
  unfolding read_block
  read_block-encode_all block_cid locate server slot front back store xs want bytes b off size
        has_cid located ends starts serves small capped stored here stored_bytes kind decoded =
      let (p, region_parsed, count, txs, leader) =
        parse_region-encode_all ipld cid_bytes decodes nonempty store xs want bytes b stored
          (omega (arith, total)) here stored_bytes kind decoded in
      (
        record p { slot = slot; bytes_read = length (encode_all cid_bytes xs) },
        rw (has_cid, located, starts, end)
            (with_anchor-region block_cid locate server slot want front (encode_all cid_bytes xs)
              back p serves small (region_nonempty xs want here) capped region_parsed),
        refl,
        refl,
        count,
        txs,
        leader,
      )
    where
      total :
          length (front ++ (encode_all cid_bytes xs ++ back))
          ≡ length front + length (encode_all cid_bytes xs) + length back
      total = simp length-append (omega arith)

      end : add64 off size ≡ length front + length (encode_all cid_bytes xs)
      end = add64_exact off size (omega (arith, total)) ∙ ends
