-- ===== src/Block/Region.antt =====
-- `ParsedBlock`, `ParsedTx`, `parseRegion`, `decodeMeta` and `leaderFromRewards` of
-- backfill/block.go.
use epochfill.Common.{
  ℕ, Option, none, some, List, [], ◌∷◌, ◌++◌, length, get_or, ltb, nat_eq, not, if◌then◌else◌, Eq,
  ◌==◌, ◌>>=◌,
}
use epochfill.Go.Map.{Map, lookup, insert}
use epochfill.Go.Word.{add64}
use epochfill.Car.{
  Section, WalkError, Outcome, done, failed, panicked, stuck, Visit, next, stop, walk_sections,
}
use epochfill.Block.Ipld.{Ipld}

abbrev pub kind_transaction : ℕ
kind_transaction = 0

abbrev pub kind_entry : ℕ
kind_entry = 1

abbrev pub kind_block : ℕ
kind_block = 2

abbrev pub kind_rewards : ℕ
kind_rewards = 5

-- `decode block` is the one error that the callback returns.
pub data DecodeError : Type 0 where
  decode_block_failed : DecodeError

module _ (ipld : Ipld) where
  open ipld use {
    Cid, TransactionNode, EntryNode, BlockNode, StatusMeta, Reward, decode_transaction,
    decode_entry, decode_block, rewards_link, entry_links, transaction_links, metadata, is_protobuf,
    get_protobuf, decode_rewards, decompress_zstd, parse_rewards, is_fee, reward_pubkey,
    cid_from_bytes,
  }

  pub record ParsedTx : Type 0 where
    pub node : TransactionNode
    pub meta : Option StatusMeta

  pub record ParsedBlock : Type 0 where
    pub slot : ℕ
    pub leader : List ℕ
    pub tx_count : ℕ
    pub txs : List ParsedTx
    pub bytes_read : ℕ

  -- The variables that the callback of `parseRegion` captures.
  pub record Region : Type 0 where
    pub block : Option BlockNode
    pub entries : Map Cid EntryNode
    pub txs : Map Cid TransactionNode
    pub rewards_raw : Map Cid (List ℕ)

  -- The error of `parseRegion`, the panic of the walk, and the walk's fuel.
  pub data ParseResult : Type 0 where
    parsed : ParsedBlock → ParseResult
    walk_failed : WalkError DecodeError → ParseResult
    block_not_found : ParseResult
    parse_panicked : ParseResult
    parse_stuck : ParseResult

  abbrev pub empty_region : Region
  empty_region = record { block = none; entries = []; txs = []; rewards_raw = [] }

  unfoldable pub decode_meta : TransactionNode → Option StatusMeta
  decode_meta tx = elim (metadata tx) [
    | none ↦ none
    | some container ↦ if is_protobuf container then get_protobuf container else none
  ]

  abbrev fee_pubkey : List Reward → Option (List ℕ)
  fee_pubkey [] = none
  fee_pubkey (reward ∷ r) = if is_fee reward then some (reward_pubkey reward) else fee_pubkey r

  -- With no fee reward, a lone reward is taken for it.
  abbrev lone_pubkey : List Reward → Option (List ℕ)
  lone_pubkey (reward ∷ []) = some (reward_pubkey reward)
  lone_pubkey _ = none

  abbrev leader_of : List Reward → Option (List ℕ)
  leader_of rewards = elim (fee_pubkey rewards) [ some key ↦ some key | none ↦ lone_pubkey rewards ]

  unfoldable pub leader_from_rewards : List ℕ → Option (List ℕ)
  leader_from_rewards [] = none
  leader_from_rewards (x ∷ raw) = do
    frame ← decode_rewards (x ∷ raw)
    payload ← decompress_zstd frame
    rewards ← parse_rewards payload
    leader_of rewards

module _ (ipld : Ipld) ⦃e : Eq ipld.Cid⦄ where
  open ipld use {
    Cid, TransactionNode, EntryNode, BlockNode, decode_transaction, decode_entry, decode_block,
    rewards_link, entry_links, transaction_links, cid_from_bytes,
  }

  -- The callback: one node by its kind, the second byte. A transaction or an entry that does not
  -- decode is passed over, and so is a neighbouring block.
  unfoldable pub visit_node : Cid → Region ipld → Section Cid → Visit DecodeError (Region ipld)
  visit_node want r s =
      if ltb (length s.bytes) 2
      then next r
      else if nat_eq (get_or s.bytes 1 0) kind_transaction
      then (elim (decode_transaction s.bytes) [
        | some tx ↦ next (record r { txs = insert s.cid tx r.txs })
        | none ↦ next r
      ])
      else if nat_eq (get_or s.bytes 1 0) kind_entry
      then (elim (decode_entry s.bytes) [
        | some entry ↦ next (record r { entries = insert s.cid entry r.entries })
        | none ↦ next r
      ])
      else if nat_eq (get_or s.bytes 1 0) kind_rewards
      then next (record r { rewards_raw = insert s.cid s.bytes r.rewards_raw })
      else if nat_eq (get_or s.bytes 1 0) kind_block
      then (if not (s.cid == want) then next r else elim (decode_block s.bytes) [
        | some b ↦ next (record r { block = some b })
        | none ↦ stop decode_block_failed
      ])
      else next r

  -- The inner loop: `for _, tl := range entry.Transactions`.
  abbrev pub collect_txs : Map Cid TransactionNode → List Cid → List (ParsedTx ipld)
  collect_txs txs [] = []
  collect_txs txs (link ∷ r) = elim (lookup link txs) [
    | some node ↦ record { node = node; meta = decode_meta ipld node } ∷ collect_txs txs r
    | none ↦ collect_txs txs r
  ]

  -- The outer loop: `for _, el := range block.Entries`.
  abbrev pub collect_entries : Region ipld → List Cid → ParsedBlock ipld → ParsedBlock ipld
  collect_entries r [] out = out
  collect_entries r (link ∷ links) out = elim (lookup link r.entries) [
    | some entry ↦ collect_entries r links (record out {
      tx_count = add64 out.tx_count (length (transaction_links entry));
      txs = out.txs ++ collect_txs r.txs (transaction_links entry);
    })
    | none ↦ collect_entries r links out
  ]

  -- A missing node is empty bytes, and so is a leader that is not found.
  abbrev pub or_empty : Option (List ℕ) → List ℕ
  or_empty none = []
  or_empty (some text) = text

  -- The leader of the rewards node that the block links to.
  abbrev pub leader_at : Region ipld → Option Cid → List ℕ
  leader_at r none = []
  leader_at r (some link) =
      or_empty (leader_from_rewards ipld (or_empty (lookup link r.rewards_raw)))

  abbrev pub block_leader : Region ipld → BlockNode → List ℕ
  block_leader r b = leader_at r (rewards_link b)

  unfoldable pub assemble : Region ipld → ParseResult ipld
  assemble r = elim r.block [
    | none ↦ block_not_found
    | some b ↦ parsed (
        collect_entries r (entry_links b)
          (record { slot = 0; leader = block_leader r b; tx_count = 0; txs = []; bytes_read = 0 }))
  ]

  abbrev after_walk : Outcome DecodeError (Region ipld) → ParseResult ipld
  after_walk (done r) = assemble r
  after_walk (failed err) = walk_failed err
  after_walk panicked = parse_panicked
  after_walk stuck = parse_stuck

  unfoldable pub parse_region : List ℕ → Cid → ParseResult ipld
  unfolding assemble visit_node
  parse_region buf want =
      after_walk (walk_sections cid_from_bytes (visit_node want) buf (empty_region ipld))
