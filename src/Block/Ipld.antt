-- ===== src/Block/Ipld.antt =====
-- What block.go calls of go-cid and yellowstone-faithful: the CIDs, the node types behind their
-- accessors, and their decoders. `none` is a returned error or an absent value. A link of a node
-- is given as the CID that `cidOf` unwraps.
use epochfill.Common.{ℕ, Bool, Option, List}

pub record Ipld : Type 1 where
  pub Cid : Type 0
  pub TransactionNode : Type 0
  pub EntryNode : Type 0
  pub BlockNode : Type 0
  pub Container : Type 0
  pub StatusMeta : Type 0
  pub Reward : Type 0
  -- go-cid
  pub cid_from_bytes : List ℕ → Option (ℕ × Cid)
  -- iplddecoders
  pub decode_transaction : List ℕ → Option TransactionNode
  pub decode_entry : List ℕ → Option EntryNode
  pub decode_block : List ℕ → Option BlockNode
  -- ipldbindcode: `GetRewards`, `Entries`, `Transactions`, and `GetMetadata` with `nil` as `none`
  pub rewards_link : BlockNode → Option Cid
  pub entry_links : BlockNode → List Cid
  pub transaction_links : EntryNode → List Cid
  pub metadata : TransactionNode → Option Container
  pub is_protobuf : Container → Bool
  pub get_protobuf : Container → Option StatusMeta
  -- `DecodeRewards` and the frame's bytes, `DecompressZstd`, `ParseRewards` (a nil result is `none`)
  pub decode_rewards : List ℕ → Option (List ℕ)
  pub decompress_zstd : List ℕ → Option (List ℕ)
  pub parse_rewards : List ℕ → Option (List Reward)
  pub is_fee : Reward → Bool
  pub reward_pubkey : Reward → List ℕ
