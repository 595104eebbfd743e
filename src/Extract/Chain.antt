-- ===== src/Extract/Chain.antt =====
-- What extract.go calls of solana-go, ipldbindcode and confirmed_block: the types behind their
-- accessors. `none` is an error, a `nil`, or a false `ok`.
use epochfill.Common.{ℕ, Bool, Option, List}
use epochfill.Go.Text.{GoString}

pub record Chain : Type 1 where
  pub PublicKey : Type 0
  pub Tx : Type 0
  pub Node : Type 0
  pub StatusMeta : Type 0
  pub TokenBalance : Type 0
  -- `PublicKey.String` and `PublicKeyFromBytes`
  pub key_string : PublicKey → GoString
  pub key_from_bytes : List ℕ → PublicKey
  -- ipldbindcode: `Data.GetTotal`, `Data.Bytes`, `GetPositionIndex` (an `int`, as its pattern)
  pub data_total : Node → Option ℕ
  pub data_bytes : Node → List ℕ
  pub position_index : Node → Option ℕ
  -- solana-go: `TransactionFromDecoder`, and the fields that are read
  pub decode_tx : List ℕ → Option Tx
  pub signatures : Tx → List GoString
  pub account_keys : Tx → List PublicKey
  pub required_signatures : Tx → ℕ
  pub instruction_programs : Tx → List ℕ
  -- confirmed_block
  pub fee : StatusMeta → ℕ
  pub has_err : StatusMeta → Bool
  pub pre_balances : StatusMeta → List ℕ
  pub post_balances : StatusMeta → List ℕ
  pub pre_token_balances : StatusMeta → List TokenBalance
  pub post_token_balances : StatusMeta → List TokenBalance
  pub inner_programs : StatusMeta → List (List ℕ)
  pub loaded_writable : StatusMeta → List (List ℕ)
  pub loaded_readonly : StatusMeta → List (List ℕ)
  pub compute_units : StatusMeta → ℕ
  pub cost_units : StatusMeta → ℕ
  pub mint : TokenBalance → GoString
  pub owner : TokenBalance → GoString
  pub account_index : TokenBalance → ℕ
  pub amount : TokenBalance → GoString
