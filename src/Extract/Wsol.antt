-- ===== src/Extract/Wsol.antt =====
-- `wsolProfit` and `lamports` of backfill/extract.go.
use epochfill.Common.{
  ℕ, Bool, ◌&&◌, Option, none, some, List, [], ◌∷◌, text_eq, if◌then◌else◌, nat_equality,
}
use epochfill.Go.Map.{Map, lookup, insert, delete}
use epochfill.Go.Text.{GoString, bytes_of}
use epochfill.Go.Decimal.{parse_int}
use epochfill.Go.Word.{add64, sub64}
use epochfill.Extract.Chain.{Chain}

unfoldable pub wsol_mint : GoString
wsol_mint = bytes_of "So11111111111111111111111111111111111111112"

unfoldable pub lamports : GoString → ℕ
lamports s = parse_int s

-- A missing key of a map of integers reads as 0.
abbrev pub or_zero : Option ℕ → ℕ
or_zero none = 0
or_zero (some n) = n

-- The third loop: what was there before and is gone after.
unfoldable pub gone_loop : Map ℕ ℕ → ℕ → ℕ
gone_loop [] delta = delta
gone_loop ((_, amt) ∷ r) delta = gone_loop r (sub64 delta amt)

module _ (chain : Chain) where
  open chain use {
    TokenBalance, StatusMeta, mint, owner, account_index, amount, pre_token_balances,
    post_token_balances,
  }

  -- A token account of the wallet that holds wrapped SOL.
  unfoldable pub is_ours : GoString → TokenBalance → Bool
  is_ours wallet b = text_eq (mint b) wsol_mint && text_eq (owner b) wallet

  -- The first loop: the balances before, by account index.
  unfoldable pub pre_loop : GoString → List TokenBalance → Map ℕ ℕ → Map ℕ ℕ
  pre_loop wallet [] pre = pre
  pre_loop wallet (b ∷ r) pre =
      pre_loop wallet r
        (if is_ours wallet b then insert (account_index b) (lamports (amount b)) pre else pre)

  -- The second loop: each balance after, less the one before, which is used up.
  unfoldable pub post_loop : GoString → List TokenBalance → ℕ → Map ℕ ℕ → ℕ × Map ℕ ℕ
  post_loop wallet [] delta pre = (delta, pre)
  post_loop wallet (b ∷ r) delta pre =
      let (delta', pre') =
        if is_ours wallet b
        then (
          add64 delta (sub64 (lamports (amount b)) (or_zero (lookup (account_index b) pre))),
          delete (account_index b) pre,
        )
        else (delta, pre) in
      post_loop wallet r delta' pre'

  unfoldable pub wsol_profit : StatusMeta → GoString → ℕ
  wsol_profit meta wallet =
      let pre = pre_loop wallet (pre_token_balances meta) [] in
      let (delta, left) = post_loop wallet (post_token_balances meta) 0 pre in gone_loop left delta
