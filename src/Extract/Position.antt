-- ===== src/Extract/Position.antt =====
-- The position columns of the rows of `BuildLanding`, and the rows of a block from `collect`.
use epochfill.Common.{ℕ, ◌*◌, true, ◌++◌, ◌≡◌, ◌≢◌, false, Option, none, some, List, ◌∷◌}
use epochfill.Go.Text.{GoString}
use epochfill.Go.Word.{lt_i64}
use epochfill.Landing.{Landing}
use epochfill.Extract.Chain.{Chain}

-- The position columns of a row, by the index that its transaction has and the block's count.
pub data Placed (index : Option ℕ) (count : ℕ) (l : Landing) : Type 0 where
  no_index :
      index ≡ none
      → l.block_index ≡ 0
      → l.block_tx_count ≡ none
      → l.position_pct ≡ none
      → Placed index count l
  negative :
      (i : ℕ)
      → index ≡ some i
      → lt_i64 i 0 ≡ true
      → l.block_index ≡ 0
      → l.block_tx_count ≡ none
      → l.position_pct ≡ none
      → Placed index count l
  no_count :
      (i : ℕ)
      → index ≡ some i
      → lt_i64 i 0 ≡ false
      → count ≡ 0
      → l.block_index ≡ i
      → l.block_tx_count ≡ none
      → l.position_pct ≡ none
      → Placed index count l
  placed :
      (i : ℕ)
      → index ≡ some i
      → lt_i64 i 0 ≡ false
      → count ≢ 0
      → l.block_index ≡ i
      → l.block_tx_count ≡ some count
      → l.position_pct ≡ some (100 * i, count)
      → Placed index count l

module _ (chain : Chain) where
  open chain use {Node, StatusMeta, position_index}

  -- A row that was made from one of the transactions, at the time `now`.
  pub record RowOf (now : ℕ) (leader : GoString) (slot tx_count : ℕ)
      (txs : List (Node × Option StatusMeta)) (l : Landing) : Type 0 where
    pub node : Node
    pub meta : Option StatusMeta
    pub before : List (Node × Option StatusMeta)
    pub after : List (Node × Option StatusMeta)
    pub among : txs ≡ before ++ ((node, meta) ∷ after)
    pub stamped : l.ts ≡ now
    pub in_slot : l.slot ≡ slot
    pub led : l.leader ≡ leader
    pub at_position : Placed (position_index node) tx_count l
