-- ===== src/Extract/Build.antt =====
-- `BuildLanding` and `applyPosition` of backfill/extract.go, and `collect` of backfill/run.go.
use epochfill.Common.{
  ℕ, ◌*◌, ◌%◌, Bool, false, not, Option, none, some, List, [], ◌∷◌, length, nat_eq, if◌then◌else◌,
}
use epochfill.Go.Text.{GoString}
use epochfill.Go.Word.{u64_mod, lt_i64}
use epochfill.Landing.{Landing, base_fee_lamports}
use epochfill.Landing.Tips.{is_bare_tip_leg}
use epochfill.Extract.Chain.{Chain}
use epochfill.Extract.Wsol.{wsol_profit}
use epochfill.Extract.Programs.{resolve_keys, contains_key, program_set}
use epochfill.Extract.Balance.{sub_floor, wallet_delta, tip_paid}

-- The errors of `BuildLanding`, in the order of its tests.
pub data BuildError : Type 0 where
  split_tx_data undecodable no_signature no_meta not_ours : BuildError

pub data Built : Type 0 where
  built : Landing → Built
  refused : BuildError → Built

-- `position_pct` is 100 * idx / txCount, which the source divides as floating point.
unfoldable pub apply_position : Landing → Option ℕ → ℕ → Landing
apply_position l none tx_count = l
apply_position l (some idx) tx_count =
    if lt_i64 idx 0
    then l
    else if nat_eq tx_count 0
    then record l { block_index = idx }
    else record l {
      block_index = idx;
      block_tx_count = some tx_count;
      position_pct = some (100 * idx, tx_count);
    }

module _ (chain : Chain) where
  open chain use {
    Node, Tx, StatusMeta, data_total, data_bytes, position_index, decode_tx, signatures,
    required_signatures, instruction_programs, fee, has_err, compute_units, cost_units,
  }

  -- The row, from where all tests have passed.
  unfoldable pub fill_landing : Tx → StatusMeta → GoString → GoString → GoString → ℕ → Landing
  fill_landing tx meta sig wallet leader slot =
      let keys = resolve_keys chain tx meta in
      let programs = program_set chain tx meta keys in
      let (tip, lane) = tip_paid chain keys meta in
      record {
        sig = sig;
        slot = slot;
        block_index = 0;
        block_tx_count = none;
        position_pct = none;
        leader = leader;
        leader_version = [];
        landed = not (has_err meta);
        fee_lamports = fee meta;
        priority_fee_lamports =
            sub_floor (fee meta) (base_fee_lamports * required_signatures tx % u64_mod);
        sol_delta_lamports = wallet_delta chain keys meta wallet;
        wsol_delta_lamports = wsol_profit chain meta wallet;
        tip_lamports = tip;
        tip_lane = lane;
        is_tip_leg = is_bare_tip_leg programs tip;
        num_ix = length (instruction_programs tx);
        cu_consumed = compute_units meta;
        cost_units = cost_units meta;
        programs = programs;
        ts = 0;
      }

  abbrev pub is_split : Option ℕ → Bool
  is_split none = false
  is_split (some total) = lt_i64 1 total

  abbrev pub with_signature :
      Node → Option StatusMeta → GoString → GoString → ℕ → ℕ → Tx → List GoString → Built
  with_signature node meta wallet leader slot tx_count tx [] = refused no_signature
  with_signature node none wallet leader slot tx_count tx (sig ∷ _) = refused no_meta
  with_signature node (some meta) wallet leader slot tx_count tx (sig ∷ _) =
      if not (contains_key chain (resolve_keys chain tx meta) wallet)
      then refused not_ours
      else built (
          apply_position (fill_landing tx meta sig wallet leader slot) (position_index node)
            tx_count)

  abbrev pub with_tx : Node → Option StatusMeta → GoString → GoString → ℕ → ℕ → Option Tx → Built
  with_tx node meta wallet leader slot tx_count none = refused undecodable
  with_tx node meta wallet leader slot tx_count (some tx) =
      with_signature node meta wallet leader slot tx_count tx (signatures tx)

  unfoldable pub build_landing : Node → Option StatusMeta → GoString → GoString → ℕ → ℕ → Built
  build_landing node meta wallet leader slot tx_count =
      if is_split (data_total node)
      then refused split_tx_data
      else with_tx node meta wallet leader slot tx_count (decode_tx (data_bytes node))

  -- `collect`: a transaction that is refused is passed over. `now` is what the clock says when
  -- `collect` begins, which is not the time of the block.
  abbrev pub keep : ℕ → Built → List Landing → List Landing
  keep now (built l) rest = record l { ts = now } ∷ rest
  keep now (refused _) rest = rest

  unfoldable pub collect :
      ℕ → GoString → GoString → ℕ → ℕ → List (Node × Option StatusMeta) → List Landing
  collect now wallet leader slot tx_count [] = []
  collect now wallet leader slot tx_count ((node, meta) ∷ r) =
      keep now (build_landing node meta wallet leader slot tx_count)
        (collect now wallet leader slot tx_count r)
