-- ===== src/Examples/Ledger.antt =====
-- A small ledger: keys and transactions are numbers, and one transaction tips a Jito account.
use epochfill.Common.{
  ℕ, zero, suc, ◌+◌, ◌%◌, ◌≡◌, refl, Bool, true, false, not, ◌&&◌, none, some, List, [], ◌∷◌, elem,
  nat_eq, all_of, text_equality,
}
use epochfill.Go.Text.{GoString, bytes_of, join}
use epochfill.Go.Text.Sort.{Ascends}
use epochfill.Go.Word.{u64_mod}
use epochfill.Landing.{Landing}
use epochfill.Landing.Tips.{tip_accounts, is_overhead}
use epochfill.Extract.Chain.{Chain}
use epochfill.Extract.Wsol.{wsol_mint, wsol_profit}
use epochfill.Extract.Conservation.{ours_sum, our_indexes, OneEach, wsol_profit_conserves}
use epochfill.Extract.Balance.{tip_paid}
use epochfill.Extract.TipGains.{gains, pays}
use epochfill.Extract.TipLaws.{tip_paid_lem}
use epochfill.Extract.Programs.{resolve_keys, contains_key, sorted_programs}
use epochfill.Extract.ProgramLaws.{invoked, sorted_programs_lem}
use epochfill.Extract.Build.{built, build_landing, fill_landing, apply_position}
use epochfill.Extract.Laws.{is_plain, build_landing_tip_leg}

-- The key 0 is the wallet, 1 a tip account, 2 the system program; any other is "x".
abbrev pub key_text : ℕ → GoString
key_text zero = bytes_of "w"
key_text (suc zero) = bytes_of "96gYZGLnJYVFmbjzopPSU6QiEV5fGqZNyN9nmNhvrZU5"
key_text (suc (suc zero)) = bytes_of "11111111111111111111111111111111"
key_text _ = bytes_of "x"

-- A token balance: mint, owner, account index and amount.
pub record Balance : Type 0 where
  pub mint : GoString
  pub owner : GoString
  pub index : ℕ
  pub amount : GoString

abbrev pub wrapped : ℕ → GoString → Balance
wrapped index amount = record {
  mint = wsol_mint;
  owner = bytes_of "w";
  index = index;
  amount = amount;
}

abbrev pub ledger : Chain
ledger = record {
  PublicKey = ℕ;
  Tx = List ℕ;
  Node = List ℕ;
  StatusMeta = Unit;
  TokenBalance = Balance;
  key_string = key_text;
  key_from_bytes = λ b. 9;
  data_total = λ n. none;
  data_bytes = λ n. n;
  position_index = λ n. some 3;
  decode_tx = λ b. some b;
  signatures = λ t. bytes_of "sig" ∷ [];
  account_keys = λ t. t;
  required_signatures = λ t. 1;
  instruction_programs = λ t. 2 ∷ [];
  fee = λ m. 6000;
  has_err = λ m. false;
  pre_balances = λ m. 9000 ∷ 10 ∷ 1 ∷ [];
  post_balances = λ m. 2000 ∷ 1010 ∷ 1 ∷ [];
  pre_token_balances = λ m. wrapped 4 (bytes_of "70") ∷ wrapped 5 (bytes_of "5") ∷ [];
  post_token_balances = λ m. wrapped 4 (bytes_of "90") ∷ [];
  inner_programs = λ m. (2 ∷ 8 ∷ []) ∷ [];
  loaded_writable = λ m. [];
  loaded_readonly = λ m. [];
  compute_units = λ m. 150;
  cost_units = λ m. 900;
  mint = λ b. b.mint;
  owner = λ b. b.owner;
  account_index = λ b. b.index;
  amount = λ b. b.amount;
}

abbrev transfer : List ℕ
transfer = 0 ∷ 1 ∷ 2 ∷ []

one_each :
    OneEach ledger (bytes_of "w") (our_indexes ledger (bytes_of "w") (ledger.pre_token_balances tt))
unfolding wsol_mint
one_each = (refl, (refl, tt))

wsol_profit_conserves_example :
    (wsol_profit ledger tt (bytes_of "w")
        + ours_sum ledger (bytes_of "w") (ledger.pre_token_balances tt))
      % u64_mod
    ≡ ours_sum ledger (bytes_of "w") (ledger.post_token_balances tt) % u64_mod
wsol_profit_conserves_example = wsol_profit_conserves ledger (bytes_of "w") tt one_each

tip_paid_lem_example :
    (ls : List GoString) × ((tip_paid ledger transfer tt).1 ≡ join (b',' ∷ []) ls)
    × Ascends ls
    × ((lane : GoString)
        → elem lane ls
          ≡ pays ledger tip_accounts lane transfer
              (ledger.pre_balances tt)
              (ledger.post_balances tt))
    × ((tip_paid ledger transfer tt).0
        ≡ gains ledger tip_accounts transfer (ledger.pre_balances tt) (ledger.post_balances tt)
          % u64_mod)
tip_paid_lem_example = tip_paid_lem ledger transfer tt

sorted_programs_lem_example :
    Ascends (sorted_programs ledger transfer tt transfer)
    × ((s : GoString)
        → elem s (sorted_programs ledger transfer tt transfer)
          ≡ elem s (invoked ledger transfer tt transfer))
    × ((p : GoString → Bool)
        → all_of p (sorted_programs ledger transfer tt transfer)
          ≡ all_of p (invoked ledger transfer tt transfer))
sorted_programs_lem_example = sorted_programs_lem ledger transfer tt transfer

key_plain : (k : ℕ) → is_plain (key_text k) ≡ true
key_plain zero = refl
key_plain (suc zero) = refl
key_plain (suc (suc zero)) = refl
key_plain (suc (suc (suc k))) = refl

abbrev transfer_row : Landing
transfer_row =
    apply_position (fill_landing ledger transfer tt (bytes_of "sig") (bytes_of "w") [] 7) (some 3) 4

transfer_built : build_landing ledger transfer (some tt) (bytes_of "w") [] 7 4 ≡ built transfer_row
unfolding build_landing resolve_keys contains_key
transfer_built = refl

build_landing_tip_leg_example :
    (tx : List ℕ) × (status : Unit) × (some transfer ≡ some tx)
    × (some tt ≡ some status)
    × (transfer_row.is_tip_leg ≡ (
        not (nat_eq transfer_row.tip_lamports 0)
        && all_of is_overhead (invoked ledger tx status (resolve_keys ledger tx status))))
build_landing_tip_leg_example =
    build_landing_tip_leg ledger key_plain transfer (some tt) (bytes_of "w") [] 7 4 transfer_row
      transfer_built
