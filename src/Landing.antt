-- ===== src/Landing.antt =====
-- `Landing`, `Args`, `boolInt`, `Schema` and `InsertSQL` of landing/landing.go. A Go string is its
-- bytes. An `int64` is its bit pattern. `position_pct` is kept as the fraction that the floating
-- point division rounds: numerator and denominator. `database/sql` refuses a `uint64` whose high bit
-- is set; that is one of the faults of the statement in `Store`. The tip lanes of landing/tips.go are `Tips`.
pub mod Tips
pub mod Open
use Prim.Native.String.{String}
use package.text.Mathlib.Text.{◌==◌ as str_eq}
use package.text.Mathlib.TextEquality.{eq_iff}
use epochfill.Common.{
  ℕ, zero, suc, ◌≡◌, refl, Bool, true, false, Option, none, some, List, [], ◌∷◌, Eq, ◌>>=◌,
}
use epochfill.Go.Map.{Map, lookup}
use epochfill.Go.Text.{GoString}

abbrev pub base_fee_lamports : ℕ
base_fee_lamports = 5000

pub record Landing : Type 0 where
  pub sig : GoString
  pub slot : ℕ
  pub block_index : ℕ
  pub block_tx_count : Option ℕ
  pub position_pct : Option (ℕ × ℕ)
  pub leader : GoString
  pub leader_version : GoString
  pub landed : Bool
  pub fee_lamports : ℕ
  pub priority_fee_lamports : ℕ
  pub sol_delta_lamports : ℕ
  pub wsol_delta_lamports : ℕ
  pub tip_lamports : ℕ
  pub tip_lane : GoString
  pub is_tip_leg : Bool
  pub num_ix : ℕ
  pub cu_consumed : ℕ
  pub cost_units : ℕ
  pub programs : GoString
  pub ts : ℕ

-- A bind argument: a text, an integer, or a nullable integer or real.
pub data Arg : Type 0 where
  text : GoString → Arg
  integer : ℕ → Arg
  null_integer : Option ℕ → Arg
  null_real : Option (ℕ × ℕ) → Arg

bool_int : Bool → ℕ
bool_int true = 1
bool_int false = 0

pub args : Landing → List Arg
unfolding bool_int
args l =
    text l.sig
    ∷ integer l.slot
    ∷ integer l.block_index
    ∷ null_integer l.block_tx_count
    ∷ null_real l.position_pct
    ∷ text l.leader
    ∷ text l.leader_version
    ∷ integer (bool_int l.landed)
    ∷ integer l.fee_lamports
    ∷ integer l.priority_fee_lamports
    ∷ integer l.sol_delta_lamports
    ∷ integer l.wsol_delta_lamports
    ∷ integer l.tip_lamports
    ∷ integer (bool_int l.is_tip_leg)
    ∷ integer l.num_ix
    ∷ text l.programs
    ∷ integer l.ts
    ∷ integer l.cu_consumed
    ∷ integer l.cost_units
    ∷ text l.tip_lane
    ∷ []

-- The columns of `InsertSQL`, in its order.
abbrev pub insert_columns : List String
insert_columns =
    "sig" ∷ "slot" ∷ "block_index" ∷ "block_tx_count" ∷ "position_pct" ∷ "leader" ∷ "leader_version"
    ∷ "landed" ∷ "fee_lamports" ∷ "priority_fee_lamports" ∷ "sol_delta_lamports"
    ∷ "wsol_delta_lamports" ∷ "tip_lamports" ∷ "is_tip_leg" ∷ "n_ix" ∷ "programs" ∷ "ts"
    ∷ "cu_consumed" ∷ "cost_units" ∷ "tip_lane" ∷ []

-- The columns of `Schema`, with the type that each declares.
pub data ColumnType : Type 0 where
  text_column integer_column real_column : ColumnType

abbrev pub schema : Map String ColumnType
schema =
    ("sig", text_column)
    ∷ ("slot", integer_column)
    ∷ ("block_index", integer_column)
    ∷ ("block_tx_count", integer_column)
    ∷ ("position_pct", real_column)
    ∷ ("leader", text_column)
    ∷ ("leader_version", text_column)
    ∷ ("landed", integer_column)
    ∷ ("fee_lamports", integer_column)
    ∷ ("priority_fee_lamports", integer_column)
    ∷ ("sol_delta_lamports", integer_column)
    ∷ ("wsol_delta_lamports", integer_column)
    ∷ ("tip_lamports", integer_column)
    ∷ ("is_tip_leg", integer_column)
    ∷ ("n_ix", integer_column)
    ∷ ("programs", text_column)
    ∷ ("ts", integer_column)
    ∷ ("cu_consumed", integer_column)
    ∷ ("cost_units", integer_column)
    ∷ ("tip_lane", text_column)
    ∷ []

instance abbrev string_equality : Eq String
string_equality = record { beq = str_eq; beq_iff = eq_iff }

-- The `i`-th placeholder of `VALUES` takes the `i`-th argument, for the `i`-th column; `none` is
-- a statement whose numbers differ, which the driver refuses.
bind : List String → List Arg → Option (Map String Arg)
bind [] [] = some []
bind [] (x ∷ r) = none
bind (c ∷ cs) [] = none
bind (c ∷ cs) (x ∷ r) = do row ← bind cs r; some ((c, x) ∷ row)

-- The row that `InsertSQL` writes for a landing.
pub row : Landing → Option (Map String Arg)
unfolding args bind
row l = bind insert_columns (args l)

-- Reading a row back by the names of the columns and by their types in the schema.
abbrev as_text : ColumnType → Arg → Option GoString
as_text text_column (text s) = some s
as_text _ _ = none

abbrev as_integer : ColumnType → Arg → Option ℕ
as_integer integer_column (integer n) = some n
as_integer _ _ = none

abbrev as_bool : ColumnType → Arg → Option Bool
as_bool integer_column (integer zero) = some false
as_bool integer_column (integer (suc zero)) = some true
as_bool _ _ = none

abbrev as_null_integer : ColumnType → Arg → Option (Option ℕ)
as_null_integer integer_column (null_integer n) = some n
as_null_integer _ _ = none

abbrev as_null_real : ColumnType → Arg → Option (Option (ℕ × ℕ))
as_null_real real_column (null_real x) = some x
as_null_real _ _ = none

abbrev read_column {ℓ} :
    {A : Type ℓ} → (ColumnType → Arg → Option A) → Map String Arg → String → Option A
read_column as_type r c = do type ← lookup c schema; x ← lookup c r; as_type type x

pub read_row : Map String Arg → Option Landing
read_row r = do
  sig ← read_column as_text r "sig"
  slot ← read_column as_integer r "slot"
  block_index ← read_column as_integer r "block_index"
  block_tx_count ← read_column as_null_integer r "block_tx_count"
  position_pct ← read_column as_null_real r "position_pct"
  leader ← read_column as_text r "leader"
  leader_version ← read_column as_text r "leader_version"
  landed ← read_column as_bool r "landed"
  fee ← read_column as_integer r "fee_lamports"
  priority_fee ← read_column as_integer r "priority_fee_lamports"
  sol_delta ← read_column as_integer r "sol_delta_lamports"
  wsol_delta ← read_column as_integer r "wsol_delta_lamports"
  tip ← read_column as_integer r "tip_lamports"
  is_tip_leg ← read_column as_bool r "is_tip_leg"
  num_ix ← read_column as_integer r "n_ix"
  programs ← read_column as_text r "programs"
  ts ← read_column as_integer r "ts"
  cu ← read_column as_integer r "cu_consumed"
  cost ← read_column as_integer r "cost_units"
  tip_lane ← read_column as_text r "tip_lane"
  some (record {
    sig = sig;
    slot = slot;
    block_index = block_index;
    block_tx_count = block_tx_count;
    position_pct = position_pct;
    leader = leader;
    leader_version = leader_version;
    landed = landed;
    fee_lamports = fee;
    priority_fee_lamports = priority_fee;
    sol_delta_lamports = sol_delta;
    wsol_delta_lamports = wsol_delta;
    tip_lamports = tip;
    tip_lane = tip_lane;
    is_tip_leg = is_tip_leg;
    num_ix = num_ix;
    cu_consumed = cu;
    cost_units = cost;
    programs = programs;
    ts = ts;
  })

as_bool-bool_int : (b : Bool) → as_bool integer_column (integer (bool_int b)) ≡ some b
unfolding bool_int
as_bool-bool_int true = refl
as_bool-bool_int false = refl

-- The argument list fits the statement: reading the inserted row back by the statement's column
-- names, each at the type that the schema declares, gives the landing.
pub read_row-row : (l : Landing) → (row l >>= read_row) ≡ some l
unfolding row read_row
read_row-row l = simp as_bool-bool_int
