-- ===== src/Landing/Open.antt =====
-- `OpenDB` of landing/landing.go: the columns of the landing table, in a new database and in one that
-- was made before some of them existed.
use mathlib.Core.Path.{subst}
use Prim.Native.String.{String}
use epochfill.Common.{
  ◌≡◌, ◌∙◌, refl, Bool, true, false, Bool-cases, inl, inr, ◌||◌, Option, none, some, List, [], ◌∷◌,
  ◌++◌, take, ◌==◌, ◌&&◌, elem, all_of, if◌then◌else◌, arith,
}
use epochfill.Landing.{schema, insert_columns, string_equality, ColumnType}
use epochfill.Go.Map.{Map}

-- The columns of the migrations.
abbrev pub added_columns : List String
added_columns = "cu_consumed" ∷ "cost_units" ∷ "tip_lane" ∷ []

abbrev column_names : Map String ColumnType → List String
column_names [] = []
column_names ((c, t) ∷ m) = c ∷ column_names m

-- `CREATE TABLE IF NOT EXISTS`; `none` is a database without the table.
abbrev pub create_table : Option (List String) → List String
create_table none = column_names schema
create_table (some columns) = columns

-- `ALTER TABLE ADD COLUMN`, whose error is ignored: `fails` is one that is not a column that exists.
abbrev pub add_column : Bool → String → List String → List String
add_column fails c columns =
    if fails then columns else if elem c columns then columns else columns ++ (c ∷ [])

abbrev pub migrate : (String → Bool) → List String → List String → List String
migrate fails [] columns = columns
migrate fails (c ∷ r) columns = migrate fails r (add_column (fails c) c columns)

-- `none` is an error, of `sql.Open` or of the schema.
unfoldable pub open_db : Bool → (String → Bool) → Option (List String) → Option (List String)
open_db opens fails table =
    if opens then some (migrate fails added_columns (create_table table)) else none

some-inj : {l m : List String} → some l ≡ some m → l ≡ m
some-inj e = cc

-- The columns of the INSERT that no migration adds.
abbrev pub first_columns : List String
first_columns = take 17 insert_columns

elem-snoc :
    (b c : String) (columns : List String)
    → elem b (columns ++ (c ∷ [])) ≡ (elem b columns || (c == b))
elem-snoc b c [] = ground arith
elem-snoc b c (d ∷ r) = ground (arith, elem-snoc b c r)

elem-add_column :
    (b c : String) (columns : List String)
    → elem b (add_column false c columns) ≡ (elem b columns || (c == b))
elem-add_column b c columns = elim (Bool-cases (elem c columns)) [
  | inr new ↦ rw new (elem-snoc b c columns)
  | inl old ↦ elim (Bool-cases (c == b)) [
    | inr apart ↦ rw (old, apart) (ground arith)
    | inl same ↦
        let e : c ≡ b = (string_equality.beq_iff c b).0 same in
        let there : elem b columns ≡ true = subst (λ d. elem d columns ≡ true) e old in
        rw (old, there) refl
  ]
]

-- After the migrations, none of which fails, a column is there if it was there or was added.
elem-migrate :
    (b : String) (added columns : List String)
    → elem b (migrate (λ _. false) added columns) ≡ (elem b columns || elem b added)
elem-migrate b [] columns = ground arith
elem-migrate b (c ∷ r) columns =
    elem-migrate b r (add_column false c columns) ∙ (ground (arith, elem-add_column b c columns))

all_of-kept :
    (l added columns : List String)
    → all_of (λ c. elem c columns) l ≡ true
    → all_of (λ c. elem c (migrate (λ _. false) added columns)) l ≡ true
all_of-kept [] added columns h = refl
all_of-kept (c ∷ r) added columns h =
    ground (arith, elem-migrate c added columns, all_of-kept r added columns)

all_of-added :
    (l added columns : List String)
    → all_of (λ c. elem c added) l ≡ true
    → all_of (λ c. elem c (migrate (λ _. false) added columns)) l ≡ true
all_of-added [] added columns h = refl
all_of-added (c ∷ r) added columns h =
    ground (arith, elem-migrate c added columns, all_of-added r added columns)

all_of-append :
    (p : String → Bool) (l m : List String) → all_of p (l ++ m) ≡ (all_of p l && all_of p m)
all_of-append p [] m = ground arith
all_of-append p (c ∷ r) m = ground (arith, all_of-append p r m)

-- A database of any age, which has the columns that no migration adds: if it opens, and no migration
-- fails but for a column that exists, its table has every column that the INSERT names.
pub open_db_columns :
    (table opened : List String)
    → all_of (λ c. elem c table) first_columns ≡ true
    → open_db true (λ _. false) (some table) ≡ some opened
    → all_of (λ c. elem c opened) insert_columns ≡ true
unfolding open_db
open_db_columns table opened old e =
    subst (λ l. all_of (λ c. elem c l) insert_columns ≡ true) (some-inj e)
      (all_of-append (λ c. elem c (migrate (λ _. false) added_columns table)) first_columns
          added_columns
        ∙ (rw
            (
              all_of-kept first_columns added_columns table old,
              all_of-added added_columns added_columns table refl,
            )
            refl))

-- A new database has them too.
pub open_db_new : all_of (λ c. elem c (column_names schema)) insert_columns ≡ true
open_db_new = refl
