-- ===== src/Table/Schema.antt =====
-- internal/table/engine.go: the registry of user-defined tables and the physical tables.
pub mod Atomic
pub mod Growth
pub mod Adding
use flagbase.Prelude.{
  ℕ, zero, suc, ◌+◌, String, Bool, true, false, not, ◌&&◌, ◌||◌, List, [], ◌∷◌, ◌++◌, any, keep,
  first, length, leb, eqb, lookup, Option, none, some, ◌==◌, if◌then◌else◌, update_where, map,
}
use mathlib.Core.Bool.{xor}
use flagbase.Db.{
  Error, driver, unique, foreign_key, duplicate_column, table_not_found, column_conflict,
  column_needs_default, Result, ok, err, Op, pure, raise, lift, require, statement, execute, query,
  transaction, ◌>>=◌, ◌>>◌,
}
use flagbase.Ids.{new_id}
use flagbase.Sorting.{Sorting}
use flagbase.Table.{ColumnType, Column, TableDef, Value, Record}
use flagbase.Table.Validate.{validate_key, validate_column}
use flagbase.Table.Ddl.{build_create_ddl, build_alter_ddl}

-- A row of table_definitions.
pub record Definition : Type 0 where
  pub key : String
  pub name : String
  pub description : String
  pub created_at : ℕ
  pub updated_at : ℕ

-- A stored record; `flag_ctx` is none for NULL.
pub record Row : Type 0 where
  pub id : String
  pub created_at : ℕ
  pub updated_at : ℕ
  pub flag_ctx : Option String
  pub values : List (String × Value)

-- A physical table, with the columns that the data definition statements have given it.
pub record Physical : Type 0 where
  pub columns : List Column
  pub rows : List Row

-- `published` is what the event bus has been given, none where no bus is attached: each record under
-- the key of its table, which the subject flagbase.table.{key}.created names.
-- Physical tables stand under the user's key: sqlTableName only puts a prefix before it.
pub record Tables : Type 0 where
  pub definitions : List Definition
  pub table_columns : List Column
  pub physical : List (String × Physical)
  pub published : Option (List (String × Record))

abbrev pub has_definition : Tables → String → Bool
has_definition t key = any (λ d. d.key == key) t.definitions

unfoldable pub insert_definition : Definition → Tables → Result (Unit {0} × Tables)
insert_definition d t =
    if has_definition t d.key
    then err unique
    else ok (tt, record t { definitions = t.definitions ++ d ∷ [] })

unfoldable pub insert_column : Column → Tables → Result (Unit {0} × Tables)
insert_column c t =
    if any (λ d. d.id == c.id || d.table_key == c.table_key && d.name == c.name) t.table_columns
    then err unique
    else if has_definition t c.table_key
    then ok (tt, record t { table_columns = t.table_columns ++ c ∷ [] })
    else err foreign_key

-- Replaces the physical table of a key.
abbrev pub put_physical : String → Physical → List (String × Physical) → List (String × Physical)
put_physical key p [] = []
put_physical key p ((k, q) ∷ m) = if k == key then (k, p) ∷ m else (k, q) ∷ put_physical key p m

-- CREATE TABLE IF NOT EXISTS
unfoldable pub create_physical : String → List Column → Tables → Tables
create_physical key cols t = elim (lookup key t.physical) [
  | some p ↦ t
  | none ↦ record t { physical = t.physical ++ (key, record { columns = cols; rows = [] }) ∷ [] }
]

-- ALTER TABLE … ADD COLUMN
unfoldable pub alter_physical : String → Column → Tables → Result (Unit {0} × Tables)
alter_physical key c t = elim (lookup key t.physical) [
  | none ↦ err driver
  | some p ↦
      if any (λ d. d.name == c.name) p.columns
      then err driver
      else ok (
        tt,
        record t {
          physical = put_physical key (record p { columns = p.columns ++ c ∷ [] }) t.physical;
        },
      )
]

-- DELETE FROM table_definitions WHERE key, with the cascade to table_columns
unfoldable pub delete_definition : String → Tables → Tables
delete_definition key t = record t {
  definitions = keep (λ d. not (d.key == key)) t.definitions;
  table_columns = keep (λ c. not (c.table_key == key)) t.table_columns;
}

-- DROP TABLE IF EXISTS
unfoldable pub drop_physical : String → Tables → Tables
drop_physical key t = record t { physical = keep (λ p. not (p.0 == key)) t.physical }

unfoldable pub touch : String → ℕ → Tables → Tables
touch key now t = record t {
  definitions = update_where (λ d. d.key == key) (λ d. record d { updated_at = now }) t.definitions;
}

-- The first loop of CreateTable: every column is valid and its name is new.
unfoldable pub check_columns : String → ℕ → List String → List Column → Op Tables (List Column)
unfolding validate_column
check_columns key i seen [] = pure []
check_columns key i seen (c ∷ cs) = do
  lift (validate_column c)
  require (not (any (λ n. n == c.name) seen)) (duplicate_column c.name)
  rest ← check_columns key (suc i) (c.name ∷ seen) cs
  pure (record c { table_key = key; position = i } ∷ rest)

-- The second loop: every column gets its identifier and its row.
unfoldable pub insert_columns : ℕ → List Column → Op Tables (List Column)
unfolding new_id insert_column
insert_columns now [] = pure []
insert_columns now (c ∷ cs) = do
  id ← new_id
  let c' = record c { id = id; created_at = now }
  statement (insert_column c')
  rest ← insert_columns now cs
  pure (c' ∷ rest)

abbrev pub column_map : List Column → String → Option Column
column_map cols name = first (λ c. c.name == name) cols

abbrev pub has_default : Column → Bool
has_default c = elim c.default [ none ↦ false | some v ↦ true ]

module _ (accepts : List ℕ → Bool) where
  -- A data definition statement: SQLite has to accept its text.
  abbrev pub define : List ℕ → (Tables → Result (Unit {0} × Tables)) → Op Tables (Unit {0})
  define text f = statement (λ t. if accepts text then f t else err driver)

  unfoldable pub create_table : ℕ → TableDef → Op Tables TableDef
  unfolding validate_key check_columns insert_columns insert_definition create_physical
      build_create_ddl
  create_table now def = do
    lift (validate_key def.key)
    cols ← check_columns def.key 0 [] def.columns
    transaction (do
      statement (
          insert_definition (record {
            key = def.key;
            name = def.name;
            description = def.description;
            created_at = now;
            updated_at = now;
          }))
      cols' ← insert_columns now cols
      define (build_create_ddl def.key cols') (λ t. ok (tt, create_physical def.key cols' t))
      pure (record def { columns = cols'; created_at = now; updated_at = now }))

  -- A column that is new to the table.
  unfoldable pub add_column : String → ℕ → ℕ → Column → Op Tables (Unit {0})
  unfolding new_id insert_column alter_physical build_alter_ddl
  add_column key now pos c = do
    require (c.nullable || has_default c) (column_needs_default c.name)
    id ← new_id
    let c' = record c { id = id; table_key = key; position = pos; created_at = now }
    statement (insert_column c')
    define (build_alter_ddl key c') (alter_physical key c')

  -- The loop over `newCols`; `existing` is the map that was made before it.
  unfoldable pub add_loop :
      (String → Option Column) → String → ℕ → ℕ → List Column → Op Tables (Unit {0})
  unfolding add_column
  add_loop existing key now pos [] = pure tt
  add_loop existing key now pos (c ∷ cs) = do
    lift (validate_column c)
    elim (existing c.name) [
      | some ex ↦ do
        require (ex.col_type == c.col_type && not (xor ex.nullable c.nullable))
            (column_conflict c.name)
        add_loop existing key now pos cs
      | none ↦ do add_column key now pos c; add_loop existing key now (suc pos) cs
    ]

module _ (order : Sorting) where
  unfoldable pub load_columns : String → Tables → List Column
  load_columns key t =
      order.sort Column (λ c d. leb c.position d.position)
        (keep (λ c. c.table_key == key) t.table_columns)

  abbrev pub with_columns : Definition → List Column → TableDef
  with_columns d cols = record {
    key = d.key;
    name = d.name;
    description = d.description;
    columns = cols;
    created_at = d.created_at;
    updated_at = d.updated_at;
  }

  abbrev pub finish_table : Option Definition → Op Tables (Option TableDef)
  finish_table none = pure none
  finish_table (some d) = do cols ← query (load_columns d.key); pure (some (with_columns d cols))

  unfoldable pub get_table : String → Op Tables (Option TableDef)
  unfolding load_columns
  get_table key = do
    found ← query (λ t. first (λ d. d.key == key) t.definitions)
    finish_table found

  unfoldable pub list_tables : Op Tables (List TableDef)
  list_tables = query λ t.
      map (λ d. with_columns d [])
        (order.sort Definition (λ d e. leb d.created_at e.created_at) t.definitions)

abbrev pub found_or : {A : Type 0} → Option A → Error → Op Tables A
found_or none e = raise e
found_or (some a) e = pure a

module _ (order : Sorting) (accepts : List ℕ → Bool) where
  unfoldable pub add_columns : ℕ → String → List Column → Op Tables (Unit {0})
  unfolding get_table add_loop touch
  add_columns now key new_cols = do
    found ← get_table order key
    def ← found_or found (table_not_found key)
    transaction (do
      add_loop accepts (column_map def.columns) key now (length def.columns) new_cols
      execute (touch key now))

unfoldable pub delete_table : String → Op Tables (Unit {0})
unfolding validate_key delete_definition drop_physical
delete_table key = do
  lift (validate_key key)
  transaction (do execute (delete_definition key); execute (drop_physical key))
