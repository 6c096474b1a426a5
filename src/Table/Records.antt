-- ===== src/Table/Records.antt =====
-- internal/table/records.go: records, their validation and the queries.
pub mod Rows
pub mod Operations
pub mod Validity
pub mod Querying
pub mod Changes
pub mod Undoing
mod Tests
use flagbase.Prelude.{
  ℕ, String, Bool, true, false, not, ◌&&◌, ◌||◌, List, [], ◌∷◌, ◌++◌, map, any, all, keep, first,
  lookup, take, drop, leb, eqb, Option, none, some, ◌==◌, if◌then◌else◌,
}
use flagbase.Prelude.Int.{ℤ, pos, negsuc}
use flagbase.Text.{codes}
use flagbase.Db.{
  Error, driver, table_not_found, unknown_column, column_required, not_nullable, wrong_value,
  unsupported_operator, Result, ok, err, Op, pure, raise, lift, require, ignore, statement, ◌>>=◌,
  ◌>>◌,
}
use flagbase.Ids.{new_id}
use flagbase.Sorting.{Sorting}
use flagbase.Table.{
  ColumnType, Column, column_type_text, column_type_integer, column_type_real, column_type_boolean,
  TableDef, Value, nil, float64, float32, int, int32, int64, bool, string, other, Record, Filter,
  QueryOptions,
}
use flagbase.Table.Validate.{validate_key}
use flagbase.Table.Schema.{Row, Physical, Tables, column_map, has_default, get_table, found_or}
use flagbase.Table.Records.Rows.{
  Sqlite, is_tagged, on_physical, cell, insert_row, update_row, delete_rows, clear_tags, select,
}

abbrev pub is_number : Value → Bool
is_number (float64 m e) = true
is_number (float32 m e) = true
is_number (int n) = true
is_number (int32 n) = true
is_number (int64 n) = true
is_number v = false

abbrev pub is_bool : Value → Bool
is_bool (bool b) = true
is_bool v = false

abbrev pub is_string : Value → Bool
is_string (string s) = true
is_string v = false

unfoldable pub validate_typed : Column → Value → Result (Unit {0})
validate_typed c v =
    if c.col_type == column_type_integer || c.col_type == column_type_real
    then (if is_number v then ok tt else err (wrong_value c.name))
    else if c.col_type == column_type_boolean
    then (if is_bool v then ok tt else err (wrong_value c.name))
    else if c.col_type == column_type_text
    then (if is_string v then ok tt else err (wrong_value c.name))
    else ok tt

unfoldable pub validate_value : Column → Value → Result (Unit {0})
unfolding validate_typed
validate_value c nil = if not c.nullable then err (not_nullable c.name) else ok tt
validate_value c v = validate_typed c v

-- The first loop of buildInsertData, over the supplied data.
unfoldable pub check_names : List Column → List (String × Value) → Result (Unit {0})
check_names cols [] = ok tt
check_names cols ((k, v) ∷ input) = elim (column_map cols k) [
  | none ↦ err (unknown_column k)
  | some c ↦ check_names cols input
]

-- Puts a checked value before the other ones.
abbrev pub supplied :
    String
    → Value
    → Result (Unit {0})
    → Result (List (String × Value))
    → Result (List (String × Value))
supplied name v (err e) rest = err e
supplied name v (ok u) (err e) = err e
supplied name v (ok u) (ok vs) = ok ((name, v) ∷ vs)

-- The second loop of buildInsertData, over the columns.
unfoldable pub insert_values : List Column → List (String × Value) → Result (List (String × Value))
unfolding validate_value
insert_values [] input = ok []
insert_values (c ∷ cs) input =
    let rest = insert_values cs input in
    elim (lookup c.name input) [
      | none ↦ if not c.nullable && not (has_default c) then err (column_required c.name) else rest
      | some v ↦ supplied c.name v (validate_value c v) rest
    ]

abbrev pub then_values :
    Result (Unit {0}) → Result (List (String × Value)) → Result (List (String × Value))
then_values (err e) r = err e
then_values (ok u) r = r

-- The names and values go in pairs.
unfoldable pub build_insert_data :
    List Column → List (String × Value) → Result (List (String × Value))
unfolding check_names insert_values
build_insert_data cols input = then_values (check_names cols input) (insert_values cols input)

-- buildRecord, for one column: an int64 in a BOOLEAN column becomes a bool.
unfoldable pub shown : Column → Value → Value
shown c (int64 n) = if c.col_type == column_type_boolean then bool (not (is_zero n)) else int64 n
  where
    is_zero : ℤ → Bool
    is_zero (pos k) = eqb k 0
    is_zero (negsuc k) = false
shown c v = v

module _ (sqlite : Sqlite) where
  unfoldable pub build_record : List Column → Row → Record
  unfolding shown cell
  build_record cols r = record {
    id = r.id;
    created_at = r.created_at;
    updated_at = r.updated_at;
    values = map (λ c. (c.name, shown c (cell sqlite.default_of r c))) cols;
  }

  abbrev pub fetch : String → List Column → String → Op Tables (Option Record)
  fetch key cols id = statement (
      select key cols (λ p. elim (first (λ r. r.id == id) p.rows) [
        | none ↦ none
        | some r ↦ some (build_record cols r)
      ]))

module _ (order : Sorting) (sqlite : Sqlite) where
  unfoldable pub get_record : String → String → Op Tables (Option Record)
  unfolding get_table build_record
  get_record key id = do
    found ← get_table order key
    def ← found_or found (table_not_found key)
    fetch sqlite key def.columns id

-- Publish, where a bus is attached; a failure of it or of json.Marshal is dropped.
abbrev pub announce : String → Option Record → Op Tables (Unit {0})
announce subject none = pure tt
announce subject (some r) = ignore (
    statement (λ t. elim t.published [
      | none ↦ ok (tt, t)
      | some ms ↦ ok (tt, record t { published = some (ms ++ (subject, r) ∷ []) })
    ]))
