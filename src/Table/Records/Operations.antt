-- ===== src/Table/Records/Operations.antt =====
-- internal/table/records.go: the operations on the records of a table.
use flagbase.Prelude.{
  ℕ, String, Bool, not, ◌||◌, List, [], ◌∷◌, ◌++◌, map, all, keep, take, drop, leb, eqb, Option,
  none, some, ◌==◌, if◌then◌else◌,
}
use flagbase.Prelude.Int.{ℤ, pos, negsuc}
use flagbase.Text.{codes}
use flagbase.Db.{
  table_not_found, unknown_column, unsupported_operator, Result, ok, err, Op, pure, lift, statement,
  ◌>>=◌, ◌>>◌,
}
use flagbase.Ids.{new_id}
use flagbase.Sorting.{Sorting}
use flagbase.Table.{Column, Value, Record, Filter, QueryOptions}
use flagbase.Table.Validate.{validate_key}
use flagbase.Table.Schema.{Row, Tables, column_map, get_table, found_or}
use flagbase.Table.Records.Rows.{
  Sqlite, is_tagged, on_physical, cell, insert_row, update_row, delete_rows, clear_tags, select,
}
use flagbase.Table.Records.{validate_value, build_insert_data, build_record, get_record, announce}

-- safeOp: the operator of SQL.
unfoldable pub safe_op : String → Option String
safe_op op =
    if op == "equals"
    then some "="
    else if op == "not_equals"
    then some "!="
    else if op == "contains"
    then some "LIKE"
    else if op == "gt"
    then some ">"
    else if op == "gte"
    then some ">="
    else if op == "lt"
    then some "<"
    else if op == "lte"
    then some "<="
    else none

-- A clause of WHERE: the column, the operator and the argument.
pub record Clause : Type 0 where
  pub column : Column
  pub operator : String
  pub argument : List ℕ

abbrev pub argument_of : Filter → List ℕ
argument_of f =
    if f.operator == "contains" then codes "%" ++ (codes f.value ++ codes "%") else codes f.value

abbrev pub clause_of : Filter → Option Column → Option String → Result Clause
clause_of f none op = err (unknown_column f.column)
clause_of f (some c) none = err (unsupported_operator f.operator)
clause_of f (some c) (some op) = ok (record { column = c; operator = op; argument = argument_of f })

abbrev pub with_clause : Result Clause → Result (List Clause) → Result (List Clause)
with_clause (err e) rest = err e
with_clause (ok c) (err e) = err e
with_clause (ok c) (ok cs) = ok (c ∷ cs)

-- The loop over the filters.
unfoldable pub where_clauses : List Column → List Filter → Result (List Clause)
unfolding safe_op
where_clauses cols [] = ok []
where_clauses cols (f ∷ fs) =
    with_clause (clause_of f (column_map cols f.column) (safe_op f.operator))
      (where_clauses cols fs)

unfoldable pub limit_of : ℤ → ℕ
limit_of (pos n) = if eqb n 0 || not (leb n 1000) then 100 else n
limit_of (negsuc n) = 100

-- A negative OFFSET counts as none.
unfoldable pub offset_of : ℤ → ℕ
offset_of (pos n) = n
offset_of (negsuc n) = 0

-- The loop of UpdateRecord.
unfoldable pub check_update : List Column → List (String × Value) → Result (Unit {0})
check_update cols [] = ok tt
check_update cols ((k, v) ∷ input) =
    let rest = check_update cols input in
    elim (column_map cols k) [
      | none ↦ err (unknown_column k)
      | some c ↦ elim (validate_value c v) [ err e ↦ err e | ok u ↦ rest ]
    ]

module _ (order : Sorting) (sqlite : Sqlite) where
  -- What both ways to insert a record share, up to the statement.
  abbrev pub insert_tagged :
      ℕ → String → List (String × Value) → Option String → Op Tables (Option Record)
  insert_tagged now key input tag = do
    found ← get_table order key
    def ← found_or found (table_not_found key)
    values ← lift (build_insert_data def.columns input)
    id ← new_id
    statement (on_physical key (insert_row sqlite id now tag values))
    get_record order sqlite key id

  unfoldable pub insert_record : ℕ → String → List (String × Value) → Op Tables (Option Record)
  unfolding get_table build_insert_data new_id insert_row get_record
  insert_record now key input = do
    got ← insert_tagged now key input none
    announce key got
    pure got

  unfoldable pub insert_record_flagged :
      ℕ → String → List (String × Value) → String → Op Tables (Option Record)
  unfolding get_table build_insert_data new_id insert_row get_record
  insert_record_flagged now key input flag_ctx = insert_tagged now key input (some flag_ctx)

  -- The end of UpdateRecord.
  abbrev pub updated_record : String → String → ℕ → Op Tables (Option Record)
  updated_record key id n = if eqb n 0 then pure none else get_record order sqlite key id

  abbrev pub apply_update : ℕ → String → String → List (String × Value) → Op Tables (Option Record)
  apply_update now key id [] = get_record order sqlite key id
  apply_update now key id (a ∷ more) = do
    n ← statement (on_physical key (update_row sqlite id now (a ∷ more)))
    updated_record key id n

  unfoldable pub update_record :
      ℕ → String → String → List (String × Value) → Op Tables (Option Record)
  unfolding get_table check_update update_row get_record
  update_record now key id input = do
    found ← get_table order key
    def ← found_or found (table_not_found key)
    lift (check_update def.columns input)
    apply_update now key id input

  -- A row that passes every clause.
  unfoldable pub passes : List Clause → Row → Bool
  unfolding cell
  passes cs r =
      all (λ c. sqlite.compare c.operator (cell sqlite.default_of r c.column) c.argument) cs

  -- WHERE, ORDER BY _created_at, LIMIT and OFFSET.
  unfoldable pub chosen : List Clause → ℕ → ℕ → List Row → List Row
  unfolding passes
  chosen cs limit offset rows =
      take limit (
        drop offset (order.sort Row (λ r s. leb r.created_at s.created_at) (keep (passes cs) rows)))

  unfoldable pub query_records : String → QueryOptions → Op Tables (List Record)
  unfolding get_table where_clauses limit_of offset_of chosen build_record
  query_records key opts = do
    found ← get_table order key
    def ← found_or found (table_not_found key)
    clauses ← lift (where_clauses def.columns opts.filters)
    statement (
        select key def.columns (λ p.
          map (build_record sqlite def.columns)
            (chosen clauses (limit_of opts.limit) (offset_of opts.offset) p.rows)))

unfoldable pub rollback_by_flag_ctx : String → String → Op Tables ℕ
unfolding validate_key delete_rows
rollback_by_flag_ctx key flag_ctx = do
  lift (validate_key key)
  statement (on_physical key (delete_rows (is_tagged flag_ctx)))

unfoldable pub promote_by_flag_ctx : String → String → Op Tables ℕ
unfolding validate_key clear_tags
promote_by_flag_ctx key flag_ctx = do
  lift (validate_key key)
  statement (on_physical key (clear_tags flag_ctx))

unfoldable pub delete_record : String → String → Op Tables (Unit {0})
unfolding validate_key delete_rows
delete_record key id = do
  lift (validate_key key)
  _ ← statement (on_physical key (delete_rows (λ r. r.id == id)))
  pure tt
