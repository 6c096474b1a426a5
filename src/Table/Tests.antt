-- ===== src/Table/Tests.antt =====
-- Runs of internal/table/engine.go at small inputs, and the theorems at inputs that meet them.
use flagbase.Prelude.{
  ℕ, Bool, true, false, ◌≡◌, ◌≢◌, ◌↔◌, refl, [], ◌∷◌, ◌++◌, List, none, some, arith, eq_iff,
}
use flagbase.Text.{codes, trim_space, replace_all}
use flagbase.Db.{Session, Result, ok, err, statement, draw, transaction, column_needs_default}
use flagbase.Db.Ensures.{Ensures}
use flagbase.Ids.{new_id, encode_to_string}
use flagbase.Sorting.Insertion.{insertion}
use flagbase.Table.{ColumnType, Column, column_type_integer, column_type_real, column_type_boolean}
use flagbase.Table.Validate.{
  validate_key, validate_column, key_pattern, is_reserved, valid_column_type,
}
use flagbase.Table.Ddl.{
  sql_literal, default_fragment, sql_col_type, sql_table_name, col_fragment, build_alter_ddl,
}
use flagbase.Table.Ddl.Literals.{read_literal, read_literal-sql_literal}
use flagbase.Table.Ddl.Names.{IsKey, validate_key_iff}
use flagbase.Table.Schema.{
  Tables, insert_column, alter_physical, touch, add_column, add_loop, add_columns, load_columns,
  get_table,
}
use flagbase.Table.Schema.Atomic.{change, add, change_atomic}
use flagbase.Table.Schema.Adding.{Extended, add_columns_extends}

abbrev title : Column
title = record {
  id = "c1";
  table_key = "tasks";
  name = "title";
  col_type = "text";
  nullable = true;
  default = none;
  position = 0;
  created_at = 1;
}

abbrev stored : Tables
stored = record {
  definitions =
      record { key = "tasks"; name = "Tasks"; description = ""; created_at = 1; updated_at = 1 }
      ∷ [];
  table_columns = title ∷ [];
  physical = ("tasks", record { columns = title ∷ []; rows = [] }) ∷ [];
  published = none;
}

abbrev started : Session Tables
started = record { state = stored; faults = []; draws = some (1 ∷ []) ∷ some (2 ∷ []) ∷ [] }

-- A column that existing rows can do without, and one that they cannot.
abbrev done : Column
done = record title {
  name = "done";
  col_type = "boolean";
  nullable = false;
  default = some "false";
}

abbrev owner : Column
owner = record title { name = "owner"; nullable = false }

abbrev any_text : List ℕ → Bool
any_text s = true

-- What a run looks into.
running : Unit {0}
unfolding mathlib.Core.Bool.xor add_columns add_loop add_column get_table load_columns insertion
    touch new_id draw statement transaction insert_column alter_physical build_alter_ddl
    col_fragment default_fragment sql_literal sql_col_type sql_table_name validate_column
    is_reserved key_pattern valid_column_type encode_to_string change trim_space replace_all
running = tt

abbrev run : List Column → Result (Unit {0}) × Session Tables
run cols = add_columns insertion any_text 9 "tasks" cols started

added :
    (run (title ∷ done ∷ [])).1.state.table_columns
    ≡ title ∷ record done { id = "01"; position = 1; created_at = 9 } ∷ []
unfolding running
added = refl

-- The second column is refused, and the first is not there either.
refused : (run (done ∷ owner ∷ [])).0 ≡ err (column_needs_default "owner")
unfolding running
refused = refl

rolled_back : (run (done ∷ owner ∷ [])).1.state ≡ stored
unfolding running
rolled_back = refl

change_atomic_example :
    Ensures stored
      (change insertion any_text (add 9 "tasks" (done ∷ owner ∷ [])))
      (λ _ _. Unit)
      (λ _ u. u ≡ stored)
change_atomic_example = change_atomic insertion any_text (add 9 "tasks" (done ∷ owner ∷ [])) stored

add_columns_extends_example :
    Ensures stored
      (add_columns insertion any_text 9 "tasks" (title ∷ done ∷ []))
      (λ _ u. Extended insertion any_text "tasks" stored u)
      (λ _ u. u ≡ stored)
add_columns_extends_example =
    add_columns_extends insertion any_text 9 "tasks" (title ∷ done ∷ []) stored

text_not_integer : ◌≢◌ {A = ColumnType} "text" column_type_integer
text_not_integer = ground (arith, eq_iff "text" column_type_integer)

text_not_real : ◌≢◌ {A = ColumnType} "text" column_type_real
text_not_real = ground (arith, eq_iff "text" column_type_real)

text_not_boolean : ◌≢◌ {A = ColumnType} "text" column_type_boolean
text_not_boolean = ground (arith, eq_iff "text" column_type_boolean)

read_literal-sql_literal_example :
    read_literal (sql_literal "text" "'); DROP TABLE users; --" ++ (b')' ∷ []))
    ≡ some (codes "'); DROP TABLE users; --", b')' ∷ [])
read_literal-sql_literal_example =
    read_literal-sql_literal "text" "'); DROP TABLE users; --" (b')' ∷ []) text_not_integer
      text_not_real text_not_boolean (ground arith)

validate_key_iff_example : (validate_key "tasks" ≡ ok tt) ↔ IsKey (codes "tasks")
validate_key_iff_example = validate_key_iff "tasks"
