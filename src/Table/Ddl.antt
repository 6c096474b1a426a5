-- ===== src/Table/Ddl.antt =====
-- internal/table/engine.go: the texts of the data definition statements, as code points.
pub mod Literals
pub mod Names
use flagbase.Prelude.{
  ℕ, String, Bool, true, false, not, ◌&&◌, ◌||◌, List, [], ◌∷◌, ◌++◌, all, leb, eqb, ◌==◌, Option,
  none, some, if◌then◌else◌,
}
use flagbase.Text.{codes, trim_space, replace_all}
use flagbase.Table.{ColumnType, Column, column_type_integer, column_type_real, column_type_boolean}

unfoldable pub sql_table_name : String → List ℕ
sql_table_name key = codes "tbl_" ++ codes key

unfoldable pub sql_col_type : ColumnType → String
sql_col_type t =
    if t == column_type_integer
    then "INTEGER"
    else if t == column_type_real
    then "REAL"
    else if t == column_type_boolean
    then "INTEGER"
    else "TEXT"

abbrev pub is_numeric_char : ℕ → Bool
is_numeric_char c = (leb b'0' c && leb c b'9') || eqb c b'.' || eqb c b'-'

-- The test of the numeric branch: not empty, and every character is a digit, a dot or a minus.
abbrev pub is_numeric : List ℕ → Bool
is_numeric [] = false
is_numeric (c ∷ cs) = all is_numeric_char (c ∷ cs)

unfoldable pub sql_literal : ColumnType → String → List ℕ
sql_literal t v =
    if t == column_type_boolean
    then if v == "true" || v == "1" then codes "1" else codes "0"
    else if t == column_type_integer || t == column_type_real
    then (let safe = trim_space (codes v) in if is_numeric safe then safe else codes "NULL")
    else codes "'" ++ (replace_all 0x27 (codes "''") (codes v) ++ codes "'")

unfoldable pub default_fragment : Column → List ℕ
unfolding sql_literal
default_fragment c = elim c.default [
  | none ↦ []
  | some v ↦ codes " DEFAULT " ++ sql_literal c.col_type v
]

unfoldable pub col_fragment : Column → List ℕ
unfolding sql_col_type default_fragment
col_fragment c =
    codes c.name
    ++ (codes " "
        ++ (codes (sql_col_type c.col_type)
            ++ ((if not c.nullable then codes " NOT NULL" else []) ++ default_fragment c)))

-- The loop over the columns.
unfoldable pub col_fragments : List Column → List ℕ
unfolding col_fragment
col_fragments [] = []
col_fragments (c ∷ cs) = codes ", " ++ (col_fragment c ++ col_fragments cs)

unfoldable pub build_create_ddl : String → List Column → List ℕ
unfolding col_fragments sql_table_name
build_create_ddl key cols =
    codes "CREATE TABLE IF NOT EXISTS "
    ++ (sql_table_name key
        ++ (codes
              " (_id TEXT PRIMARY KEY, _created_at DATETIME DEFAULT CURRENT_TIMESTAMP, _updated_at DATETIME DEFAULT CURRENT_TIMESTAMP, _flag_ctx TEXT"
            ++ (col_fragments cols ++ codes ")")))

unfoldable pub build_alter_ddl : String → Column → List ℕ
unfolding sql_table_name col_fragment
build_alter_ddl table_key c =
    codes "ALTER TABLE " ++ (sql_table_name table_key ++ (codes " ADD COLUMN " ++ col_fragment c))
