-- ===== src/Table.antt =====
-- internal/table: the data of engine.go, and what the program uses of SQLite beyond plain rows.
pub mod Validate
pub mod Ddl
pub mod Schema
pub mod Records
mod Tests
use flagbase.Prelude.{ℕ, String, Bool, List, Option, ◌≡◌, if◌then◌else◌}
use flagbase.Prelude.Int.{ℤ, pos}

-- ColumnType is a string type: any text may come in a request.
abbrev pub ColumnType : Type 0
ColumnType = String

abbrev pub column_type_text : ColumnType
column_type_text = "text"

abbrev pub column_type_integer : ColumnType
column_type_integer = "integer"

abbrev pub column_type_real : ColumnType
column_type_real = "real"

abbrev pub column_type_boolean : ColumnType
column_type_boolean = "boolean"

-- `col_type` is the field Type, `default` the pointer Default.
pub record Column : Type 0 where
  pub id : String
  pub table_key : String
  pub name : String
  pub col_type : ColumnType
  pub nullable : Bool
  pub default : Option String
  pub position : ℕ
  pub created_at : ℕ

pub record TableDef : Type 0 where
  pub key : String
  pub name : String
  pub description : String
  pub columns : List Column
  pub created_at : ℕ
  pub updated_at : ℕ

-- The dynamic values of `interface{}` that the program tells apart; a float is its mantissa and
-- its exponent to the base two, and `other` is a value of any other type.
pub data Value : Type 0 where
  nil : Value
  float64 float32 : ℤ → ℤ → Value
  int int32 int64 : ℤ → Value
  bool : Bool → Value
  string : String → Value
  other : String → Value

-- `values` is the map Data, in the order of the columns.
pub record Record : Type 0 where
  pub id : String
  pub created_at : ℕ
  pub updated_at : ℕ
  pub values : List (String × Value)

pub record Filter : Type 0 where
  pub column : String
  pub operator : String
  pub value : String

pub record QueryOptions : Type 0 where
  pub filters : List Filter
  pub limit : ℤ
  pub offset : ℤ
