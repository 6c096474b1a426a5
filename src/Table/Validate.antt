-- ===== src/Table/Validate.antt =====
-- internal/table/engine.go: the validation of keys and columns.
use flagbase.Prelude.{
  ℕ, String, Bool, false, not, ◌&&◌, ◌||◌, List, [], ◌∷◌, all, length, leb, eqb, ◌==◌,
  if◌then◌else◌,
}
use flagbase.Text.{codes}
use flagbase.Db.{Result, ok, err, invalid_key, reserved_column, bad_column_type}
use flagbase.Table.{
  ColumnType, Column, column_type_text, column_type_integer, column_type_real, column_type_boolean,
}

abbrev pub is_lower : ℕ → Bool
is_lower c = leb b'a' c && leb c b'z'

abbrev pub is_key_char : ℕ → Bool
is_key_char c = is_lower c || (leb b'0' c && leb c b'9') || eqb c b'_'

-- keyPattern: ^[a-z][a-z0-9_]{0,62}$
unfoldable pub key_pattern : List ℕ → Bool
key_pattern [] = false
key_pattern (c ∷ cs) = is_lower c && all is_key_char cs && leb (length cs) 62

unfoldable pub validate_key : String → Result (Unit {0})
unfolding key_pattern
validate_key key = if key_pattern (codes key) then ok tt else err (invalid_key key)

unfoldable pub is_reserved : String → Bool
is_reserved name =
    name == "_id" || name == "_created_at" || name == "_updated_at" || name == "_flag_ctx"

unfoldable pub valid_column_type : ColumnType → Bool
valid_column_type t =
    t == column_type_text
    || t == column_type_integer
    || t == column_type_real
    || t == column_type_boolean

unfoldable pub validate_column : Column → Result (Unit {0})
unfolding is_reserved key_pattern valid_column_type
validate_column c =
    if is_reserved c.name
    then err (reserved_column c.name)
    else if not (key_pattern (codes c.name))
    then err (invalid_key c.name)
    else if not (valid_column_type c.col_type)
    then err (bad_column_type c.name)
    else ok tt
