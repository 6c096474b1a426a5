-- ===== src/Table/Records/Rows.antt =====
-- internal/table/records.go: the statements on the rows of a physical table.
use flagbase.Prelude.{
  ℕ, String, Bool, true, false, not, ◌&&◌, List, [], ◌∷◌, ◌++◌, map, any, all, keep, lookup,
  update_where, Option, none, some, ◌==◌, if◌then◌else◌,
}
use flagbase.Db.{driver, unique, Result, ok, err}
use flagbase.Sorting.{count}
use flagbase.Table.{Column, Value, nil}
use flagbase.Table.Schema.{Row, Physical, Tables, put_physical}

-- What the program leaves to SQLite: the value that a column stores for an argument, if it can be
-- bound, the value of a column's DEFAULT clause, and the comparison of a stored value with a text.
pub record Sqlite : Type 0 where
  pub store : Column → Value → Option Value
  pub default_of : Column → Value
  pub compare : String → Value → List ℕ → Bool

abbrev pub is_nil : Value → Bool
is_nil nil = true
is_nil v = false

abbrev pub same_tag : String → Option String → Bool
same_tag tag none = false
same_tag tag (some s) = s == tag

abbrev pub is_tagged : String → Row → Bool
is_tagged tag r = same_tag tag r.flag_ctx

abbrev pub put_back : {A : Type 0} → String → Tables → Result (A × Physical) → Result (A × Tables)
put_back key t (err e) = err e
put_back key t (ok (a, q)) = ok (a, record t { physical = put_physical key q t.physical })

abbrev pub on_found :
    {A : Type 0}
    → String
    → (Physical → Result (A × Physical))
    → Tables
    → Option Physical
    → Result (A × Tables)
on_found key f t none = err driver
on_found key f t (some p) = put_back key t (f p)

-- A statement on a physical table, which has to be there.
abbrev pub on_physical :
    {A : Type 0} → String → (Physical → Result (A × Physical)) → Tables → Result (A × Tables)
on_physical key f t = on_found key f t (lookup key t.physical)

-- Every column that a statement names is one of the table's.
abbrev pub has_columns : List String → Physical → Bool
has_columns names p = all (λ n. any (λ c. c.name == n) p.columns) names

-- What a row holds in a column: a row that is older than the column holds its default.
unfoldable pub cell : (Column → Value) → Row → Column → Value
cell default_of r c = elim (lookup c.name r.values) [ some v ↦ v | none ↦ default_of c ]

-- A value for a column, unless it is NULL and the column is NOT NULL.
abbrev pub not_null : Column → Option Value → Option Value
not_null c none = none
not_null c (some v) = if not c.nullable && is_nil v then none else some v

abbrev pub with_value :
    String → Option Value → Option (List (String × Value)) → Option (List (String × Value))
with_value name none rest = none
with_value name (some v) none = none
with_value name (some v) (some vs) = some ((name, v) ∷ vs)

module _ (sqlite : Sqlite) where
  -- The values to be stored, unless one cannot be bound or is NULL in a column that is NOT NULL.
  unfoldable pub stored_values :
      List Column → List (String × Value) → Option (List (String × Value))
  stored_values [] args = some []
  stored_values (c ∷ cs) args =
      let rest = stored_values cs args in
      elim (lookup c.name args) [
        | none ↦ with_value c.name (not_null c (some (sqlite.default_of c))) rest
        | some v ↦ with_value c.name (not_null c (sqlite.store c v)) rest
      ]

  -- INSERT INTO tbl (_id, _flag_ctx, names…)
  unfoldable pub insert_row :
      String → ℕ → Option String → List (String × Value) → Physical → Result (Unit {0} × Physical)
  unfolding stored_values
  insert_row id now tag args p =
      if any (λ r. r.id == id) p.rows
      then err unique
      else if has_columns (map (λ a. a.0) args) p
      then elim (stored_values p.columns args) [
        | none ↦ err driver
        | some values ↦ ok (
          tt,
          record p {
            rows =
                p.rows
                ++ record {
                  id = id;
                  created_at = now;
                  updated_at = now;
                  flag_ctx = tag;
                  values = values;
                }
                  ∷ [];
          },
        )
      ]
      else err driver

  -- The values of a row after SET.
  unfoldable pub set_values :
      List Column → List (String × Value) → Row → Option (List (String × Value))
  unfolding cell
  set_values [] args r = some []
  set_values (c ∷ cs) args r =
      let rest = set_values cs args r in
      elim (lookup c.name args) [
        | none ↦ with_value c.name (some (cell sqlite.default_of r c)) rest
        | some v ↦ with_value c.name (not_null c (sqlite.store c v)) rest
      ]

  -- UPDATE tbl SET …, _updated_at = CURRENT_TIMESTAMP WHERE _id
  unfoldable pub set_rows :
      List Column → String → ℕ → List (String × Value) → List Row → Option (List Row)
  unfolding set_values
  set_rows cols id now args [] = some []
  set_rows cols id now args (r ∷ rs) =
      let rest = set_rows cols id now args rs in
      elim (if r.id == id then set_values cols args r else some r.values) [
        | none ↦ none
        | some values ↦ elim rest [
          | none ↦ none
          | some qs ↦ some (
              record r { values = values; updated_at = if r.id == id then now else r.updated_at }
              ∷ qs)
        ]
      ]

  unfoldable pub update_row : String → ℕ → List (String × Value) → Physical → Result (ℕ × Physical)
  unfolding set_rows
  update_row id now args p =
      if has_columns (map (λ a. a.0) args) p
      then elim (set_rows p.columns id now args p.rows) [
        | none ↦ err driver
        | some rows ↦ ok (count (λ r. r.id == id) p.rows, record p { rows = rows })
      ]
      else err driver

unfoldable pub delete_rows : (Row → Bool) → Physical → Result (ℕ × Physical)
delete_rows p q = ok (count p q.rows, record q { rows = keep (λ r. not (p r)) q.rows })

-- UPDATE tbl SET _flag_ctx = NULL WHERE _flag_ctx
unfoldable pub clear_tags : String → Physical → Result (ℕ × Physical)
clear_tags tag q = ok (
  count (is_tagged tag) q.rows,
  record q { rows = update_where (is_tagged tag) (λ r. record r { flag_ctx = none }) q.rows },
)

-- A SELECT, which has to name columns that are there.
abbrev pub select :
    {A : Type 0} → String → List Column → (Physical → A) → Tables → Result (A × Tables)
select key cols f t = elim (lookup key t.physical) [
  | none ↦ err driver
  | some p ↦ if has_columns (map (λ c. c.name) cols) p then ok (f p, t) else err driver
]
