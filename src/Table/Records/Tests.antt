-- ===== src/Table/Records/Tests.antt =====
-- Runs of internal/table/records.go at small inputs, and the theorems at inputs that meet them.
use flagbase.Prelude.{
  String, true, false, not, ◌≡◌, ◌≢◌, refl, List, [], ◌∷◌, keep, All, map, lookup, none, some,
}
use flagbase.Prelude.Int.{pos}
use flagbase.Db.{Session, ok, err, statement, draw, not_nullable, ◌>>=◌}
use flagbase.Db.Ensures.{Ensures}
use flagbase.Ids.{new_id, encode_to_string}
use flagbase.Sorting.{count}
use flagbase.Sorting.Insertion.{insertion}
use flagbase.Table.{Column, Value, nil, string, QueryOptions}
use flagbase.Table.Validate.{validate_key, key_pattern}
use flagbase.Table.Schema.{Tables, load_columns, get_table}
use flagbase.Table.Records.{
  build_insert_data, check_names, insert_values, validate_value, validate_typed, build_record,
  shown, get_record,
}
use flagbase.Table.Records.Rows.{Sqlite, is_tagged, cell, stored_values, insert_row, delete_rows}
use flagbase.Table.Records.Operations.{
  safe_op, where_clauses, limit_of, offset_of, passes, chosen, insert_record_flagged, insert_record,
  query_records, rollback_by_flag_ctx,
}
use flagbase.Table.Records.Validity.{Known, Suits, in_order, build_insert_data-Suits}
use flagbase.Table.Records.Changes.{rows_at}
use flagbase.Table.Records.Undoing.{
  Untouched, rollback_by_flag_ctx_removes, rollback_by_flag_ctx-insert_record_flagged,
}

abbrev title : Column
title = record {
  id = "c1";
  table_key = "tasks";
  name = "title";
  col_type = "text";
  nullable = false;
  default = none;
  position = 0;
  created_at = 1;
}

abbrev stored : Tables
stored = record {
  definitions =
      record { key = "tasks"; name = "Tasks"; description = ""; created_at = 1; updated_at = 1 }
      ∷ [];
  table_columns = title ∷ [];
  physical =
      (
        "tasks",
        record {
          columns = title ∷ [];
          rows =
              record {
                id = "r1";
                created_at = 1;
                updated_at = 1;
                flag_ctx = none;
                values = ("title", string "first") ∷ [];
              }
              ∷ [];
        },
      )
      ∷ [];
  published = some [];
}

abbrev sqlite : Sqlite
sqlite = record { store = λ c v. some v; default_of = λ c. nil; compare = λ op v s. true }

abbrev started : Session Tables
started = record { state = stored; faults = []; draws = some (2 ∷ []) ∷ [] }

abbrev second : List (String × Value)
second = ("title", string "second") ∷ []

abbrev everything : QueryOptions
everything = record { filters = []; limit = pos 0; offset = pos 0 }

-- What a run looks into.
running : Unit {0}
unfolding insert_record_flagged insert_record get_table load_columns insertion build_insert_data
    check_names insert_values validate_value validate_typed new_id draw statement insert_row
    stored_values get_record build_record shown cell encode_to_string rollback_by_flag_ctx
    validate_key key_pattern delete_rows query_records where_clauses safe_op limit_of offset_of
    chosen passes
running = tt

tagged : Session Tables
tagged = (insert_record_flagged insertion sqlite 5 "tasks" second "beta:on" started).1

-- The flagged row is stored behind the other one, and the roll-back removes it.
stored_ids : map (λ r. r.id) (rows_at "tasks" tagged.state) ≡ "r1" ∷ "02" ∷ []
unfolding running tagged
stored_ids = refl

removed : (rollback_by_flag_ctx "tasks" "beta:on" tagged).0 ≡ ok 1
unfolding running tagged
removed = refl

restored :
    rows_at "tasks" (rollback_by_flag_ctx "tasks" "beta:on" tagged).1.state ≡ rows_at "tasks" stored
unfolding running tagged
restored = refl

-- A NULL for a column that is not nullable is refused before anything is stored.
refused :
    (insert_record insertion sqlite 5 "tasks" (("title", nil) ∷ []) started).0
    ≡ err (not_nullable "title")
unfolding running
refused = refl

rollback_by_flag_ctx_removes_example :
    Ensures stored
      (rollback_by_flag_ctx "tasks" "beta:on")
      (λ n u.
        (n ≡ count (is_tagged "beta:on") (rows_at "tasks" stored))
        × (rows_at "tasks" u ≡ keep (λ r. not (is_tagged "beta:on" r)) (rows_at "tasks" stored))
        × ((other : String)
            → "tasks" ≢ other
            → lookup other u.physical ≡ lookup other stored.physical))
      (λ _ u. u ≡ stored)
rollback_by_flag_ctx_removes_example = rollback_by_flag_ctx_removes "tasks" "beta:on" stored

rollback_by_flag_ctx-insert_record_flagged_example :
    Ensures stored
      (insert_record_flagged insertion sqlite 5 "tasks" second "beta:on" >>= λ _.
        rollback_by_flag_ctx "tasks" "beta:on")
      (λ _ u.
        (rows_at "tasks" u ≡ keep (λ r. not (is_tagged "beta:on" r)) (rows_at "tasks" stored))
        × ((other : String)
            → "tasks" ≢ other
            → lookup other u.physical ≡ lookup other stored.physical))
      (λ _ u. Untouched insertion sqlite "tasks" "beta:on" stored u)
rollback_by_flag_ctx-insert_record_flagged_example =
    rollback_by_flag_ctx-insert_record_flagged insertion sqlite 5 "tasks" second "beta:on" stored

accepted : build_insert_data (title ∷ []) second ≡ ok second
unfolding running
accepted = refl

build_insert_data-Suits_example :
    All (Known (title ∷ [])) second
    × All (Suits second) (title ∷ [])
    × (second ≡ in_order (title ∷ []) second)
build_insert_data-Suits_example = build_insert_data-Suits (title ∷ []) second second accepted
