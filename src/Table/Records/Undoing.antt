-- ===== src/Table/Records/Undoing.antt =====
-- Flagged records can be taken back.
use flagbase.Prelude.{
  ℕ, String, Bool, not, ◌≡◌, ◌≢◌, refl, sym, ap, ◌∙◌, List, keep, lookup, Option, none, some, subst,
}
use flagbase.Db.{table_not_found, ok, lift, statement, ◌>>=◌}
use flagbase.Db.Ensures.{Ensures, by_bind, by_lift, by_statement, by_consequence, last_statement}
use flagbase.Ids.{new_id}
use flagbase.Ids.Laws.{new_id-same}
use flagbase.Sorting.{Sorting, count}
use flagbase.Table.{TableDef, Value}
use flagbase.Table.Validate.{validate_key}
use flagbase.Table.Schema.{Row, Physical, Tables, found_or}
use flagbase.Table.Schema.Adding.{get_table-Loaded, Loaded}
use flagbase.Table.Records.{build_insert_data, fetch, get_record}
use flagbase.Table.Records.Querying.{select-ok}
use flagbase.Table.Records.Rows.{Sqlite, is_tagged, on_physical, insert_row, delete_rows}
use flagbase.Table.Records.Operations.{insert_record_flagged, rollback_by_flag_ctx}
use flagbase.Table.Records.Changes.{
  rows_at, Changed, on_physical-Changed, rows-after, rows-before, other-after, insert_row-untagged,
}

module _ (order : Sorting) (sqlite : Sqlite) where
  -- The rows without the tag are those of before.
  abbrev pub Untouched : String → String → Tables → Tables → Type 0
  Untouched key tag t u =
      (keep (λ r. not (is_tagged tag r)) (rows_at key u)
        ≡ keep (λ r. not (is_tagged tag r)) (rows_at key t))
      × ((other : String) → key ≢ other → lookup other u.physical ≡ lookup other t.physical)

  get_record-same :
      (key id : String) (t : Tables)
      → Ensures t (get_record order sqlite key id) (λ _ u. u ≡ t) (λ _ u. u ≡ t)
  unfolding get_record
  get_record-same key id t =
      by_bind (λ found u. (u ≡ t) × Loaded order key t found) (get_table-Loaded order key t)
        λ found u h. go found u h.0
    where
      go :
          (found : Option TableDef) (u : Tables)
          → u ≡ t
          → Ensures u
              (found_or found (table_not_found key) >>= λ def. fetch sqlite key def.columns id)
              (λ _ v. v ≡ t)
              (λ _ v. v ≡ t)
      go none u q = record { at = λ f d. q }
      go (some def) u q = record {
        at =
            (by_consequence {R = λ _ v. v ≡ t} {F = λ _ v. v ≡ t}
              (last_statement _ q (λ _ _. q) λ r v h. (select-ok key def.columns _ u h).3 ∙ q)
              (λ _ _ x. x) (λ _ _ x. x)).at;
      }

  unchanged_tags : (key tag : String) (t u : Tables) → u ≡ t → Untouched key tag t u
  unchanged_tags key tag t u q = (
    ap (λ v. keep (λ r. not (is_tagged tag r)) (rows_at key v)) q,
    λ other n. ap (λ (v : Tables). lookup other v.physical) q,
  )

  inserted :
      (key tag id : String) (now : ℕ) (values : List (String × Value)) (t u : Tables) {a : Unit {0}}
      → Changed key (insert_row sqlite id now (some tag) values) t a u
      → Untouched key tag t u
  inserted key tag id now values t u {a} c = (
    ap (keep (λ r. not (is_tagged tag r))) (rows-after key _ t a u c)
        ∙ (insert_row-untagged sqlite id now tag values c.before c.after c.done
            ∙ ap (keep (λ r. not (is_tagged tag r))) (sym (rows-before key _ t a u c))),
    λ other n. other-after key other _ t a u n c,
  )

  -- However InsertRecordFlagged ends, the rows without its tag and the other tables are as before.
  pub insert_record_flagged-Untouched :
      (now : ℕ) (key : String) (input : List (String × Value)) (tag : String) (t : Tables)
      → Ensures t
          (insert_record_flagged order sqlite now key input tag)
          (λ _ u. Untouched key tag t u)
          (λ _ u. Untouched key tag t u)
  unfolding insert_record_flagged
  insert_record_flagged-Untouched now key input tag t =
      by_bind (λ found u. u ≡ t)
        (by_consequence (get_table-Loaded order key t) (λ _ u k. k.0) (λ _ u k. same u k))
        λ found u q. go found u q
    where
      same : (u : Tables) → u ≡ t → Untouched key tag t u
      same u q = unchanged_tags key tag t u q

      moved : (u v : Tables) → u ≡ t → Untouched key tag u v → Untouched key tag t v
      moved u v q h = subst (λ w. Untouched key tag w v) q h

      go :
          (found : Option TableDef) (u : Tables)
          → u ≡ t
          → Ensures u
              (found_or found (table_not_found key) >>= λ def.
                lift (build_insert_data def.columns input) >>= λ values. new_id >>= λ id.
                statement (on_physical key (insert_row sqlite id now (some tag) values)) >>= λ _.
                get_record order sqlite key id)
              (λ _ v. Untouched key tag t v)
              (λ _ v. Untouched key tag t v)
      go none u q = record { at = λ f d. same u q }
      go (some def) u q = record {
        at =
            (by_lift {Q = λ _ v. Untouched key tag t v} {E = λ _ v. Untouched key tag t v} _
              (build_insert_data def.columns input) (λ _. same u q)
              λ values e.
                by_bind (λ _ v. v ≡ t)
                  (by_consequence (new_id-same u) (λ _ v k. k ∙ q) (λ _ v k. same v (k ∙ q)))
                  λ id v k.
                    by_statement _ (same v k) (λ _ _. same v k)
                      λ a w h.
                        let c : Untouched key tag t w =
                          moved v w k
                            (inserted key tag id now values v w (on_physical-Changed key _ v h)) in
                        by_consequence (get_record-same key id w)
                          (λ _ x r. subst (Untouched key tag t) (sym r) c)
                          (λ _ x r. subst (Untouched key tag t) (sym r) c)).at;
      }

delete_rows-after :
    (p : Row → Bool) (q r : Physical) {n : ℕ}
    → delete_rows p q ≡ ok (n, r)
    → (n ≡ count p q.rows) × (r.rows ≡ keep (λ x. not (p x)) q.rows)
unfolding delete_rows
delete_rows-after p q r h =
    let left : r ≡ record q { rows = keep (λ x. not (p x)) q.rows } = cc in
    (cc, ap (λ (x : Physical). x.rows) left)

-- RollbackByFlagCtx removes the rows with the tag, gives their number, and leaves the other rows
-- and the other tables as they were; if it fails, it has changed nothing.
pub rollback_by_flag_ctx_removes :
    (key tag : String) (t : Tables)
    → Ensures t
        (rollback_by_flag_ctx key tag)
        (λ n u.
          (n ≡ count (is_tagged tag) (rows_at key t))
          × (rows_at key u ≡ keep (λ r. not (is_tagged tag r)) (rows_at key t))
          × ((other : String) → key ≢ other → lookup other u.physical ≡ lookup other t.physical))
        (λ _ u. u ≡ t)
unfolding rollback_by_flag_ctx
rollback_by_flag_ctx_removes key tag t =
    by_lift _ (validate_key key) (λ _. refl)
      λ _ _.
        last_statement _ refl (λ _ _. refl)
          λ n u h.
            let c : Changed key (delete_rows (is_tagged tag)) t n u =
              on_physical-Changed key _ t h in
            let d = delete_rows-after (is_tagged tag) c.before c.after c.done in
            (
              d.0 ∙ ap (count (is_tagged tag)) (sym (rows-before key _ t n u c)),
              rows-after key _ t n u c
                  ∙ (d.1
                      ∙ ap (keep (λ r. not (is_tagged tag r))) (sym (rows-before key _ t n u c))),
              λ other m. other-after key other _ t n u m c,
            )

module _ (order : Sorting) (sqlite : Sqlite) where
  -- InsertRecordFlagged and then RollbackByFlagCtx with the same tag leave the rows without the
  -- tag as they were before the insert, and no others; the other tables stay, too.
  pub rollback_by_flag_ctx-insert_record_flagged :
      (now : ℕ) (key : String) (input : List (String × Value)) (tag : String) (t : Tables)
      → Ensures t
          (insert_record_flagged order sqlite now key input tag >>= λ _.
            rollback_by_flag_ctx key tag)
          (λ _ u.
            (rows_at key u ≡ keep (λ r. not (is_tagged tag r)) (rows_at key t))
            × ((other : String) → key ≢ other → lookup other u.physical ≡ lookup other t.physical))
          (λ _ u. Untouched order sqlite key tag t u)
  rollback_by_flag_ctx-insert_record_flagged now key input tag t =
      by_bind (λ _ u. Untouched order sqlite key tag t u)
        (insert_record_flagged-Untouched order sqlite now key input tag t)
        λ _ u k.
          by_consequence (rollback_by_flag_ctx_removes key tag u)
            (λ n v h. (h.1 ∙ k.0, λ other m. h.2 other m ∙ k.1 other m))
            (λ _ v h. subst (Untouched order sqlite key tag t) (sym h) k)
