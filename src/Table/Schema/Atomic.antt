-- ===== src/Table/Schema/Atomic.antt =====
-- A change of the schema is all or nothing.
use flagbase.Prelude.{
  ℕ, suc, String, Bool, not, ◌≡◌, refl, List, [], ◌∷◌, any, Option, none, some, ◌==◌,
}
use flagbase.Db.{Error, Op, transaction, duplicate_column, table_not_found, pure, ◌>>=◌}
use flagbase.Db.Ensures.{
  Ensures, by_pure, by_bind, by_lift, by_query, by_require, by_consequence, by_transaction,
  anything,
}
use flagbase.Sorting.{Sorting}
use flagbase.Table.{Column, TableDef}
use flagbase.Table.Validate.{validate_key, validate_column}
use flagbase.Table.Schema.{
  Definition, Tables, check_columns, create_table, finish_table, get_table, found_or, add_columns,
  delete_table,
}

-- The validation of the columns touches nothing.
pub check_columns-same :
    (key : String) (i : ℕ) (seen : List String) (cs : List Column) (t : Tables)
    → Ensures t (check_columns key i seen cs) (λ _ u. u ≡ t) (λ _ u. u ≡ t)
unfolding check_columns
check_columns-same key i seen [] t = by_pure [] refl
check_columns-same key i seen (c ∷ cs) t =
    by_lift _ (validate_column c) (λ _. refl)
      λ _ _.
        by_require _ (not (any (λ n. n == c.name) seen)) (duplicate_column c.name)
          (λ _.
            by_bind _ (check_columns-same key (suc i) (c.name ∷ seen) cs t) λ rest u q. by_pure _ q)
          λ _. refl

-- The changes of the schema.
pub data Change : Type 0 where
  create : ℕ → TableDef → Change
  add : ℕ → String → List Column → Change
  drop : String → Change

module _ (order : Sorting) (accepts : List ℕ → Bool) where
  unfoldable pub change : Change → Op Tables (Unit {0})
  change (create now def) = do _ ← create_table accepts now def; pure tt
  change (add now key cols) = add_columns order accepts now key cols
  change (drop key) = delete_table key

  get_table-same :
      (key : String) (t : Tables) → Ensures t (get_table order key) (λ _ u. u ≡ t) (λ _ u. u ≡ t)
  unfolding get_table
  get_table-same key t = by_query _ _ refl (go _)
    where
      go : (d : Option Definition) → Ensures t (finish_table order d) (λ _ u. u ≡ t) (λ _ u. u ≡ t)
      go none = by_pure none refl
      go (some d) = by_query _ _ refl (by_pure _ refl)

  on_found-atomic :
      (k : TableDef → Op Tables (Unit {0})) {t : Tables} (e : Error) (found : Option TableDef)
      (u : Tables)
      → u ≡ t
      → Ensures u (found_or found e >>= λ def. transaction (k def)) (λ _ _. Unit) (λ _ v. v ≡ t)
  on_found-atomic k e none u q = record { at = λ f d. q }
  on_found-atomic k e (some def) u q = record {
    at = (by_transaction q (by_consequence (anything u (k def)) (λ _ _ h. h) (λ _ _ _. q))).at;
  }

  -- However a change of the schema fails, at the validation, at a statement, at Begin or at Commit,
  -- the registry and the physical tables are those of before.
  pub change_atomic : (c : Change) (t : Tables) → Ensures t (change c) (λ _ _. Unit) (λ _ u. u ≡ t)
  unfolding change create_table add_columns delete_table
  change_atomic (create now def) t =
      by_bind (λ _ _. Unit)
        (by_lift _ (validate_key def.key) (λ _. refl)
          λ _ _.
            by_bind (λ _ u. u ≡ t) (check_columns-same def.key 0 [] def.columns t)
              λ cols u q.
                by_transaction q (by_consequence (anything u _) (λ _ _ h. h) (λ _ _ _. q)))
        λ _ _ _. by_pure tt tt
  change_atomic (add now key cols) t =
      by_bind (λ _ u. u ≡ t) (get_table-same key t)
        λ found u q. on_found-atomic _ (table_not_found key) found u q
  change_atomic (drop key) t =
      by_lift _ (validate_key key) (λ _. refl)
        λ _ _. by_transaction refl (by_consequence (anything t _) (λ _ _ h. h) (λ _ _ _. refl))
