-- ===== src/Table/Schema/Adding.antt =====
-- AddColumns as a whole.
use flagbase.Prelude.{
  ℕ, String, Bool, ◌≡◌, refl, ap, List, [], ◌∷◌, ◌++◌, first, All, length, Option, none, some, ◌==◌,
  eq_iff, arith, subst, Bool-cases, inl, inr,
}
use flagbase.Db.{table_not_found, transaction, execute, ◌>>=◌, ◌>>◌}
use flagbase.Db.Ensures.{
  Ensures, by_pure, by_bind, by_query, by_consequence, by_transaction, last_execute,
}
use flagbase.Sorting.{Sorting}
use flagbase.Table.{Column, TableDef}
use flagbase.Table.Schema.{
  Definition, Tables, load_columns, finish_table, get_table, found_or, column_map, add_loop,
  add_columns, touch,
}
use flagbase.Table.Schema.Growth.{Fits, IsNumbered, Grown, add_loop_grows}

first-eq_some :
    (key : String) (ds : List Definition) {d : Definition}
    → first (λ e. e.key == key) ds ≡ some d
    → d.key ≡ key
first-eq_some key [] h = absurd (cc)
first-eq_some key (e ∷ ds) {d} h = elim (Bool-cases (e.key == key)) [
  | inl q ↦ ground (arith, eq_iff e.key key)
  | inr q ↦ first-eq_some key ds {d = d} (ground arith)
]

module _ (order : Sorting) where
  -- A table that is found has the columns that the registry has under its key, by position.
  abbrev pub Loaded : String → Tables → Option TableDef → Type 0
  Loaded key t none = Unit
  Loaded key t (some def) = (def.key ≡ key) × (def.columns ≡ load_columns order key t)

  pub get_table-Loaded :
      (key : String) (t : Tables)
      → Ensures t (get_table order key) (λ found u. (u ≡ t) × Loaded key t found) (λ _ u. u ≡ t)
  unfolding get_table
  get_table-Loaded key t = by_query _ _ refl (go (first (λ d. d.key == key) t.definitions) refl)
    where
      go :
          (found : Option Definition)
          → first (λ d. d.key == key) t.definitions ≡ found
          → Ensures t (finish_table order found) (λ r u. (u ≡ t) × Loaded key t r) (λ _ u. u ≡ t)
      go none e = by_pure none (refl, tt)
      go (some d) e =
          let same : d.key ≡ key = first-eq_some key t.definitions e in
          by_query _ _ refl (by_pure _ (refl, (same, ap (λ k. load_columns order k t) same)))

  module _ (accepts : List ℕ → Bool) where
    -- What AddColumns leaves: the registered columns as they were, and behind them columns of the
    -- table that are nullable or have a default, numbered on from the table's own.
    abbrev pub Extended : String → Tables → Tables → Type 0
    Extended key t u =
        (added : List Column) × (u.table_columns ≡ t.table_columns ++ added)
        × All (Fits key) added
        × IsNumbered (length (load_columns order key t)) added

    touched :
        (key : String) (now : ℕ) (t u : Tables) (def : TableDef)
        → def.columns ≡ load_columns order key t
        → (added : List Column) → Grown key (length def.columns) t u added
        → Extended key t (touch key now u)
    unfolding touch
    touched key now t u def e added g =
        (added, g.columns, g.fit, subst (λ cs. IsNumbered (length cs) added) e g.numbered)

    body-Extended :
        (key : String) (now : ℕ) (cols : List Column) (t u : Tables) (def : TableDef)
        → u ≡ t
        → def.columns ≡ load_columns order key t
        → Ensures u
            (do
              add_loop accepts (column_map def.columns) key now (length def.columns) cols
              execute (touch key now))
            (λ _ v. Extended key t v)
            (λ _ _. Unit)
    body-Extended key now cols t u def q e =
        by_bind (λ _ v. (added : List Column) × Grown key (length def.columns) u v added)
          (add_loop_grows accepts (column_map def.columns) key now (length def.columns) cols u)
          λ _ v g. last_execute (touch key now) tt (
            touched key now t v def e g.0
              (subst (λ x. Grown key (length def.columns) x v g.0) q g.1))

    -- AddColumns, if it returns, has left every registered column as it was and put behind them
    -- only columns of the table that are nullable or have a default, numbered on from the columns
    -- that the table had; if it fails, it has changed nothing.
    pub add_columns_extends :
        (now : ℕ) (key : String) (cols : List Column) (t : Tables)
        → Ensures t
            (add_columns order accepts now key cols)
            (λ _ u. Extended key t u)
            (λ _ u. u ≡ t)
    unfolding add_columns
    add_columns_extends now key cols t =
        by_bind (λ found u. (u ≡ t) × Loaded key t found) (get_table-Loaded key t)
          λ found u h. go found u h
      where
        go :
            (found : Option TableDef) (u : Tables)
            → (u ≡ t) × Loaded key t found
            → Ensures u
                (found_or found (table_not_found key) >>= λ def. transaction (do
                  add_loop accepts (column_map def.columns) key now (length def.columns) cols
                  execute (touch key now)))
                (λ _ v. Extended key t v)
                (λ _ v. v ≡ t)
        go none u h = record { at = λ f d. h.0 }
        go (some def) u (q, l) = record {
          at =
              (by_transaction q (
                by_consequence (body-Extended key now cols t u def q l.1) (λ _ _ x. x)
                  (λ _ _ _. q))).at;
        }
