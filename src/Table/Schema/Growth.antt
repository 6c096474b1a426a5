-- ===== src/Table/Schema/Growth.antt =====
-- Adding columns to a table: what is there stays, what comes is numbered on.
use flagbase.Prelude.{
  ℕ, suc, String, Bool, true, not, ◌&&◌, ◌||◌, ◌≡◌, refl, sym, ap, ◌∙◌, List, [], ◌∷◌, ◌++◌, All,
  Option, ◌==◌, arith, Option-cases, inl, inr, if◌then◌else◌,
}
use mathlib.Core.List.{append_assoc, append-nil}
use mathlib.Core.Bool.{xor}
use flagbase.Db.{Result, ok, err, driver, column_conflict}
use flagbase.Db.Ensures.{
  Ensures, by_pure, by_bind, by_lift, by_statement, by_require, by_consequence, last_statement,
}
use flagbase.Ids.Laws.{new_id-same}
use flagbase.Table.{Column}
use flagbase.Table.Validate.{validate_column}
use flagbase.Table.Schema.{Tables, insert_column, alter_physical, has_default, add_column, add_loop}

-- The columns have the positions from `i` on.
abbrev pub IsNumbered : ℕ → List Column → Type 0
IsNumbered i [] = Unit
IsNumbered i (c ∷ cs) = (c.position ≡ i) × IsNumbered (suc i) cs

-- A column that existing rows of the table `key` can do without.
abbrev pub Fits : String → Column → Type 0
Fits key c = (c.table_key ≡ key) × ((c.nullable || has_default c) ≡ true)

-- What the loop has done from `t` to `u`, and the columns that it has added.
pub record Grown (key : String) (pos : ℕ) (t u : Tables) (added : List Column) : Type 0 where
  pub columns : u.table_columns ≡ t.table_columns ++ added
  pub definitions : u.definitions ≡ t.definitions
  pub fit : All (Fits key) added
  pub numbered : IsNumbered pos added

abbrev pub placed : String → ℕ → ℕ → String → Column → Column
placed key now pos id c = record c { id = id; table_key = key; position = pos; created_at = now }

insert_column-ok :
    (c : Column) (t u : Tables) {a : Unit {0}}
    → insert_column c t ≡ ok (a, u)
    → u ≡ record t { table_columns = t.table_columns ++ c ∷ [] }
unfolding insert_column
insert_column-ok c t u h = ground arith

alter_physical-ok :
    (key : String) (c : Column) (t u : Tables) {a : Unit {0}}
    → alter_physical key c t ≡ ok (a, u)
    → (u.table_columns ≡ t.table_columns) × (u.definitions ≡ t.definitions)
unfolding alter_physical
alter_physical-ok key c t u h = ground arith

module _ (accepts : List ℕ → Bool) where
  define-ok :
      (text : List ℕ) (r : Result (Unit {0} × Tables)) {a : Unit {0}} {u : Tables}
      → (if accepts text then r else err driver) ≡ ok (a, u)
      → r ≡ ok (a, u)
  define-ok text r h = ground arith

  -- What adding one column has done.
  abbrev pub Added : String → ℕ → ℕ → Column → Tables → Tables → Type 0
  Added key now pos c t w =
      (id : String) × (v : Tables) × ((c.nullable || has_default c) ≡ true)
      × (insert_column (placed key now pos id c) t ≡ ok (tt, v))
      × (alter_physical key (placed key now pos id c) v ≡ ok (tt, w))

  pub add_column-Added :
      (key : String) (now pos : ℕ) (c : Column) (t : Tables)
      → Ensures t (add_column accepts key now pos c) (λ _ w. Added key now pos c t w) (λ _ _. Unit)
  unfolding add_column
  add_column-Added key now pos c t =
      by_require _ (c.nullable || has_default c) _
        (λ fits.
          by_bind (λ _ u. u ≡ t) (by_consequence (new_id-same t) (λ _ u q. q) (λ _ _ _. tt))
            λ id u q.
              by_statement (insert_column _) tt (λ _ _. tt)
                λ a v h.
                  last_statement _ tt (λ _ _. tt)
                    λ b w k. (
                      id,
                      v,
                      fits,
                      ap (insert_column (placed key now pos id c)) (sym q) ∙ h,
                      define-ok _ (alter_physical key (placed key now pos id c) v) k,
                    ))
        λ _. tt

  Added-Grown :
      (key : String) (now pos : ℕ) (c : Column) (t w : Tables)
      → Added key now pos c t w
      → (d : Column) × Grown key pos t w (d ∷ [])
  Added-Grown key now pos c t w (id, v, fits, h, k) =
      let d = placed key now pos id c in
      let inserted = insert_column-ok d t v h in
      let (same, same_defs) = alter_physical-ok key d v w k in
      (
        d,
        record {
          columns = same ∙ ap (λ (x : Tables). x.table_columns) inserted;
          definitions = same_defs ∙ ap (λ (x : Tables). x.definitions) inserted;
          fit = ((refl, fits), tt);
          numbered = (refl, tt);
        },
      )

  Grown-cons :
      {key : String} {pos : ℕ} {t u w : Tables} {c : Column} {cs : List Column}
      → Grown key pos t u (c ∷ [])
      → Grown key (suc pos) u w cs
      → Grown key pos t w (c ∷ cs)
  Grown-cons {t} {c} {cs} g h = record {
    columns = h.columns ∙ ap (λ l. l ++ cs) g.columns ∙ append_assoc t.table_columns (c ∷ []) cs;
    definitions = h.definitions ∙ g.definitions;
    fit = (g.fit.0, h.fit);
    numbered = (g.numbered.0, h.numbered);
  }

  -- The loop of AddColumns keeps every column that is registered as it is and puts new ones behind
  -- them, numbered from `pos` on, each nullable or with a default.
  pub add_loop_grows :
      (existing : String → Option Column) (key : String) (now pos : ℕ) (cs : List Column)
      (t : Tables)
      → Ensures t
          (add_loop accepts existing key now pos cs)
          (λ _ u. (added : List Column) × Grown key pos t u added)
          (λ _ _. Unit)
  unfolding add_loop
  add_loop_grows existing key now pos [] t =
      by_pure tt
        ([], record { columns = sym (append-nil _); definitions = refl; fit = tt; numbered = tt })
  add_loop_grows existing key now pos (c ∷ cs) t =
      by_lift _ (validate_column c) (λ _. tt)
        λ _ _. elim (Option-cases (existing c.name)) [
          | inl e ↦ rw e (
              by_bind (λ _ u. (d : Column) × Grown key pos t u (d ∷ []))
                (by_consequence (add_column-Added key now pos c t)
                  (λ _ u. Added-Grown key now pos c t u) (λ _ _ _. tt))
                λ _ u g.
                  by_consequence (add_loop_grows existing key now (suc pos) cs u)
                    (λ _ w h. (g.0 ∷ h.0, Grown-cons g.1 h.1)) (λ _ _ _. tt))
          | inr (ex, e) ↦ rw e (
              by_require _ (ex.col_type == c.col_type && not (xor ex.nullable c.nullable))
                (column_conflict c.name) (λ _. add_loop_grows existing key now pos cs t) λ _. tt)
        ]
