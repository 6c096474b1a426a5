-- ===== src/Table/Records/Querying.antt =====
-- The page of records that QueryRecords gives.
use flagbase.Prelude.{
  ℕ, String, Bool, true, ◌&&◌, ◌≡◌, ◌≤◌, ◌⊎◌, inl, inr, List, map, All, take, drop, length, leb,
  lookup, some, arith, Bool-cases, Option-cases,
}
use flagbase.Prelude.Int.{ℤ, pos, negsuc}
use flagbase.Db.{ok}
use flagbase.Db.Ensures.{Ensures}
use flagbase.Sorting.{Sorting, IsSorted, count}
use flagbase.Table.{Column, TableDef, Record, QueryOptions}
use flagbase.Table.Schema.{Row, Physical, Tables}
use flagbase.Table.Schema.Adding.{Loaded}
use flagbase.Table.Records.{build_record}
use flagbase.Table.Records.Rows.{Sqlite, select, has_columns}
use flagbase.Table.Records.Operations.{Clause, where_clauses, passes}

abbrev pub by_creation : Row → Row → Bool
by_creation r s = leb r.created_at s.created_at

-- The limit of a page: what is asked for, from 1 to 1000, and else 100.
abbrev pub IsLimit : ℤ → ℕ → Type 0
IsLimit (pos n) l = ((1 ≤ n) × (n ≤ 1000) × (l ≡ n)) ⊎ (((n ≡ 0) ⊎ (1001 ≤ n)) × (l ≡ 100))
IsLimit (negsuc n) l = l ≡ 100

-- The offset of a page: what is asked for, and none where that is negative.
abbrev pub IsOffset : ℤ → ℕ → Type 0
IsOffset (pos n) o = o ≡ n
IsOffset (negsuc n) o = o ≡ 0

pub select-ok :
    {A : Type 0} (key : String) (cols : List Column) (f : Physical → A) (t : Tables) {a : A}
    {u : Tables}
    → select key cols f t ≡ ok (a, u)
    → (p : Physical) × (lookup key t.physical ≡ some p) × (a ≡ f p) × (u ≡ t)
select-ok key cols f t {a} {u} h = elim (Option-cases (lookup key t.physical)) [
  | inl e ↦ absurd (ground arith)
  | inr (p, e) ↦ elim (Bool-cases (has_columns (map (λ c. c.name) cols) p)) [
    | inl q ↦ (p, e, ground arith, ground arith)
    | inr q ↦ absurd (ground arith)
  ]
]

module _ (order : Sorting) (sqlite : Sqlite) where
  -- A page of records. `ordered` are the rows of the stored table that pass the clauses of the
  -- filters, each as often as the table has it, in the order of their creation; the page shows at
  -- most a thousand of them, those that LIMIT and OFFSET leave.
  pub record Page (key : String) (opts : QueryOptions) (t : Tables) (rs : List Record)
      : Type 0 where
    pub def : TableDef
    pub columns : Loaded order key t (some def)
    pub clauses : List Clause
    pub filters : where_clauses def.columns opts.filters ≡ ok clauses
    pub stored : Physical
    pub here : lookup key t.physical ≡ some stored
    pub ordered : List Row
    pub complete :
        (p : Row → Bool)
        → count p ordered ≡ count (λ r. p r && passes order sqlite clauses r) stored.rows
    pub in_order : IsSorted by_creation ordered
    pub rows : List Row
    pub limit : ℕ
    pub limited : IsLimit opts.limit limit
    pub offset : ℕ
    pub moved : IsOffset opts.offset offset
    pub cut : rows ≡ take limit (drop offset ordered)
    pub shown : rs ≡ map (build_record sqlite def.columns) rows
    pub pass : All (λ r. passes order sqlite clauses r ≡ true) rows
    pub sorted : IsSorted by_creation rows
    pub few : length rows ≤ 1000
