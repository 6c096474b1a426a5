-- ===== src/Feature/Engine.antt =====
-- internal/feature/engine.go: the Engine, a cache of the flags over the tables. The lock has no
-- counterpart: an operation of the model runs alone.
pub mod Steps
pub mod Caching
pub mod Integrity
pub mod Overriding
pub mod Tests
use flagbase.Prelude.{
  ℕ, String, Bool, true, false, ◌||◌, not, List, [], ◌∷◌, keep, map, Option, none, some, lookup,
  ◌==◌, if◌then◌else◌,
}
use flagbase.Db.{
  Error, unknown_status, Op, pure, gets, modify, require, statement, execute, query, ◌>>=◌, ◌>>◌,
  Result, ok, err,
}
use flagbase.Ids.{new_id, id_or_new}
use flagbase.Sorting.{Sorting}
use flagbase.Feature.{
  Flag, FlagStatus, Rule, Variant, Override, flag_status_draft, flag_status_testing, flag_status_ga,
  flag_status_deprecated,
}
use flagbase.Feature.Tables.{
  FlagRow, Tables, insert_flag_row, insert_rule_row, update_flag_row, update_status,
  delete_flag_row, insert_variant, delete_variant_rows, upsert_override, delete_override_rows,
  load_rules, load_variants, load_overrides,
}

-- The cache is a Go map: of two entries with one key the later write stays.
pub record Engine : Type 0 where
  pub db : Tables
  pub flags : List (String × Flag)

-- flags[f.Key] = f
abbrev pub put : String → Flag → List (String × Flag) → List (String × Flag)
put k f m = (k, f) ∷ keep (λ e. not (e.0 == k)) m

-- A scanned row, with the status of an empty column set to `ga`.
abbrev pub scanned : FlagRow → Flag
scanned r = record {
  id = r.id;
  key = r.key;
  name = r.name;
  description = r.description;
  status = if r.status == "" then flag_status_ga else r.status;
  enabled = r.enabled;
  default_value = r.default_value;
  rules = [];
  variants = [];
  overrides = [];
  created_at = r.created_at;
  updated_at = r.updated_at;
}

-- The first loop of `reload`.
pub collect : List FlagRow → List (String × Flag) → List (String × Flag)
collect [] m = m
collect (r ∷ rs) m = collect rs (put r.key (scanned r) m)

abbrev pub on_db : {A : Type 0} → Engine → Result (A × Tables) → Result (A × Engine)
on_db e (ok (a, t)) = ok (a, record e { db = t })
on_db e (err x) = err x

-- A statement on the tables leaves the cache alone.
abbrev pub sql : {A : Type 0} → (Tables → Result (A × Tables)) → Op Engine A
sql f = statement (λ e. on_db e (f e.db))

abbrev pub exec : (Tables → Tables) → Op Engine (Unit {0})
exec f = execute (λ e. record e { db = f e.db })

pub insert_rule : Rule → Op Engine Rule
insert_rule r = do
  id ← id_or_new r.id
  let r' = record r { id = id }
  sql (insert_rule_row r')
  pure r'

-- The loop over `f.Rules`.
pub insert_rules : String → List Rule → Op Engine (List Rule)
unfolding insert_rule
insert_rules key [] = pure []
insert_rules key (r ∷ rs) = do
  r' ← insert_rule (record r { flag_key = key })
  rs' ← insert_rules key rs
  pure (r' ∷ rs')

abbrev pub row_of : Flag → FlagRow
row_of f = record {
  id = f.id;
  key = f.key;
  name = f.name;
  description = f.description;
  enabled = f.enabled;
  default_value = f.default_value;
  status = f.status;
  created_at = f.created_at;
  updated_at = f.updated_at;
}

-- The cases of the switch in TransitionStatus.
pub is_status : String → Bool
is_status status =
    status == flag_status_draft
    || status == flag_status_testing
    || status == flag_status_ga
    || status == flag_status_deprecated

module _ (order : Sorting) where
  -- The second loop of `reload`: three queries for each flag.
  pub fill : List (String × Flag) → Op Engine (List (String × Flag))
  fill [] = pure []
  fill ((key, f) ∷ m) = do
    rules ← query (λ e. load_rules order key e.db)
    variants ← query (λ e. load_variants order key e.db)
    overrides ← query (λ e. load_overrides order key e.db)
    rest ← fill m
    pure ((key, record f { rules = rules; variants = variants; overrides = overrides }) ∷ rest)

  pub reload : Op Engine (Unit {0})
  unfolding fill collect
  reload = do
    rows ← query (λ e. e.db.feature_flags)
    flags ← fill (collect rows [])
    modify (λ e. record e { flags = flags })

  -- `now` is what time.Now() returns; the result is what the pointer holds afterwards.
  pub create_flag : ℕ → Flag → Op Engine Flag
  unfolding insert_rules reload
  create_flag now f = do
    id ← id_or_new f.id
    let status = if f.status == "" then flag_status_draft else f.status
    let f' = record f { id = id; status = status; created_at = now; updated_at = now }
    sql (insert_flag_row (row_of f'))
    rules ← insert_rules f'.key f'.rules
    reload
    pure (record f' { rules = rules })

  pub update_flag : ℕ → Flag → Op Engine (Unit {0})
  unfolding reload
  update_flag now f = do
    let status = if f.status == "" then flag_status_ga else f.status
    exec (update_flag_row f.key f.name f.description f.enabled f.default_value status now)
    reload

  pub transition_status : ℕ → String → FlagStatus → Op Engine (Unit {0})
  unfolding reload
  transition_status now key status = do
    require (is_status status) (unknown_status status)
    exec (update_status key status now)
    reload

  pub delete_flag : String → Op Engine (Unit {0})
  unfolding reload
  delete_flag key = do exec (delete_flag_row key); reload

  pub create_variant : Variant → Op Engine (Unit {0})
  unfolding reload
  create_variant v = do id ← new_id; sql (insert_variant (record v { id = id })); reload

  pub delete_variant : String → String → Op Engine (Unit {0})
  unfolding reload
  delete_variant flag_key variant_key = do exec (delete_variant_rows flag_key variant_key); reload

  pub create_override : ℕ → Override → Op Engine (Unit {0})
  unfolding reload
  create_override now ov = do
    id ← new_id
    sql (upsert_override (record ov { id = id; created_at = now }))
    reload

  pub delete_override : String → String → Op Engine (Unit {0})
  unfolding reload
  delete_override flag_key user_id = do exec (delete_override_rows flag_key user_id); reload

pub list_flags : Engine → List Flag
list_flags e = map (λ p. p.1) e.flags

pub get_flag : Engine → String → Option Flag
get_flag e key = lookup key e.flags

pub list_variants : Engine → String → List Variant
list_variants e flag_key = elim (lookup flag_key e.flags) [ none ↦ [] | some f ↦ f.variants ]

pub list_overrides : Engine → String → List Override
list_overrides e flag_key = elim (lookup flag_key e.flags) [ none ↦ [] | some f ↦ f.overrides ]

-- NewEngine: an empty map over the database, and a reload.
pub new_engine : Sorting → Op Engine (Unit {0})
unfolding reload
new_engine order = do modify (λ e. record e { flags = [] }); reload order
