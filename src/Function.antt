-- ===== src/Function.antt =====
-- internal/function/store.go: the data of the function store, and its tables.
pub mod Source
pub mod Store
pub mod Invoke
pub mod Numbering
pub mod Running
pub mod Readiness
pub mod Uploading
mod Tests
use flagbase.Prelude.{
  ℕ, ◌+◌, String, Bool, true, false, not, List, [], ◌∷◌, ◌++◌, any, keep, update_where, leb, Option,
  none, some, ◌==◌, if◌then◌else◌,
}
use flagbase.Db.{unique, foreign_key, Result, ok, err, Op, zoom}
use flagbase.Tracing.{Traces}
use flagbase.Storage.{Storage}

-- A function; in a row, `source` is the compressed text.
pub record Function : Type 0 where
  pub id : String
  pub name : String
  pub description : String
  pub language : String
  pub source : List ℕ
  pub runtime : String
  pub status : String
  pub error : String
  pub created_at : ℕ
  pub updated_at : ℕ

-- A deployment; in a row, `source` is the compressed text.
pub record FunctionVersion : Type 0 where
  pub id : String
  pub function_id : String
  pub version : ℕ
  pub source : List ℕ
  pub created_at : ℕ

pub record FunctionInvocation : Type 0 where
  pub id : String
  pub function_id : String
  pub started_at : ℕ
  pub completed_at : Option ℕ
  pub success : Bool
  pub output : List ℕ
  pub error : String
  pub execution_ms : Option ℕ
  pub peak_memory_bytes : ℕ
  pub host_calls : ℕ
  pub output_size_bytes : ℕ
  pub trace_id : String

pub record InvMetrics : Type 0 where
  pub execution_ms : ℕ
  pub peak_memory_bytes : ℕ
  pub host_calls : ℕ
  pub output_size_bytes : ℕ

-- The tables and the files that the store works on.
pub record Site : Type 0 where
  pub functions : List Function
  pub function_versions : List FunctionVersion
  pub function_invocations : List FunctionInvocation
  pub traces : Traces
  pub storage : Storage

abbrev pub on_storage : {A : Type 0} → Op Storage A → Op Site A
on_storage = zoom (λ t. t.storage) (λ s t. record t { storage = s })

abbrev pub on_traces : {A : Type 0} → Op Traces A → Op Site A
on_traces = zoom (λ t. t.traces) (λ s t. record t { traces = s })

abbrev pub insert_function : Function → Site → Result (Unit {0} × Site)
insert_function f t =
    if any (λ g. g.id == f.id) t.functions
    then err unique
    else ok (tt, record t { functions = t.functions ++ f ∷ [] })

abbrev pub insert_version : FunctionVersion → Site → Result (Unit {0} × Site)
insert_version v t =
    if any (λ w. w.id == v.id) t.function_versions
    then err unique
    else if not (any (λ f. f.id == v.function_id) t.functions)
    then err foreign_key
    else ok (tt, record t { function_versions = t.function_versions ++ v ∷ [] })

abbrev pub insert_invocation : FunctionInvocation → Site → Result (Unit {0} × Site)
insert_invocation i t =
    if any (λ j. j.id == i.id) t.function_invocations
    then err unique
    else if not (any (λ f. f.id == i.function_id) t.functions)
    then err foreign_key
    else ok (tt, record t { function_invocations = t.function_invocations ++ i ∷ [] })

abbrev pub update_functions : String → (Function → Function) → Site → Site
update_functions id f t = record t { functions = update_where (λ g. g.id == id) f t.functions }

-- The versions and invocations go with their function, by ON DELETE CASCADE.
abbrev pub delete_function_row : String → Site → Site
delete_function_row id t = record t {
  functions = keep (λ f. not (f.id == id)) t.functions;
  function_versions = keep (λ v. not (v.function_id == id)) t.function_versions;
  function_invocations = keep (λ i. not (i.function_id == id)) t.function_invocations;
}

-- COALESCE(MAX(version), 0)
abbrev pub max_version : String → List FunctionVersion → ℕ
max_version function_id [] = 0
max_version function_id (v ∷ vs) =
    let rest = max_version function_id vs in
    if v.function_id == function_id then if leb rest v.version then v.version else rest else rest
