-- ===== src/Function/Store.antt =====
-- internal/function/store.go: functions, their versions and their artifacts.
use Prim.Native.String.{◌++◌ as ◌<>◌}
use flagbase.Prelude.{
  ℕ, ◌+◌, String, Bool, ◌&&◌, List, [], ◌∷◌, map, first, keep, leb, Option, none, some, ◌==◌,
  if◌then◌else◌,
}
use flagbase.Text.{codes, has_prefix}
use flagbase.Db.{
  Error, bad_artifact, unsupported_language, function_not_found, not_editable, Result, ok, err, Op,
  pure, raise, lift, require, statement, execute, query, ignore, attempt, ◌>>=◌, ◌>>◌,
}
use flagbase.Ids.{new_id}
use flagbase.Sorting.{Sorting}
use flagbase.Storage.{put_object, delete_object}
use flagbase.Function.{
  Function, FunctionVersion, Site, on_storage, insert_function, insert_version, update_functions,
  delete_function_row, max_version,
}
use flagbase.Function.Source.{Codec, compress_source, decompress_source}

abbrev pub functions_bucket : List ℕ
functions_bucket = codes "functions"

-- compiler.Runtime and compiler.Language are string types.
abbrev pub runtime_wasm : String
runtime_wasm = "wasm"

abbrev pub runtime_js : String
runtime_js = "js"

abbrev pub language_go : String
language_go = "go"

abbrev pub language_javascript : String
language_javascript = "javascript"

pub record CompileResult : Type 0 where
  pub runtime : String
  pub artifact : List ℕ

unfoldable pub artifact_ext : String → String
artifact_ext rt = if rt == runtime_wasm then ".wasm" else ".js"

-- The first four bytes are those of a WebAssembly binary.
unfoldable pub is_wasm : List ℕ → Bool
unfolding has_prefix
is_wasm bytes = has_prefix bytes (0 ∷ codes "asm")

abbrev pub newest : Function → Function → Bool
newest f g = leb g.created_at f.created_at

abbrev pub oldest_version : FunctionVersion → FunctionVersion → Bool
oldest_version v w = leb v.version w.version

abbrev pub or_zero : Result ℕ → ℕ
or_zero (ok n) = n
or_zero (err e) = 0

-- A text that is read, or empty.
abbrev pub or_blank : Result (List ℕ) → List ℕ
or_blank (ok s) = s
or_blank (err e) = []

unfoldable pub update_status : ℕ → String → String → String → String → Op Site (Unit {0})
update_status now id status err_msg runtime = execute (
    update_functions id
      (λ f. record f { status = status; error = err_msg; runtime = runtime; updated_at = now }))

module _ (codec : Codec) where
  -- The function that a row is read into.
  abbrev pub function_of : Function → Function
  function_of f = record f { source = decompress_source codec f.source }

  abbrev pub version_of : FunctionVersion → FunctionVersion
  version_of v = record v { source = decompress_source codec v.source }

  abbrev pub function_with : String → Site → Option Function
  function_with id t = elim (first (λ f. f.id == id) t.functions) [
    | none ↦ none
    | some f ↦ some (function_of f)
  ]

  unfoldable pub get : String → Op Site (Option Function)
  unfolding decompress_source
  get id = query (function_with id)

  unfoldable pub list : Sorting → Op Site (List Function)
  unfolding decompress_source
  list order = query (λ t. map function_of (order.sort Function newest t.functions))

  unfoldable pub list_versions : Sorting → String → Op Site (List FunctionVersion)
  unfolding decompress_source
  list_versions order function_id = query (λ t. map version_of (
      order.sort FunctionVersion oldest_version
        (keep (λ v. v.function_id == function_id) t.function_versions)))

  unfoldable pub get_version : String → String → Op Site (Option FunctionVersion)
  unfolding decompress_source
  get_version function_id version_id = query (λ t.
      elim (first (λ v. v.id == version_id && v.function_id == function_id) t.function_versions) [
        | none ↦ none
        | some v ↦ some (version_of v)
      ])

  -- The times are the defaults of the columns.
  unfoldable pub insert : ℕ → Function → Op Site (Unit {0})
  unfolding compress_source
  insert now f = statement (
      insert_function
        (record f { source = compress_source codec f.source; created_at = now; updated_at = now }))

  abbrev pub source_of : String → Site → List ℕ
  source_of id t = elim (first (λ f. f.id == id) t.functions) [ none ↦ [] | some f ↦ f.source ]

  abbrev pub created_of : String → Site → ℕ
  created_of id t = elim (first (λ v. v.id == id) t.function_versions) [
    | none ↦ 0
    | some v ↦ v.created_at
  ]

  abbrev pub dated : FunctionVersion → Result ℕ → Op Site FunctionVersion
  dated v read = pure (record v { created_at = or_zero read })

  -- The row of a version, and then the time that the database has given it.
  abbrev pub record_version : ℕ → String → String → ℕ → Result (List ℕ) → Op Site FunctionVersion
  record_version now function_id id number stored = do
    let v : FunctionVersion = record {
      id = id;
      function_id = function_id;
      version = number;
      source = decompress_source codec (or_blank stored);
      created_at = 0;
    }
    statement
        (insert_version (record v { source = compress_source codec v.source; created_at = now }))
    attempt (query (created_of id)) (dated v)

  abbrev pub numbered_from : ℕ → String → Result ℕ → Op Site FunctionVersion
  numbered_from now function_id highest = do
    id ← new_id
    attempt (query (source_of function_id))
        (record_version now function_id id (or_zero highest + 1))

  -- Errors of the queries are dropped: the highest version is then 0 and the source empty.
  unfoldable pub create_version : ℕ → String → Op Site FunctionVersion
  unfolding new_id compress_source decompress_source
  create_version now function_id =
      attempt (query (λ t. max_version function_id t.function_versions))
        (numbered_from now function_id)

-- `describe` is the text of an error; `parse` is goja.Compile, an error text or none.
module _ (codec : Codec) (describe : Error → String) (parse : List ℕ → Option Error)
    (base : List ℕ) where
  -- NewJSCompiler and its Compile.
  unfoldable pub compile : List ℕ → Result CompileResult
  compile source = elim (parse source) [
    | some e ↦ err e
    | none ↦ ok (record { runtime = runtime_js; artifact = source })
  ]

  unfoldable pub compiler_for : String → Result (List ℕ → Result CompileResult)
  unfolding compile
  compiler_for language =
      if language == language_go
      then err (unsupported_language language)
      else if language == language_javascript
      then ok compile
      else err (unsupported_language language)

  abbrev pub object_of : String → String → List ℕ
  object_of id runtime = codes (id <> artifact_ext runtime)

  -- A function whose status has become an error; the error of the update is dropped.
  abbrev pub broken : ℕ → Function → String → Op Site Function
  broken now fn message = do
    ignore (update_status now fn.id "error" message "")
    pure (record fn { status = "error"; error = message })

  abbrev pub stored_artifact :
      ℕ → Function → (Op Site (Unit {0})) → Result (Unit {0}) → Op Site Function
  stored_artifact now fn then_do (err e) = broken now fn (describe e)
  stored_artifact now fn then_do (ok u) = do
    ignore (update_status now fn.id "ready" "" fn.runtime)
    then_do
    pure (record fn { status = "ready" })

  abbrev pub put_artifact : Function → List ℕ → Op Site (Unit {0})
  put_artifact fn artifact =
      on_storage (put_object base functions_bucket (object_of fn.id fn.runtime) artifact)

  -- What Create and Update do with the result of the compiler.
  abbrev pub compiled :
      ℕ → Function → (Op Site (Unit {0})) → Result CompileResult → Op Site Function
  compiled now fn then_do (err e) = broken now fn (describe e)
  compiled now fn then_do (ok r) =
      attempt (put_artifact (record fn { runtime = r.runtime }) r.artifact)
        (stored_artifact now (record fn { runtime = r.runtime }) then_do)

  unfoldable pub create : ℕ → String → String → String → List ℕ → Op Site Function
  unfolding compiler_for new_id insert put_object artifact_ext update_status
  create now name description language source = do
    c ← lift (compiler_for language)
    id ← new_id
    let fn : Function = record {
      id = id;
      name = name;
      description = description;
      language = language;
      source = source;
      runtime = "";
      status = "compiling";
      error = "";
      created_at = 0;
      updated_at = 0;
    }
    insert codec now fn
    compiled now fn (pure tt) (c source)

  unfoldable pub upload : ℕ → String → String → List ℕ → Op Site Function
  unfolding is_wasm new_id insert put_object artifact_ext update_status create_version
  upload now name description wasm_bytes = do
    require (is_wasm wasm_bytes) bad_artifact
    id ← new_id
    let fn : Function = record {
      id = id;
      name = name;
      description = description;
      language = language_go;
      source = [];
      runtime = runtime_wasm;
      status = "ready";
      error = "";
      created_at = 0;
      updated_at = 0;
    }
    insert codec now fn
    attempt (put_artifact fn wasm_bytes)
        (stored_artifact now fn (ignore (create_version codec now id)))

  abbrev pub deploy_to : ℕ → String → List ℕ → Option Function → Op Site FunctionVersion
  deploy_to now id wasm_bytes none = raise function_not_found
  deploy_to now id wasm_bytes (some fn) = do
    require (is_wasm wasm_bytes) bad_artifact
    on_storage (put_object base functions_bucket (codes (id <> ".wasm")) wasm_bytes)
    ignore (execute (update_functions id (λ f. record f { status = "ready"; updated_at = now })))
    create_version codec now id

  unfoldable pub deploy_version : ℕ → String → List ℕ → Op Site FunctionVersion
  unfolding get is_wasm put_object create_version
  deploy_version now id wasm_bytes = do fn ← get codec id; deploy_to now id wasm_bytes fn

  abbrev pub delete_found : String → Option Function → Op Site (Unit {0})
  delete_found id none = pure tt
  delete_found id (some fn) = do
    ignore (on_storage (delete_object base functions_bucket (object_of id fn.runtime)))
    execute (delete_function_row id)

  unfoldable pub delete : String → Op Site (Unit {0})
  unfolding get artifact_ext delete_object
  delete id = do fn ← get codec id; delete_found id fn

  abbrev pub update_found :
      ℕ → String → String → String → List ℕ → Option Function → Op Site Function
  update_found now id name description source none = raise function_not_found
  update_found now id name description source (some fn) = do
    require (fn.language == language_javascript) not_editable
    c ← lift (compiler_for fn.language)
    execute (
        update_functions id (λ f. record f {
          name = name;
          description = description;
          source = compress_source codec source;
          status = "compiling";
          error = "";
          updated_at = now;
        }))
    compiled now (record fn { name = name; description = description; source = source })
        (ignore (create_version codec now id)) (c source)

  unfoldable pub update : ℕ → String → String → String → List ℕ → Op Site Function
  unfolding get compiler_for compress_source put_object artifact_ext update_status create_version
  update now id name description source = do
    fn ← get codec id
    update_found now id name description source fn
