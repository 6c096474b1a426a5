-- ===== src/Function/Invoke.antt =====
-- internal/function/store.go: the execution of a function, and the record of it.
use Prim.Native.String.{◌++◌ as ◌<>◌}
use flagbase.Prelude.{
  ℕ, ◌-◌, String, Bool, false, not, ◌&&◌, List, [], keep, update_where, ltb, leb, length, take,
  Option, none, some, ◌==◌, if◌then◌else◌,
}
use flagbase.Text.{codes}
use flagbase.Db.{
  Error, function_not_found, function_not_ready, unknown_runtime, Result, ok, err, Session, Op,
  pure, raise, require, statement, execute, query, ignore, attempt, ◌>>=◌, ◌>>◌,
}
use flagbase.Ids.{new_id}
use flagbase.Sorting.{Sorting}
use flagbase.Storage.{get_object}
use flagbase.Tracing.{start_trace, record_span, complete_trace}
use flagbase.Function.{
  Function, FunctionInvocation, InvMetrics, Site, on_storage, on_traces, insert_invocation,
}
use flagbase.Function.Source.{Codec}
use flagbase.Function.Store.{get, functions_bucket, runtime_wasm, runtime_js}

-- What a runtime gives: the output, an error if there is one, and what it has measured.
pub record Outcome : Type 0 where
  pub output : List ℕ
  pub error : Option Error
  pub peak_memory_bytes : ℕ
  pub host_calls : ℕ

-- The runtimes run code that may call back into the store. `wasi` is InvokeWASI on a binary, for
-- a function and an invocation, and `wasi_stream` is InvokeWASIStream, whose output is what it has
-- written; `js` is the interpreter on the source of a function.
pub record Runtimes : Type 0 where
  pub wasi : List ℕ → String → String → Session Site → Outcome × Session Site
  pub wasi_stream : List ℕ → String → String → Session Site → Outcome × Session Site
  pub js : Function → Session Site → Outcome × Session Site

-- What an invocation comes with: the time, what it takes, whether a tracer is wired, the trace of
-- the request.
pub record Call : Type 0 where
  pub now : ℕ
  pub elapsed_ms : ℕ
  pub traced : Bool
  pub trace_id : String

abbrev pub given : {A : Type 0} → A × Session Site → Result A × Session Site
given (a, s) = (ok a, s)

abbrev pub total : {A : Type 0} → (Session Site → A × Session Site) → Op Site A
total f s = given (f s)

-- An `if` without an `else`.
abbrev pub only_if : Bool → Op Site (Unit {0}) → Op Site (Unit {0})
only_if b m = if b then m else pure tt

abbrev pub update_invocation : String → (FunctionInvocation → FunctionInvocation) → Site → Site
update_invocation id f t = record t {
  function_invocations = update_where (λ i. i.id == id) f t.function_invocations;
}

abbrev pub most_recent : FunctionInvocation → FunctionInvocation → Bool
most_recent i j = leb j.started_at i.started_at

unfoldable pub list_invocations : Sorting → String → Op Site (List FunctionInvocation)
list_invocations order function_id = query (λ t. take 100 (
    order.sort FunctionInvocation most_recent
      (keep (λ i. i.function_id == function_id) t.function_invocations)))

-- `metadata` is the JSON of the span of an invocation.
module _ (codec : Codec) (describe : Error → String) (base : List ℕ) (runtimes : Runtimes)
    (metadata : String → InvMetrics → List ℕ) where
  abbrev pub record_start : Call → String → String → Op Site (Unit {0})
  record_start call function_id id = do
    only_if (call.traced && not (call.trace_id == ""))
        (ignore (on_traces (start_trace call.now call.trace_id "http_invoke" function_id "" "")))
    ignore (
        statement (
          insert_invocation (record {
            id = id;
            function_id = function_id;
            started_at = call.now;
            completed_at = none;
            success = false;
            output = [];
            error = "";
            execution_ms = none;
            peak_memory_bytes = 0;
            host_calls = 0;
            output_size_bytes = 0;
            trace_id = call.trace_id;
          })))

  abbrev pub started : Call → String → Result String → Op Site String
  started call function_id (err e) = pure ""
  started call function_id (ok id) = do record_start call function_id id; pure id

  -- Its callers drop the error, and use the identifier whether the row is there or not.
  unfoldable pub start_invocation : Call → String → Op Site String
  unfolding new_id start_trace
  start_invocation call function_id = attempt new_id (started call function_id)

  abbrev pub status_of : Bool → String
  status_of success = if success then "success" else "error"

  abbrev pub record_end : Call → String → Bool → InvMetrics → Op Site (Unit {0})
  record_end call inv_id success m = do
    ignore (
        on_traces (
          record_span call.trace_id "" "function_invoke" (status_of success)
            (call.now - m.execution_ms) m.execution_ms 0 (metadata inv_id m)))
    on_traces (complete_trace call.now call.trace_id (status_of success))

  unfoldable pub complete_invocation :
      Call → String → List ℕ → String → InvMetrics → Op Site (Unit {0})
  unfolding record_span complete_trace
  complete_invocation call inv_id output err_msg m = do
    only_if (ltb 0 m.execution_ms && call.traced && not (call.trace_id == ""))
        (record_end call inv_id (err_msg == "") m)
    execute (
        update_invocation inv_id (λ i. record i {
          completed_at = some call.now;
          success = err_msg == "";
          output = output;
          error = err_msg;
          execution_ms = some m.execution_ms;
          peak_memory_bytes = m.peak_memory_bytes;
          host_calls = m.host_calls;
          output_size_bytes = m.output_size_bytes;
        }))

  abbrev pub failing : Error → Outcome
  failing e = record { output = []; error = some e; peak_memory_bytes = 0; host_calls = 0 }

  abbrev pub loaded : Function → String → Result (List ℕ) → Op Site Outcome
  loaded fn inv_id (err e) = pure (failing e)
  loaded fn inv_id (ok wasm_bytes) = total (runtimes.wasi wasm_bytes fn.id inv_id)

  unfoldable pub invoke_wasm : Function → String → Op Site Outcome
  unfolding get_object
  invoke_wasm fn inv_id =
      attempt (on_storage (get_object base functions_bucket (codes (fn.id <> ".wasm"))))
        (loaded fn inv_id)

  abbrev pub invoke_js : Function → Op Site Outcome
  invoke_js fn = total (runtimes.js fn)

  -- The switch on the runtime.
  abbrev pub run : Function → String → Op Site Outcome
  run fn inv_id =
      if fn.runtime == runtime_wasm
      then invoke_wasm fn inv_id
      else if fn.runtime == runtime_js
      then invoke_js fn
      else pure (failing (unknown_runtime fn.runtime))

  abbrev pub err_msg_of : Option Error → String
  err_msg_of none = ""
  err_msg_of (some e) = describe e

  abbrev pub answer : Outcome → Op Site (List ℕ)
  answer o = elim o.error [ none ↦ pure o.output | some e ↦ raise e ]

  abbrev pub metrics_of : Call → Outcome → InvMetrics
  metrics_of call o = record {
    execution_ms = call.elapsed_ms;
    peak_memory_bytes = o.peak_memory_bytes;
    host_calls = o.host_calls;
    output_size_bytes = length o.output;
  }

  abbrev pub execution : Call → Function → Op Site (List ℕ)
  execution call fn = do
    inv_id ← start_invocation call fn.id
    o ← run fn inv_id
    ignore (complete_invocation call inv_id o.output (err_msg_of o.error) (metrics_of call o))
    answer o

  abbrev pub invoke_found : Call → Option Function → Op Site (List ℕ)
  invoke_found call none = raise function_not_found
  invoke_found call (some fn) =
      if not (fn.status == "ready") then raise (function_not_ready fn.status) else execution call fn

  unfoldable pub invoke : Call → String → Op Site (List ℕ)
  unfolding get start_invocation invoke_wasm complete_invocation
  invoke call id = do fn ← get codec id; invoke_found call fn

  abbrev pub streamed : Function → String → Result (List ℕ) → Op Site Outcome
  streamed fn inv_id (err e) = pure (failing e)
  streamed fn inv_id (ok wasm_bytes) = total (runtimes.wasi_stream wasm_bytes fn.id inv_id)

  unfoldable pub invoke_wasm_stream : Function → String → Op Site Outcome
  unfolding get_object
  invoke_wasm_stream fn inv_id =
      attempt (on_storage (get_object base functions_bucket (codes (fn.id <> ".wasm"))))
        (streamed fn inv_id)

  -- `write` writes to the client: an error, or none.
  abbrev pub written : (List ℕ → Option Error) → Outcome → Outcome
  written write o = elim o.error [ none ↦ record o { error = write o.output } | some e ↦ o ]

  abbrev pub run_stream : (List ℕ → Option Error) → Function → String → Op Site Outcome
  run_stream write fn inv_id =
      if fn.runtime == runtime_wasm
      then invoke_wasm_stream fn inv_id
      else if fn.runtime == runtime_js
      then (invoke_js fn >>= λ o. pure (written write o))
      else pure (failing (unknown_runtime fn.runtime))

  abbrev pub stream_answer : Outcome → Op Site (Unit {0})
  stream_answer o = elim o.error [ none ↦ pure tt | some e ↦ raise e ]

  abbrev pub stream_found : (List ℕ → Option Error) → Call → Option Function → Op Site (Unit {0})
  stream_found write call none = raise function_not_found
  stream_found write call (some fn) = do
    require (fn.status == "ready") (function_not_ready fn.status)
    inv_id ← start_invocation call fn.id
    o ← run_stream write fn inv_id
    ignore (complete_invocation call inv_id o.output (err_msg_of o.error) (metrics_of call o))
    stream_answer o

  unfoldable pub invoke_stream : (List ℕ → Option Error) → Call → String → Op Site (Unit {0})
  unfolding get start_invocation invoke_wasm_stream complete_invocation
  invoke_stream write call id = do fn ← get codec id; stream_found write call fn
