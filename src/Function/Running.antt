-- ===== src/Function/Running.antt =====
-- internal/function/store.go, startInvocation and the runtimes: one run of a function.
use flagbase.Prelude.{
  ℕ, String, not, ◌≡◌, ◌≢◌, true, ◌&&◌, ◌∙◌, refl, ap, inl, inr, List, arith, eq_iff, ◌==◌,
  Bool-cases,
}
use flagbase.Db.{Error, unknown_runtime, handed, ok, Result, err, Session}
use flagbase.Function.{Function, InvMetrics, Site, on_storage}
use flagbase.Function.Source.{Codec}
use flagbase.Function.Store.{functions_bucket}
use flagbase.Ids.{new_id}
use flagbase.Storage.{get_object}
use Prim.Native.String.{◌++◌ as ◌<>◌}
use flagbase.Text.{codes}
use flagbase.Function.Invoke.{
  Runtimes, Call, Outcome, start_invocation, failing, run, invoke_wasm, loaded, only_if, started,
}

module _ (codec : Codec) (describe : Error → String) (base : List ℕ) (runtimes : Runtimes)
    (metadata : String → InvMetrics → List ℕ) where
  -- One run of a function, from a session to an outcome and a session: the binary that the
  -- storage has for it in the wasm runtime, once, or its source in the interpreter, once; or no
  -- code at all, where the binary cannot be read or there is no such runtime.
  pub data Ran (fn : Function) (inv_id : String)
      : Session Site → Outcome → Session Site → Type 0 where
    by_wasm :
        fn.runtime ≡ "wasm"
        → (s l : Session Site) (wasm_bytes : List ℕ)
        → on_storage (get_object base functions_bucket (codes (fn.id <> ".wasm"))) s
          ≡ (ok wasm_bytes, l)
        → Ran fn inv_id s
            (runtimes.wasi wasm_bytes fn.id inv_id l).0
            (runtimes.wasi wasm_bytes fn.id inv_id l).1
    not_loaded :
        fn.runtime ≡ "wasm"
        → (s l : Session Site) (e : Error)
        → on_storage (get_object base functions_bucket (codes (fn.id <> ".wasm"))) s ≡ (err e, l)
        → Ran fn inv_id s (failing codec describe base runtimes metadata e) l
    by_js :
        fn.runtime ≡ "js"
        → (s : Session Site) → Ran fn inv_id s (runtimes.js fn s).0 (runtimes.js fn s).1
    no_runtime :
        fn.runtime ≢ "wasm"
        → fn.runtime ≢ "js"
        → (s : Session Site)
        → Ran fn inv_id s
            (failing codec describe base runtimes metadata (unknown_runtime fn.runtime))
            s

  -- A run, whatever the runtime, gives an outcome.
  pub record Run (fn : Function) (inv_id : String) (s : Session Site) : Type 0 where
    pub outcome : Outcome
    pub ended : Session Site
    pub done : run codec describe base runtimes metadata fn inv_id s ≡ (ok outcome, ended)
    pub ran : Ran fn inv_id s outcome ended

  load-Run :
      (fn : Function) (inv_id : String) (s : Session Site)
      → fn.runtime ≡ "wasm"
      → (fn.runtime == "wasm") ≡ true
      → (r : Result (List ℕ) × Session Site)
      → on_storage (get_object base functions_bucket (codes (fn.id <> ".wasm"))) s ≡ r
      → Run fn inv_id s
  unfolding invoke_wasm
  load-Run fn inv_id s w b (ok wasm_bytes, l) e = record {
    outcome = (runtimes.wasi wasm_bytes fn.id inv_id l).0;
    ended = (runtimes.wasi wasm_bytes fn.id inv_id l).1;
    done = rw (b, run) (ap (handed (loaded codec describe base runtimes metadata fn inv_id)) e);
    ran = by_wasm w s l wasm_bytes e;
  }
  load-Run fn inv_id s w b (err x, l) e = record {
    outcome = failing codec describe base runtimes metadata x;
    ended = l;
    done = rw (b, run) (ap (handed (loaded codec describe base runtimes metadata fn inv_id)) e);
    ran = not_loaded w s l x e;
  }

  pub outcome_of : (fn : Function) (inv_id : String) (s : Session Site) → Run fn inv_id s
  outcome_of fn inv_id s = elim (Bool-cases (fn.runtime == "wasm")) [
    | inl b ↦ load-Run fn inv_id s (ground (arith, eq_iff fn.runtime "wasm")) b _ refl
    | inr b ↦ elim (Bool-cases (fn.runtime == "js")) [
      | inl c ↦ record {
        outcome = (runtimes.js fn s).0;
        ended = (runtimes.js fn s).1;
        done = rw (b, run) (rw c refl);
        ran = by_js (ground (arith, eq_iff fn.runtime "js")) s;
      }
      | inr c ↦ record {
        outcome = failing codec describe base runtimes metadata (unknown_runtime fn.runtime);
        ended = s;
        done = rw (b, run) (rw c refl);
        ran =
            no_runtime (ground (arith, eq_iff fn.runtime "wasm"))
              (ground (arith, eq_iff fn.runtime "js")) s;
      }
    ]
  ]

  recorded_start :
      (call : Call) (function_id id : String) (s : Session Site)
      → (begun : Session Site) × (started codec describe base runtimes metadata call function_id
            (ok id)
            s
          ≡ (ok id, begun))
  recorded_start call function_id id s = (
    (started codec describe base runtimes metadata call function_id (ok id) s).1,
    elim (Bool-cases (call.traced && not (call.trace_id == ""))) [
      | inl e ↦ rw (e, only_if) refl
      | inr e ↦ rw (e, only_if) refl
    ],
  )

  -- The start of an invocation gives an identifier, an empty one where none could be drawn.
  pub started_ok :
      (call : Call) (function_id : String) (s : Session Site)
      → (inv_id : String) × (begun : Session Site) × (start_invocation codec describe base runtimes
            metadata call function_id s
          ≡ (ok inv_id, begun))
  unfolding start_invocation
  started_ok call function_id s = go (new_id s) refl
    where
      go :
          (r : Result String × Session Site)
          → new_id s ≡ r
          → (inv_id : String) × (begun : Session Site) × (start_invocation codec describe base
                runtimes metadata call function_id s
              ≡ (ok inv_id, begun))
      go (err e, l) h =
          ("", l, ap (handed (started codec describe base runtimes metadata call function_id)) h)
      go (ok id, l) h =
          let (begun, e) = recorded_start call function_id id l in
          (
            id,
            begun,
            ap (handed (started codec describe base runtimes metadata call function_id)) h ∙ e,
          )
