-- ===== src/Function/Readiness.antt =====
-- internal/function/store.go, Invoke: only functions that are ready are executed.
use flagbase.Prelude.{ℕ, String, ◌≡◌, length, ◌⊎◌, List, none, some}
use flagbase.Db.{Error, ignore, ◌>>=◌, ◌>>◌, ok, Result, err, Session, Op}
use flagbase.Function.{Function, InvMetrics, Site}
use flagbase.Function.Source.{Codec}
use flagbase.Function.Store.{function_with}
use flagbase.Function.Running.{Ran}
use flagbase.Function.Invoke.{
  Runtimes, Call, Outcome, start_invocation, complete_invocation, run, err_msg_of, metrics_of,
  answer,
}

module _ (codec : Codec) (describe : Error → String) (base : List ℕ) (runtimes : Runtimes)
    (metadata : String → InvMetrics → List ℕ) where
  -- The function is one of the table that is ready; its start has been recorded, it has run once
  -- from there, and its end has been recorded with what the run has given, which is the answer.
  pub record Executed (call : Call) (id : String) (s : Session Site)
      (r : Result (List ℕ) × Session Site) : Type 0 where
    pub function : Function
    pub left : Session Site
    pub same : left.state ≡ s.state
    pub found : function_with codec id s.state ≡ some function
    pub ready : function.status ≡ "ready"
    pub inv_id : String
    pub begun : Session Site
    pub start :
        start_invocation codec describe base runtimes metadata call function.id left
        ≡ (ok inv_id, begun)
    pub outcome : Outcome
    pub ended : Session Site
    pub ran : Ran codec describe base runtimes metadata function inv_id begun outcome ended
    pub recorded :
        r.1
        ≡ (complete_invocation codec describe base runtimes metadata call inv_id outcome.output
            (elim outcome.error [ none ↦ "" | some e ↦ describe e ])
            (record {
              execution_ms = call.elapsed_ms;
              peak_memory_bytes = outcome.peak_memory_bytes;
              host_calls = outcome.host_calls;
              output_size_bytes = length outcome.output;
            })
            ended).1
    pub answered : r.0 ≡ (elim outcome.error as (λ _. Result (List ℕ)) [
      | none ↦ ok outcome.output
      | some e ↦ err e
    ])

  -- The call has failed and left no trace in the tables and files.
  abbrev pub Refused : Session Site → Result (List ℕ) × Session Site → Type 0
  Refused s r = (e : Error) × (r.0 ≡ err e) × (r.1.state ≡ s.state)

  abbrev pub Decided : Call → String → Session Site → Result (List ℕ) × Session Site → Type 0
  Decided call id s r = Refused s r ⊎ Executed call id s r

  -- What comes after the run.
  abbrev finish : Call → String → Outcome → Op Site (List ℕ)
  finish call inv_id o = do
    ignore (
        complete_invocation codec describe base runtimes metadata call inv_id o.output
          (err_msg_of codec describe base runtimes metadata o.error)
          (metrics_of codec describe base runtimes metadata call o))
    answer codec describe base runtimes metadata o

  abbrev after_start : Call → Function → String → Op Site (List ℕ)
  after_start call fn inv_id =
      run codec describe base runtimes metadata fn inv_id >>= finish call inv_id
