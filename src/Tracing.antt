-- ===== src/Tracing.antt =====
-- internal/tracing/tracing.go: traces, and the spans in them.
use flagbase.Prelude.{
  ℕ, ◌+◌, String, not, List, [], ◌∷◌, ◌++◌, any, update_where, Option, none, some, ◌==◌,
  if◌then◌else◌,
}
use flagbase.Db.{
  unique, foreign_key, Result, ok, err, Session, Op, pure, statement, draw, execute, ignore, ◌>>=◌,
  ◌>>◌,
}
use flagbase.Ids.{encode_to_string}

-- NewTraceID: random, or zeros where the random source fails.
abbrev pub trace_text : {T : Type 0} → Result (List ℕ) × Session T → Result String × Session T
trace_text (ok b, s) = (ok (encode_to_string b), s)
trace_text (err e, s) = (ok "00000000000000000000000000000000", s)

unfoldable pub new_trace_id : {T : Type 0} → Op T String
unfolding draw encode_to_string
new_trace_id s = trace_text (draw s)

pub record Trace : Type 0 where
  pub id : String
  pub root_type : String
  pub root_ref : String
  pub user_id : String
  pub tenant_id : String
  pub status : String
  pub started_at : ℕ
  pub completed_at : Option ℕ

pub record TraceEvent : Type 0 where
  pub id : String
  pub trace_id : String
  pub parent_event_id : Option String
  pub event_type : String
  pub sequence : ℕ
  pub started_at : ℕ
  pub completed_at : ℕ
  pub duration_ms : ℕ
  pub status : String
  pub metadata : List ℕ

pub record Traces : Type 0 where
  pub traces : List Trace
  pub trace_events : List TraceEvent

abbrev pub insert_trace : Trace → Traces → Result (Unit {0} × Traces)
insert_trace t s =
    if any (λ u. u.id == t.id) s.traces
    then err unique
    else ok (tt, record s { traces = s.traces ++ t ∷ [] })

abbrev pub insert_event : TraceEvent → Traces → Result (Unit {0} × Traces)
insert_event e s =
    if any (λ f. f.id == e.id) s.trace_events
    then err unique
    else if not (any (λ t. t.id == e.trace_id) s.traces)
    then err foreign_key
    else ok (tt, record s { trace_events = s.trace_events ++ e ∷ [] })

unfoldable pub start_trace : ℕ → String → String → String → String → String → Op Traces (Unit {0})
start_trace now trace_id root_type root_ref user_id tenant_id = statement (
    insert_trace (record {
      id = trace_id;
      root_type = root_type;
      root_ref = root_ref;
      user_id = user_id;
      tenant_id = tenant_id;
      status = "running";
      started_at = now;
      completed_at = none;
    }))

-- The error is dropped.
unfoldable pub complete_trace : ℕ → String → String → Op Traces (Unit {0})
complete_trace now trace_id status = ignore (
    execute (λ s. record s {
      traces =
          update_where (λ t. t.id == trace_id)
            (λ t. record t { status = status; completed_at = some now }) s.traces;
    }))

abbrev pub null_str : String → Option String
null_str s = if s == "" then none else some s

-- Times are in milliseconds; `metadata` is the JSON.
unfoldable pub record_span :
    String → String → String → String → ℕ → ℕ → ℕ → List ℕ → Op Traces String
unfolding new_trace_id
record_span trace_id parent event_type status started_at duration_ms seq metadata = do
  id ← new_trace_id
  statement (
      insert_event (record {
        id = id;
        trace_id = trace_id;
        parent_event_id = null_str parent;
        event_type = event_type;
        sequence = seq;
        started_at = started_at;
        completed_at = started_at + duration_ms;
        duration_ms = duration_ms;
        status = status;
        metadata = metadata;
      }))
  pure id
