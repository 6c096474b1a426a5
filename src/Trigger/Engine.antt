-- ===== src/Trigger/Engine.antt =====
-- internal/trigger/engine.go: triggers, and what is registered for them.
use flagbase.Prelude.{
  ℕ, String, Bool, true, false, not, ◌||◌, List, [], ◌∷◌, ◌++◌, map, first, any, keep, update_where,
  lookup, eqb, leb, Option, none, some, ◌==◌, if◌then◌else◌,
}
use Prim.Native.String.{◌++◌ as ◌<>◌}
use flagbase.Text.{codes}
use flagbase.Db.{
  unique, foreign_key, unsupported_event_type, unknown_event_type, not_http_trigger, no_subject,
  no_schedule, not_registered, not_encodable, trigger_not_found, trigger_disabled, Result, ok, err,
  Op, pure, raise, lift, require, modify, statement, execute, query, ◌>>=◌, ◌>>◌,
}
use flagbase.Ids.{new_id}
use flagbase.Sorting.{Sorting}
use flagbase.Trigger.{
  Json, TriggerRow, Trigger, Handler, Registry, State, event_type_http, event_type_bucket_create,
  event_type_table_create, event_type_cron,
}

-- A map from trigger identifiers to handles.
abbrev pub unassign : String → List (String × ℕ) → List (String × ℕ)
unassign id m = keep (λ p. not (p.0 == id)) m

abbrev pub assign : String → ℕ → List (String × ℕ) → List (String × ℕ)
assign id n m = (id, n) ∷ unassign id m

unfoldable pub validate_event_type : String → Result (Unit {0})
validate_event_type et =
    if et == event_type_http
      || et == event_type_bucket_create
      || et == event_type_table_create
      || et == event_type_cron
    then ok tt
    else err (unsupported_event_type et)

abbrev pub bool_to_int : Bool → ℕ
bool_to_int b = if b then 1 else 0

abbrev pub newest : TriggerRow → TriggerRow → Bool
newest t r = leb r.created_at t.created_at

module _ (json : Json) (bus scheduler : Registry) where
  abbrev Engine : Type 0
  Engine = State bus scheduler

  unfoldable pub nats_subject : Trigger json.Config → String
  nats_subject t =
      if t.event_type == event_type_bucket_create
      then if json.text_at "bucket" t.config == ""
        then ""
        else "flagbase.bucket." <> ((json.text_at "bucket" t.config) <> ".created")
      else if t.event_type == event_type_table_create
      then if json.text_at "table_key" t.config == ""
        then ""
        else "flagbase.table." <> ((json.text_at "table_key" t.config) <> ".created")
      else ""

  abbrev pub handler_of : Trigger json.Config → Handler
  handler_of t = record {
    event_type = t.event_type;
    trigger_id = t.id;
    function_id = t.function_id;
  }

  abbrev pub subscribe_with :
      Trigger json.Config → String → Option bus.State → Engine → Result Engine
  subscribe_with t subject none e = ok e
  subscribe_with t subject (some b) e =
      if subject == "" then err no_subject else elim (bus.add subject (handler_of t) b) [
        | none ↦ err not_registered
        | some (sub, c) ↦ ok (record e { broker = some c; subs = assign t.id sub e.subs })
      ]

  unfoldable pub subscribe : Trigger json.Config → Engine → Result Engine
  unfolding nats_subject
  subscribe t e = subscribe_with t (nats_subject t) e.broker e

  unfoldable pub schedule_cron : Trigger json.Config → Engine → Result Engine
  schedule_cron t e =
      if json.text_at "schedule" t.config == ""
      then err no_schedule
      else elim (scheduler.add (json.text_at "schedule" t.config) (handler_of t) e.jobs) [
        | none ↦ err not_registered
        | some (ent, c) ↦ ok (record e { jobs = c; cron_ents = assign t.id ent e.cron_ents })
      ]

  unfoldable pub activate : Trigger json.Config → Engine → Result Engine
  unfolding subscribe schedule_cron
  activate t e =
      if t.event_type == event_type_bucket_create || t.event_type == event_type_table_create
      then subscribe t e
      else if t.event_type == event_type_cron
      then schedule_cron t e
      else if t.event_type == event_type_http
      then ok e
      else err (unknown_event_type t.event_type)

  -- An error that is dropped leaves the engine as it was.
  abbrev pub left : Engine → Result Engine → Engine
  left e (err x) = e
  left e (ok f) = f

  -- `_ = e.activate(t)`
  abbrev pub activated : Trigger json.Config → Engine → Engine
  activated t e = left e (activate t e)

  abbrev pub unsubscribed : String → Option ℕ → Engine → Engine
  unsubscribed id none e = e
  unsubscribed id (some sub) e = record e {
    broker = elim e.broker [ none ↦ none | some b ↦ some (bus.remove sub b) ];
    subs = unassign id e.subs;
  }

  abbrev pub unscheduled : String → Option ℕ → Engine → Engine
  unscheduled id none e = e
  unscheduled id (some ent) e = record e {
    jobs = scheduler.remove ent e.jobs;
    cron_ents = unassign id e.cron_ents;
  }

  unfoldable pub deactivate : String → Engine → Engine
  deactivate id e =
      let f = unsubscribed id (lookup id e.subs) e in unscheduled id (lookup id f.cron_ents) f

  -- The Trigger that a row is read into.
  abbrev pub trigger_of : TriggerRow → Trigger json.Config
  trigger_of r = record {
    id = r.id;
    function_id = r.function_id;
    event_type = r.event_type;
    config = elim (json.decode r.config) [ none ↦ json.empty | some c ↦ c ];
    enabled = not (eqb r.enabled 0);
    created_at = r.created_at;
    updated_at = r.updated_at;
  }

  unfoldable pub list : Sorting → Op Engine (List (Trigger json.Config))
  list order = query (λ e. map trigger_of (order.sort TriggerRow newest e.function_triggers))

  unfoldable pub list_by_function : Sorting → String → Op Engine (List (Trigger json.Config))
  list_by_function order function_id = query (λ e.
      map trigger_of (
        order.sort TriggerRow newest
          (keep (λ r. r.function_id == function_id) e.function_triggers)))

  abbrev pub trigger_with : String → Engine → Option (Trigger json.Config)
  trigger_with id e = elim (first (λ r. r.id == id) e.function_triggers) [
    | none ↦ none
    | some r ↦ some (trigger_of r)
  ]

  unfoldable pub get : String → Op Engine (Option (Trigger json.Config))
  get id = query (trigger_with id)

  abbrev pub insert_trigger : TriggerRow → Engine → Result (Unit {0} × Engine)
  insert_trigger r e =
      if any (λ q. q.id == r.id) e.function_triggers
      then err unique
      else if not (any (λ f. f == r.function_id) e.functions)
      then err foreign_key
      else ok (tt, record e { function_triggers = e.function_triggers ++ r ∷ [] })

  abbrev pub encoded : json.Config → Result String
  encoded config = elim (json.encode config) [ none ↦ err not_encodable | some s ↦ ok s ]

  -- `if enabled { _ = e.activate(t) }`
  abbrev pub activate_if : Bool → Trigger json.Config → Op Engine (Unit {0})
  activate_if true t = modify (activated t)
  activate_if false t = pure tt

  unfoldable pub create : ℕ → String → String → json.Config → Bool → Op Engine (Trigger json.Config)
  unfolding validate_event_type new_id activate
  create now function_id event_type config enabled = do
    lift (validate_event_type event_type)
    id ← new_id
    config_json ← lift (encoded config)
    statement (
        insert_trigger (record {
          id = id;
          function_id = function_id;
          event_type = event_type;
          config = config_json;
          enabled = bool_to_int enabled;
          created_at = now;
          updated_at = now;
        }))
    let t : Trigger json.Config = record {
      id = id;
      function_id = function_id;
      event_type = event_type;
      config = config;
      enabled = enabled;
      created_at = now;
      updated_at = now;
    }
    activate_if enabled t
    pure t

  abbrev pub reactivate :
      String → Bool → Option (Trigger json.Config) → Op Engine (Option (Trigger json.Config))
  reactivate id enabled none = pure none
  reactivate id enabled (some t) = do modify (deactivate id); activate_if enabled t; pure (some t)

  abbrev pub update_row : ℕ → String → Bool → String → Engine → Engine
  update_row now id enabled config_json e = record e {
    function_triggers =
        update_where (λ r. r.id == id)
          (λ r. record r { enabled = bool_to_int enabled; config = config_json; updated_at = now })
          e.function_triggers;
  }

  unfoldable pub update : ℕ → String → Bool → json.Config → Op Engine (Option (Trigger json.Config))
  unfolding get deactivate activate
  update now id enabled config = do
    config_json ← lift (encoded config)
    execute (update_row now id enabled config_json)
    t ← get id
    reactivate id enabled t

  abbrev pub delete_row : String → Engine → Engine
  delete_row id e = record e {
    function_triggers = keep (λ r. not (r.id == id)) e.function_triggers;
  }

  unfoldable pub delete : String → Op Engine (Unit {0})
  unfolding deactivate
  delete id = do modify (deactivate id); execute (delete_row id)

  abbrev pub activate_enabled : List (Trigger json.Config) → Engine → Engine
  activate_enabled [] e = e
  activate_enabled (t ∷ ts) e = activate_enabled ts (if not t.enabled then e else activated t e)

  unfoldable pub start : Sorting → Op Engine (Unit {0})
  unfolding list activate
  start order = do
    triggers ← list order
    modify (λ e. record (activate_enabled triggers e) { running = true })

  abbrev pub unsubscribe_all : List (String × ℕ) → Option bus.State → Option bus.State
  unsubscribe_all [] b = b
  unsubscribe_all ((id, sub) ∷ subs) b =
      unsubscribe_all subs (elim b [ none ↦ none | some c ↦ some (bus.remove sub c) ])

  -- The entries of the scheduler stay in it.
  unfoldable pub stop : Engine → Engine
  stop e = record e {
    broker = unsubscribe_all e.subs e.broker;
    subs = [];
    cron_ents = [];
    running = false;
  }

  -- `invoke` is InvokeWithEvent of the function store, and `payload` the JSON of an event.
  module _ (invoke : String → List ℕ → Op Engine (List ℕ))
      (payload : String → String → ℕ → List ℕ → List ℕ) where
    abbrev pub serve_trigger :
        ℕ → String → List ℕ → Option (Trigger json.Config) → Op Engine (List ℕ)
    serve_trigger now id event_data none = raise trigger_not_found
    serve_trigger now id event_data (some t) = do
      require t.enabled trigger_disabled
      require (t.event_type == event_type_http) (not_http_trigger t.event_type)
      invoke t.function_id (payload event_type_http id now event_data)

    -- `event_data` is none for nil.
    unfoldable pub serve_http_trigger : ℕ → String → Option (List ℕ) → Op Engine (List ℕ)
    unfolding get
    serve_http_trigger now id event_data = do
      t ← get id
      serve_trigger now id (elim event_data [ none ↦ codes "{}" | some d ↦ d ]) t
