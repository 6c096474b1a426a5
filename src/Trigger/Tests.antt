-- ===== src/Trigger/Tests.antt =====
-- Runs of internal/trigger/engine.go at small inputs, with a registry that is a list.
use flagbase.Prelude.{
  ℕ, ◌+◌, String, true, false, ◌≡◌, ◌⊎◌, refl, List, [], ◌∷◌, any, eqb, arith, ◌==◌, subst, ap,
  Option, none, some, if◌then◌else◌,
}
use flagbase.Text.{codes}
use flagbase.Db.{Session, ok, err, Op, pure, trigger_not_found, statement, draw, ◌>>◌}
use flagbase.Db.Ensures.{Ensures, on_ok}
use flagbase.Ids.{new_id, encode_to_string}
use flagbase.Trigger.{Json, TriggerRow, Trigger, Handler, Registry, IsRegistry, State}
use flagbase.Trigger.Engine.{
  validate_event_type, nats_subject, subscribe, schedule_cron, activate, deactivate, get, create,
  update, delete, serve_http_trigger, start as begin, list,
}
use flagbase.Trigger.Activation.{IsWired, IsInactive}
use flagbase.Trigger.Requests.{Applied, create-Applied, delete-IsInactive}
use flagbase.Trigger.Starting.{IsFresh}
use flagbase.Trigger.History.{Request, creates, deletes, perform_all, perform_all-IsWired}
use flagbase.Sorting.Insertion.{insertion}
use flagbase.Trigger.Serving.{Invoked, Refused, serve_http_trigger-Invoked}

-- The next handle, and the handlers by their handles.
pub record Board : Type 0 where
  pub next : ℕ
  pub handlers : List (ℕ × (String × Handler))

abbrev at_handle : ℕ → List (ℕ × (String × Handler)) → Option (String × Handler)
at_handle m [] = none
at_handle m ((n, v) ∷ l) = if eqb m n then some v else at_handle m l

abbrev without : ℕ → List (ℕ × (String × Handler)) → List (ℕ × (String × Handler))
without n [] = []
without n ((m, v) ∷ l) = let rest = without n l in if eqb m n then rest else (m, v) ∷ rest

abbrev board : Registry
board = record {
  State = Board;
  add = λ k h s.
      some (s.next, record { next = s.next + 1; handlers = (s.next, (k, h)) ∷ s.handlers });
  remove = λ n s. record s { handlers = without n s.handlers };
  held = λ s m. at_handle m s.handlers;
}

at_handle-without :
    (n m : ℕ) (l : List (ℕ × (String × Handler)))
    → at_handle m (without n l) ≡ (if eqb m n then none else at_handle m l)
at_handle-without n m [] = ground arith
at_handle-without n m ((j, v) ∷ l) = ground (arith, at_handle-without n m l)

board-IsRegistry : IsRegistry board
board-IsRegistry = record {
  add_held = λ k h s t n m e. added k h s t n m e;
  remove_held = λ s n m. at_handle-without n m s.handlers;
}
  where
    added :
        (k : String) (h : Handler) (s t : Board) (n m : ℕ)
        → board.add k h s ≡ some (n, t)
        → board.held t m ≡ (if eqb m n then some (k, h) else board.held s m)
    added k h s t n m e =
        let one : s.next ≡ n = cc in
        let two : record { next = s.next + 1; handlers = (s.next, (k, h)) ∷ s.handlers } ≡ t = cc in
        subst
          (λ (x : Board).
            at_handle m x.handlers ≡ (if eqb m n then some (k, h) else at_handle m s.handlers))
          two (ap (λ i. if eqb m i then some (k, h) else at_handle m s.handlers) one)

-- Configurations with one text.
abbrev json : Json
json = record {
  Config = String × String;
  empty = ("", "");
  text_at = λ k c. if c.0 == k then c.1 else "";
  encode = λ c. some c.1;
  decode = λ s. some ("bucket", s);
}

abbrev Engine : Type 0
Engine = State board board

abbrev blank : Board
blank = record { next = 0; handlers = [] }

abbrev start : Engine
start = record {
  functions = "f" ∷ [];
  function_triggers = [];
  subs = [];
  cron_ents = [];
  broker = some blank;
  jobs = blank;
  running = true;
}

abbrev session : Session Engine
session = record { state = start; faults = []; draws = some (1 ∷ []) ∷ [] }

-- What a run looks into.
running : Unit {0}
unfolding create update delete serve_http_trigger activate deactivate subscribe schedule_cron
    nats_subject get validate_event_type new_id draw statement encode_to_string
running = tt

abbrev created : Session Engine
created = (create json board board 5 "f" "bucket_create" ("bucket", "pics") true session).1

subscribed : created.state.subs ≡ ("01", 0) ∷ []
unfolding running
subscribed = refl

listens :
    created.state.broker
    ≡ some (record {
      next = 1;
      handlers =
          (
            0,
            (
              "flagbase.bucket.pics.created",
              record { event_type = "bucket_create"; trigger_id = "01"; function_id = "f" },
            ),
          )
          ∷ [];
    })
unfolding running
listens = refl

gone :
    (delete json board board "01" created).1.state.broker
    ≡ some (record { next = 1; handlers = [] })
unfolding running
gone = refl

-- A function store that answers with the name of the function.
abbrev invoke : String → List ℕ → Op Engine (List ℕ)
invoke f d = pure (codes f)

abbrev payload : String → String → ℕ → List ℕ → List ℕ
payload et id now d = d

unknown :
    (serve_http_trigger json board board invoke payload 5 "02" none created).0
    ≡ err trigger_not_found
unfolding running
unknown = refl

start-IsWired : IsWired json board board start
start-IsWired = record {
  subs_tidy = λ n k h e. cc;
  crons_tidy = λ n k h e. cc;
  subs_known = λ x e. refl;
  crons_known = λ x e. refl;
}

abbrev trigger : Trigger (String × String)
trigger = record {
  id = "01";
  function_id = "f";
  event_type = "bucket_create";
  config = ("bucket", "pics");
  enabled = true;
  created_at = 5;
  updated_at = 5;
}

done :
    create json board board 5 "f" "bucket_create" ("bucket", "pics") true session
    ≡ (ok trigger, created)
unfolding running
done = refl

created-IsWired : IsWired json board board created.state
created-IsWired =
    (on_ok session created
      (create-Applied json board board board-IsRegistry board-IsRegistry 5 "f" "bucket_create"
        ("bucket", "pics") true start start-IsWired)
      done).0

create-Applied_example :
    Ensures start
      (create json board board 5 "f" "bucket_create" ("bucket", "pics") true)
      (λ t u. Applied json board board board-IsRegistry board-IsRegistry true t u)
      (λ _ u. IsWired json board board u)
create-Applied_example =
    create-Applied json board board board-IsRegistry board-IsRegistry 5 "f" "bucket_create"
      ("bucket", "pics") true start start-IsWired

delete-IsInactive_example :
    Ensures created.state
      (delete json board board "01")
      (λ _ u.
        IsWired json board board u
        × IsInactive json board board "01" u
        × (any (λ r. r.id == "01") u.function_triggers ≡ false))
      (λ _ u. IsWired json board board u × IsInactive json board board "01" u)
delete-IsInactive_example =
    delete-IsInactive json board board board-IsRegistry board-IsRegistry "01" created.state
      created-IsWired

abbrev history : List (Request json board board board-IsRegistry board-IsRegistry)
history = creates 5 "f" "cron" ("schedule", "@daily") true ∷ deletes "01" ∷ []

-- A trigger that is in the table before the engine starts.
abbrev row : TriggerRow
row = record {
  id = "02";
  function_id = "f";
  event_type = "bucket_create";
  config = "pics";
  enabled = 1;
  created_at = 1;
  updated_at = 1;
}

abbrev fresh : Engine
fresh = record start { function_triggers = row ∷ []; running = false }

started_up :
    (begin json board board insertion
      (record { state = fresh; faults = []; draws = [] })).1.state.subs
    ≡ ("02", 0) ∷ []
unfolding running begin list insertion
started_up = refl

fresh-IsFresh : IsFresh json board board fresh
fresh-IsFresh = record {
  no_subs = refl;
  no_crons = refl;
  no_bus = λ n. refl;
  no_job = λ n. refl;
  once = λ x. ground arith;
}

perform_all-IsWired_example :
    Ensures fresh
      (begin json board board insertion
        >> perform_all json board board board-IsRegistry board-IsRegistry history)
      (λ _ u. IsWired json board board u)
      (λ _ u. IsWired json board board u)
perform_all-IsWired_example =
    perform_all-IsWired json board board board-IsRegistry board-IsRegistry insertion history fresh
      fresh-IsFresh

serve_http_trigger-Invoked_example :
    (let r = serve_http_trigger json board board invoke payload 5 "02" none created in
      Refused json board board invoke payload created r
      ⊎ Invoked json board board invoke payload 5 "02" (codes "{}") created r)
serve_http_trigger-Invoked_example =
    serve_http_trigger-Invoked json board board invoke payload 5 "02" none created
