-- ===== src/Trigger.antt =====
-- internal/trigger: the data of trigger.go, and what the engine keeps.
pub mod Engine
pub mod Wiring
pub mod Activation
pub mod Requests
pub mod Updating
pub mod Starting
pub mod History
pub mod Serving
mod Tests
use flagbase.Prelude.{ℕ, String, Bool, List, Option, none, some, ◌≡◌, eqb, if◌then◌else◌}

-- The event types of trigger.go; any text may stand in a row.
abbrev pub event_type_http : String
event_type_http = "http"

abbrev pub event_type_bucket_create : String
event_type_bucket_create = "bucket_create"

abbrev pub event_type_table_create : String
event_type_table_create = "table_create"

abbrev pub event_type_cron : String
event_type_cron = "cron"

-- encoding/json on configurations: `text_at` is `c[key].(string)`, empty where that fails;
-- `encode` and `decode` are Marshal and Unmarshal, and `empty` is the map without entries.
pub record Json : Type 1 where
  pub Config : Type 0
  pub empty : Config
  pub text_at : String → Config → String
  pub encode : Config → Option String
  pub decode : String → Option Config

-- A row of function_triggers.
pub record TriggerRow : Type 0 where
  pub id : String
  pub function_id : String
  pub event_type : String
  pub config : String
  pub enabled : ℕ
  pub created_at : ℕ
  pub updated_at : ℕ

pub record Trigger (C : Type 0) : Type 0 where
  pub id : String
  pub function_id : String
  pub event_type : String
  pub config : C
  pub enabled : Bool
  pub created_at : ℕ
  pub updated_at : ℕ

-- What the closure of a subscription or of a cron job holds.
pub record Handler : Type 0 where
  pub event_type : String
  pub trigger_id : String
  pub function_id : String

-- The connection to NATS, or the cron scheduler. `add` registers a handler for a subject or for a
-- schedule and gives its handle; `held` is what a handle stands for.
pub record Registry : Type 1 where
  pub State : Type 0
  pub add : String → Handler → State → Option (ℕ × State)
  pub remove : ℕ → State → State
  pub held : State → ℕ → Option (String × Handler)

-- A handle that `add` gives stands for the new handler; `remove` takes one handle back.
pub record IsRegistry (R : Registry) : Type 0 where
  pub add_held :
      (k : String) (h : Handler) (s t : R.State) (n m : ℕ)
      → R.add k h s ≡ some (n, t)
      → R.held t m ≡ (if eqb m n then some (k, h) else R.held s m)
  pub remove_held :
      (s : R.State) (n m : ℕ) → R.held (R.remove n s) m ≡ (if eqb m n then none else R.held s m)

-- The engine: its tables, its maps of handles, and what it has registered with. `functions` are
-- the identifiers in the table that function_triggers refers to.
pub record State (bus scheduler : Registry) : Type 0 where
  pub functions : List String
  pub function_triggers : List TriggerRow
  pub subs : List (String × ℕ)
  pub cron_ents : List (String × ℕ)
  pub broker : Option bus.State
  pub jobs : scheduler.State
  pub running : Bool
