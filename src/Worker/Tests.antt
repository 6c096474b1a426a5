-- ===== src/Worker/Tests.antt =====
-- Runs of internal/worker/worker.go at small inputs.
use flagbase.Prelude.{ℕ, String, ◌≡◌, ◌≢◌, ◌↔◌, ◌⊎◌, refl, List, [], ◌∷◌, none, some}
use flagbase.Db.{Session, statement}
use flagbase.Sorting.Insertion.{insertion}
use flagbase.Worker.{Metric, World, record_metric, record_anomaly, rows, check_flag_anomalies}
use flagbase.Worker.Connections.{Ends, check_flag_anomalies-Ends}

abbrev failure : Metric
failure = record { flag_key = "k"; variant = "true"; event_type = "error"; recorded_at = 100 }

abbrev ten : List Metric
ten =
    failure ∷ failure ∷ failure ∷ failure ∷ failure ∷ failure ∷ failure ∷ failure ∷ failure
    ∷ failure ∷ []

abbrev session : List Metric → Session World
session metrics = record {
  state = record {
    metrics = metrics;
    anomaly_events = [];
    engine = record {
      db = record { feature_flags = []; flag_rules = []; flag_variants = []; flag_overrides = [] };
      flags = [];
    };
    published = [];
  };
  faults = [];
  draws = [];
}

abbrev text : String → ℕ → String
text key n = key

-- What a run looks into.
running : Unit {0}
unfolding check_flag_anomalies record_metric record_anomaly statement insertion
running = tt

abbrev eleven : Session World
eleven = (record_metric 100 "k" "true" "error" (session ten)).1

quiet : check_flag_anomalies insertion text 1 200 (session ten) ≡ some (session ten)
unfolding running
quiet = refl

waits : check_flag_anomalies insertion text 1 200 eleven ≡ none
unfolding running
waits = refl

one_row : rows insertion text 200 eleven.state ≡ ("k", 11) ∷ []
unfolding running
one_row = refl

check_flag_anomalies-Ends_example :
    Ends (check_flag_anomalies insertion text 1 200 eleven)
    ↔ ((◌≢◌ {A = ℕ} 0 0) ⊎ (rows insertion text 200 eleven.state ≡ []))
unfolding running
check_flag_anomalies-Ends_example = check_flag_anomalies-Ends insertion text 0 200 eleven refl
