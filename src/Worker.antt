-- ===== src/Worker.antt =====
-- internal/worker/worker.go: anomalies, over a pool of database connections.
pub mod Connections
mod Tests
use flagbase.Prelude.{
  ℕ, ◌+◌, ◌*◌, String, Bool, true, false, not, ◌&&◌, ◌||◌, List, [], ◌∷◌, ◌++◌, any, keep, map,
  length, ltb, leb, suc, Option, none, some, ◌==◌, if◌then◌else◌,
}
use flagbase.Db.{
  unique, Result, ok, err, Session, Op, pure, draw, zoom, modify, statement, execute, query, ignore,
  attempt, ◌>>=◌, ◌>>◌,
}
use flagbase.Ids.{encode_to_string}
use flagbase.Sorting.{Sorting}
use flagbase.Feature.{Flag}
use flagbase.Feature.Engine
use flagbase.Feature.Engine.{update_flag, get_flag}

-- Times are in seconds; the value of a metric plays no part here.
pub record Metric : Type 0 where
  pub flag_key : String
  pub variant : String
  pub event_type : String
  pub recorded_at : ℕ

pub record AnomalyEvent : Type 0 where
  pub id : String
  pub anomaly_type : String
  pub ref_id : String
  pub severity : String
  pub message : String
  pub detected_at : ℕ
  pub resolved_at : Option ℕ

-- `published` are the keys sent under flagbase.flag.disabled.
pub record World : Type 0 where
  pub metrics : List Metric
  pub anomaly_events : List AnomalyEvent
  pub engine : Engine.Engine
  pub published : List String

abbrev pub on_engine : {A : Type 0} → Op Engine.Engine A → Op World A
on_engine = zoom (λ w. w.engine) (λ e w. record w { engine = e })

-- An error that is recorded in the last five minutes.
abbrev pub is_recent_error : ℕ → Metric → Bool
is_recent_error now m = m.event_type == "error" && ltb now (m.recorded_at + 300)

-- The keys of a list, each once.
abbrev pub keys_of : List Metric → List String
keys_of [] = []
keys_of (m ∷ ms) =
    let rest = keys_of ms in if any (λ k. k == m.flag_key) rest then rest else m.flag_key ∷ rest

-- The flags with more than ten recent errors, and their numbers.
abbrev pub flagged : ℕ → World → List (String × ℕ)
flagged now w =
    let errors = keep (is_recent_error now) w.metrics in
    keep (λ r. ltb 10 r.1)
      (map (λ k. (k, length (keep (λ m. m.flag_key == k) errors))) (keys_of errors))

abbrev pub is_open : ℕ → String → String → AnomalyEvent → Bool
is_open now anomaly_type ref_id e =
    e.anomaly_type == anomaly_type
    && e.ref_id == ref_id
    && (elim e.resolved_at [ none ↦ true | some t ↦ false ])
    && ltb now (e.detected_at + 1800)

abbrev pub insert_anomaly : AnomalyEvent → World → Result (Unit {0} × World)
insert_anomaly e w =
    if any (λ f. f.id == e.id) w.anomaly_events
    then err unique
    else ok (tt, record w { anomaly_events = w.anomaly_events ++ e ∷ [] })

abbrev pub anomaly_text : Result (List ℕ) → Op World String
anomaly_text (ok b) = pure (encode_to_string b)
anomaly_text (err e) = pure "0000000000000000"

unfoldable pub new_anomaly_id : Op World String
unfolding encode_to_string
new_anomaly_id = attempt draw anomaly_text

-- Whether there is an open event; an error of the query counts as none.
abbrev pub exists_open : Result Bool → Bool
exists_open (ok b) = b
exists_open (err e) = false

abbrev pub record_new : ℕ → String → String → String → String → Result Bool → Op World (Unit {0})
record_new now anomaly_type ref_id severity message existing =
    if exists_open existing
    then pure tt
    else (new_anomaly_id >>= λ id. ignore (
        statement (
          insert_anomaly (record {
            id = id;
            anomaly_type = anomaly_type;
            ref_id = ref_id;
            severity = severity;
            message = message;
            detected_at = now;
            resolved_at = none;
          }))))

unfoldable pub record_anomaly : ℕ → String → String → String → String → Op World (Unit {0})
unfolding new_anomaly_id
record_anomaly now anomaly_type ref_id severity message =
    attempt (query (λ w. any (is_open now anomaly_type ref_id) w.anomaly_events))
      (record_new now anomaly_type ref_id severity message)

unfoldable pub record_metric : ℕ → String → String → String → Op World (Unit {0})
record_metric now flag_key variant event_type = execute (λ w. record w {
  metrics =
      w.metrics
      ++ record {
        flag_key = flag_key;
        variant = variant;
        event_type = event_type;
        recorded_at = now;
      }
        ∷ [];
})

-- A run with so many free connections: without one, a call waits, and nothing wakes it up: none.
abbrev pub pooled : ℕ → Op World (Unit {0}) → Session World → Option (Session World)
pooled Prim.Native.Nat.zero m s = none
pooled (suc n) m s = some (m s).1

abbrev pub and_then :
    Option (Session World) → (Session World → Option (Session World)) → Option (Session World)
and_then none f = none
and_then (some s) f = f s

abbrev pub published_if : String → Result (Unit {0}) → Op World (Unit {0})
published_if key (err e) = pure tt
published_if key (ok u) = modify (λ w. record w { published = w.published ++ key ∷ [] })

-- `message` is the text with a flag and the number of its errors.
module _ (order : Sorting) (message : String → ℕ → String) where
  -- The update of the flag, and the event if it returns; errors are logged.
  abbrev pub disable : ℕ → String → Flag → Op World (Unit {0})
  disable now key f =
      attempt (on_engine (update_flag order now (record f { enabled = false }))) (published_if key)

  abbrev pub disable_if : ℕ → ℕ → String → Option Flag → Session World → Option (Session World)
  disable_if free now key none s = some s
  disable_if free now key (some f) s =
      if f.enabled then pooled free (disable now key f) s else some s

  -- One pass of the loop over the rows, which hold a connection while they are open.
  abbrev pub flag_row : ℕ → ℕ → String × ℕ → Session World → Option (Session World)
  flag_row free now (key, cnt) s =
      and_then
        (pooled free (record_anomaly now "flag_error_rate" key "critical" (message key cnt)) s)
        (λ u. disable_if free now key (get_flag u.state.engine key) u)

  abbrev pub each_row : ℕ → ℕ → List (String × ℕ) → Session World → Option (Session World)
  each_row free now [] s = some s
  each_row free now (r ∷ rs) s = and_then (flag_row free now r s) (each_row free now rs)

  -- The order of the rows is the database's.
  abbrev pub rows : ℕ → World → List (String × ℕ)
  rows now w = order.sort (String × ℕ) (λ a b. true) (flagged now w)

  abbrev pub with_rows : ℕ → ℕ → Result (List (String × ℕ)) × Session World → Option (Session World)
  with_rows free now (err e, s) = some s
  with_rows free now (ok ks, s) = each_row free now ks s

  -- The number is that of the connections that the pool may open.
  unfoldable pub check_flag_anomalies : ℕ → ℕ → Session World → Option (Session World)
  unfolding record_anomaly
  check_flag_anomalies Prim.Native.Nat.zero now s = none
  check_flag_anomalies (suc free) now s = with_rows free now (query (rows now) s)
