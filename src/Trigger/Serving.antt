-- ===== src/Trigger/Serving.antt =====
-- internal/trigger/engine.go, ServeHTTPTrigger: which functions a request runs.
use flagbase.Prelude.{
  ℕ, String, Bool, true, false, ◌≡◌, refl, sym, ap, ◌⊎◌, inl, inr, List, [], ◌∷◌, arith, eq_iff,
  ◌==◌, Option, none, some, subst,
}
use flagbase.Db.{
  Error, driver, trigger_not_found, trigger_disabled, not_http_trigger, Result, err, Session, Op,
  after, require, ◌>>◌, ◌>>=◌, ◌>>=◌,
}
use flagbase.Text.{codes}
use flagbase.Db.Running.{query_cases}
use flagbase.Trigger.{Json, Trigger, Registry, State, event_type_http}
use flagbase.Trigger.Engine.{trigger_with, get, serve_trigger, serve_http_trigger}

module _ (json : Json) (bus scheduler : Registry) where
  abbrev Engine : Type 0
  Engine = State bus scheduler

  module _ (invoke : String → List ℕ → Op Engine (List ℕ))
      (payload : String → String → ℕ → List ℕ → List ℕ) where
    -- The function of an enabled HTTP trigger has been invoked, once, with the event.
    pub record Invoked (now : ℕ) (id : String) (event_data : List ℕ) (s : Session Engine)
        (r : Result (List ℕ) × Session Engine) : Type 0 where
      pub trigger : Trigger json.Config
      pub left : Session Engine
      pub same : left.state ≡ s.state
      pub found : trigger_with json bus scheduler id s.state ≡ some trigger
      pub enabled : trigger.enabled ≡ true
      pub http : trigger.event_type ≡ event_type_http
      pub run : r ≡ invoke trigger.function_id (payload event_type_http id now event_data) left

    -- The request has been turned down, with nothing changed.
    abbrev pub Refused : Session Engine → Result (List ℕ) × Session Engine → Type 0
    Refused s r = (e : Error) × (r.0 ≡ err e) × (r.1.state ≡ s.state)

    served :
        (now : ℕ) (id : String) (event_data : List ℕ) (s s' : Session Engine)
        → s'.state ≡ s.state
        → (o : Option (Trigger json.Config)) → trigger_with json bus scheduler id s.state ≡ o
        → (let r = serve_trigger json bus scheduler invoke payload now id event_data o s' in
            Refused s r ⊎ Invoked now id event_data s r)
    served now id event_data s s' q none h = inl (trigger_not_found, refl, q)
    served now id event_data s s' q (some t) h =
        go t.enabled (t.event_type == event_type_http) refl refl
      where
        go :
            (x y : Bool)
            → t.enabled ≡ x
            → (t.event_type == event_type_http) ≡ y
            → (let m : Op Engine (List ℕ) =
                  require x trigger_disabled
                  >> (require y (not_http_trigger t.event_type)
                      >> invoke t.function_id (payload event_type_http id now event_data)) in
                Refused s (m s') ⊎ Invoked now id event_data s (m s'))
        go false y a b = inl (trigger_disabled, refl, q)
        go true false a b = inl (not_http_trigger t.event_type, refl, q)
        go true true a b = inr (record {
          trigger = t;
          left = s';
          same = q;
          found = h;
          enabled = a;
          http = ground (arith, eq_iff t.event_type event_type_http);
          run = refl;
        })

    with_data :
        (now : ℕ) (id : String) (event_data : List ℕ) (s : Session Engine)
        → (let r =
              (get json bus scheduler id
                  >>= serve_trigger json bus scheduler invoke payload now id event_data)
                s in
            Refused s r ⊎ Invoked now id event_data s r)
    unfolding get
    with_data now id event_data s = elim (query_cases (trigger_with json bus scheduler id) s) [
      | inl (left, e, q) ↦ subst Decided (sym (ap (after rest) e)) (inl (driver, refl, q))
      | inr (left, e, q) ↦
          subst Decided (sym (ap (after rest) e)) (served now id event_data s left q _ refl)
    ]
      where
        rest : Option (Trigger json.Config) → Op Engine (List ℕ)
        rest = serve_trigger json bus scheduler invoke payload now id event_data

        Decided : Result (List ℕ) × Session Engine → Type 0
        Decided r = Refused s r ⊎ Invoked now id event_data s r

    -- The data of an event: that of a request without a body is `{}`.
    abbrev pub data_of : Option (List ℕ) → List ℕ
    data_of none = b'{' ∷ b'}' ∷ []
    data_of (some d) = d

    -- A request to a trigger, with data or without, is turned down, and changes nothing, or the
    -- trigger is in the table, enabled and of type http, and its function is invoked once, with the
    -- event of the data, which is `{}` for a request without.
    pub serve_http_trigger-Invoked :
        (now : ℕ) (id : String) (event_data : Option (List ℕ)) (s : Session Engine)
        → (let r = serve_http_trigger json bus scheduler invoke payload now id event_data s in
            Refused s r ⊎ Invoked now id (data_of event_data) s r)
    unfolding serve_http_trigger
    serve_http_trigger-Invoked now id none s = with_data now id (codes "{}") s
    serve_http_trigger-Invoked now id (some d) s = with_data now id d s
