-- ===== src/Trigger/Activation.antt =====
-- internal/trigger/engine.go, activate and deactivate: what they do to the registered handlers.
use flagbase.Prelude.{
  ℕ, String, true, false, ◌||◌, ◌≡◌, ◌≢◌, refl, ap, ◌∙◌, inl, inr, List, any, lookup, arith, eq_iff,
  ◌==◌, Option, none, some, Bool-cases, subst,
}
use flagbase.Db.{Result, ok, err, not_registered}
use flagbase.Trigger.{
  Json, Trigger, Handler, Registry, IsRegistry, State, event_type_http, event_type_bucket_create,
  event_type_table_create, event_type_cron,
}
use flagbase.Trigger.Engine.{
  unassign, assign, nats_subject, handler_of, subscribe_with, subscribe, schedule_cron, activate,
  left, activated, unsubscribed, unscheduled, deactivate,
}
use flagbase.Trigger.Wiring.{
  lookup-unassign, optional, optional-IsRegistry, IsTidy, IsSilent, IsTidy-IsSilent, add-IsTidy,
  remove-IsTidy, add-only,
}

module _ (json : Json) (bus scheduler : Registry) where
  abbrev Engine : Type 0
  Engine = State bus scheduler

  -- A trigger without a row has no handle.
  abbrev pub IsKnown : List (String × ℕ) → Engine → Type 0
  IsKnown m e = (x : String) → any (λ r. r.id == x) e.function_triggers ≡ false → lookup x m ≡ none

  -- Each handler that is registered is the one of a trigger in the table.
  pub record IsWired (e : Engine) : Type 0 where
    pub subs_tidy : IsTidy (optional bus) e.subs e.broker
    pub crons_tidy : IsTidy scheduler e.cron_ents e.jobs
    pub subs_known : IsKnown e.subs e
    pub crons_known : IsKnown e.cron_ents e

  -- Neither the bus nor the scheduler has a handler for the trigger.
  abbrev pub IsInactive : String → Engine → Type 0
  IsInactive id e = IsSilent (optional bus) id e.broker × IsSilent scheduler id e.jobs

  unassign-none : (id : String) (m : List (String × ℕ)) → lookup id (unassign id m) ≡ none
  unassign-none id m =
      lookup-unassign id id m
      ∙ (let own : (id == id) ≡ true = ground (arith, eq_iff id id) in rw own refl)

  unassign-IsKnown :
      (id : String) (m : List (String × ℕ)) (e : Engine) → IsKnown m e → IsKnown (unassign id m) e
  unassign-IsKnown id m e k x h = ground (arith, lookup-unassign id x m, k x h)

  lookup-assign :
      (id x : String) (n : ℕ) (m : List (String × ℕ))
      → id ≢ x
      → lookup x (assign id n m) ≡ lookup x m
  lookup-assign id x n m other = ground (arith, lookup-unassign id x m, eq_iff id x, eq_iff x id)

  -- The row of the trigger is there.
  abbrev pub Present : String → Engine → Type 0
  Present id e = any (λ r. r.id == id) e.function_triggers ≡ true

  assign-IsKnown :
      (id : String) (n : ℕ) (m : List (String × ℕ)) (e : Engine)
      → Present id e
      → IsKnown m e
      → IsKnown (assign id n m) e
  assign-IsKnown id n m e p k x h =
      let other : id ≢ x = λ same.
        let now : any (λ r. r.id == x) e.function_triggers ≡ true =
          subst (λ i. any (λ r. r.id == i) e.function_triggers ≡ true) same p in
        cc in
      ground (arith, lookup-unassign id x m, k x h, eq_iff id x)

  -- What holds after a trigger has been deactivated.
  pub record Deactivated (id : String) (e f : Engine) : Type 0 where
    pub wired : IsWired f
    pub no_sub : lookup id f.subs ≡ none
    pub no_cron : lookup id f.cron_ents ≡ none
    pub rows : f.function_triggers ≡ e.function_triggers

  -- A trigger that has a row and no handle yet.
  pub record IsIdle (id : String) (e : Engine) : Type 0 where
    pub present : Present id e
    pub no_sub : lookup id e.subs ≡ none
    pub no_cron : lookup id e.cron_ents ≡ none

  -- The handlers of a trigger listen where its configuration says, and are its own.
  pub record Listens (t : Trigger json.Config) (f : Engine) : Type 0 where
    pub on_bus :
        (n : ℕ) (k : String) (h : Handler)
        → (optional bus).held f.broker n ≡ some (k, h)
        → h.trigger_id ≡ t.id
        → (k ≡ nats_subject json bus scheduler t) × (h ≡ handler_of json bus scheduler t)
    pub on_schedule :
        (n : ℕ) (k : String) (h : Handler)
        → scheduler.held f.jobs n ≡ some (k, h)
        → h.trigger_id ≡ t.id
        → (k ≡ json.text_at "schedule" t.config) × (h ≡ handler_of json bus scheduler t)

  pub record Activated (t : Trigger json.Config) (e f : Engine) : Type 0 where
    pub wired : IsWired f
    pub listens : Listens t f
    pub rows : f.function_triggers ≡ e.function_triggers
    pub others :
        (x : String)
        → t.id ≢ x
        → (lookup x f.subs ≡ lookup x e.subs) × (lookup x f.cron_ents ≡ lookup x e.cron_ents)

  module _ (bus_law : IsRegistry bus) (scheduler_law : IsRegistry scheduler) where
    unsubscribed-IsWired :
        (id : String) (o : Option ℕ) (e : Engine)
        → lookup id e.subs ≡ o
        → IsWired e
        → IsWired (unsubscribed json bus scheduler id o e)
          × (lookup id (unsubscribed json bus scheduler id o e).subs ≡ none)
    unsubscribed-IsWired id none e h w = (w, h)
    unsubscribed-IsWired id (some n) e h w = (
      record {
        subs_tidy =
            remove-IsTidy (optional bus) (optional-IsRegistry bus bus_law) id e.subs e.broker n h
              w.subs_tidy;
        crons_tidy = w.crons_tidy;
        subs_known = unassign-IsKnown id e.subs e w.subs_known;
        crons_known = w.crons_known;
      },
      unassign-none id e.subs,
    )

    unscheduled-IsWired :
        (id : String) (o : Option ℕ) (e : Engine)
        → lookup id e.cron_ents ≡ o
        → IsWired e
        → IsWired (unscheduled json bus scheduler id o e)
          × (lookup id (unscheduled json bus scheduler id o e).cron_ents ≡ none)
    unscheduled-IsWired id none e h w = (w, h)
    unscheduled-IsWired id (some n) e h w = (
      record {
        subs_tidy = w.subs_tidy;
        crons_tidy = remove-IsTidy scheduler scheduler_law id e.cron_ents e.jobs n h w.crons_tidy;
        subs_known = w.subs_known;
        crons_known = unassign-IsKnown id e.cron_ents e w.crons_known;
      },
      unassign-none id e.cron_ents,
    )

    unscheduled-rest :
        (id : String) (o : Option ℕ) (e : Engine)
        → ((unscheduled json bus scheduler id o e).subs ≡ e.subs)
          × ((unscheduled json bus scheduler id o e).function_triggers ≡ e.function_triggers)
    unscheduled-rest id none e = (refl, refl)
    unscheduled-rest id (some n) e = (refl, refl)

    unsubscribed-rows :
        (id : String) (o : Option ℕ) (e : Engine)
        → (unsubscribed json bus scheduler id o e).function_triggers ≡ e.function_triggers
    unsubscribed-rows id none e = refl
    unsubscribed-rows id (some n) e = refl

    pub deactivate-Deactivated :
        (id : String) (e : Engine)
        → IsWired e
        → Deactivated id e (deactivate json bus scheduler id e)
    unfolding deactivate
    deactivate-Deactivated id e w =
        let f = unsubscribed json bus scheduler id (lookup id e.subs) e in
        let s = unsubscribed-IsWired id (lookup id e.subs) e refl w in
        let c = unscheduled-IsWired id (lookup id f.cron_ents) f refl s.0 in
        let r = unscheduled-rest id (lookup id f.cron_ents) f in
        record {
          wired = c.0;
          no_sub = ap (lookup id) r.0 ∙ s.1;
          no_cron = c.1;
          rows = r.1 ∙ unsubscribed-rows id (lookup id e.subs) e;
        }

    pub Deactivated-IsInactive : (id : String) (e f : Engine) → Deactivated id e f → IsInactive id f
    Deactivated-IsInactive id e f d = (
      IsTidy-IsSilent (optional bus) id f.subs f.broker d.wired.subs_tidy d.no_sub,
      IsTidy-IsSilent scheduler id f.cron_ents f.jobs d.wired.crons_tidy d.no_cron,
    )

    pub broker-IsSilent :
        (id : String) (e : Engine) → IsWired e → IsIdle id e → IsSilent (optional bus) id e.broker
    broker-IsSilent id e w i =
        IsTidy-IsSilent (optional bus) id e.subs e.broker w.subs_tidy i.no_sub

    pub jobs-IsSilent :
        (id : String) (e : Engine) → IsWired e → IsIdle id e → IsSilent scheduler id e.jobs
    jobs-IsSilent id e w i = IsTidy-IsSilent scheduler id e.cron_ents e.jobs w.crons_tidy i.no_cron

    pub idle-Activated :
        (t : Trigger json.Config) (e : Engine) → IsWired e → IsIdle t.id e → Activated t e e
    idle-Activated t e w i = record {
      wired = w;
      listens = record {
        on_bus = λ n k h q s. absurd (broker-IsSilent t.id e w i n k h q s);
        on_schedule = λ n k h q s. absurd (jobs-IsSilent t.id e w i n k h q s);
      };
      rows = refl;
      others = λ x n. (refl, refl);
    }

    subscribed-Activated :
        (t : Trigger json.Config) (e : Engine) (b c : bus.State) (sub : ℕ)
        → IsWired e
        → IsIdle t.id e
        → e.broker ≡ some b
        → bus.add (nats_subject json bus scheduler t) (handler_of json bus scheduler t) b
          ≡ some (sub, c)
        → Activated t e (record e { broker = some c; subs = assign t.id sub e.subs })
    subscribed-Activated t e b c sub w i q a =
        let O = optional bus in
        let law = optional-IsRegistry bus bus_law in
        let k = nats_subject json bus scheduler t in
        let h = handler_of json bus scheduler t in
        let with_bus : O.add k h e.broker ≡ some (sub, some c) = rw q (rw a refl) in
        record {
          wired = record {
            subs_tidy =
                add-IsTidy O law k h e.subs e.broker (some c) sub with_bus w.subs_tidy i.no_sub;
            crons_tidy = w.crons_tidy;
            subs_known = assign-IsKnown t.id sub e.subs e i.present w.subs_known;
            crons_known = w.crons_known;
          };
          listens = record {
            on_bus = add-only O law k h e.broker (some c) sub with_bus (broker-IsSilent t.id e w i);
            on_schedule = λ n l g q s. absurd (jobs-IsSilent t.id e w i n l g q s);
          };
          rows = refl;
          others = λ x n. (lookup-assign t.id x sub e.subs n, refl);
        }

    scheduled-Activated :
        (t : Trigger json.Config) (e : Engine) (c : scheduler.State) (ent : ℕ)
        → IsWired e
        → IsIdle t.id e
        → scheduler.add (json.text_at "schedule" t.config) (handler_of json bus scheduler t) e.jobs
          ≡ some (ent, c)
        → Activated t e (record e { jobs = c; cron_ents = assign t.id ent e.cron_ents })
    scheduled-Activated t e c ent w i a =
        let k = json.text_at "schedule" t.config in
        let h = handler_of json bus scheduler t in
        record {
          wired = record {
            subs_tidy = w.subs_tidy;
            crons_tidy =
                add-IsTidy scheduler scheduler_law k h e.cron_ents e.jobs c ent a w.crons_tidy
                  i.no_cron;
            subs_known = w.subs_known;
            crons_known = assign-IsKnown t.id ent e.cron_ents e i.present w.crons_known;
          };
          listens = record {
            on_bus = λ n l g q s. absurd (broker-IsSilent t.id e w i n l g q s);
            on_schedule =
                add-only scheduler scheduler_law k h e.jobs c ent a (jobs-IsSilent t.id e w i);
          };
          rows = refl;
          others = λ x n. (refl, lookup-assign t.id x ent e.cron_ents n);
        }

    subscribe-Activated :
        (t : Trigger json.Config) (e : Engine)
        → IsWired e
        → IsIdle t.id e
        → Activated t e (left json bus scheduler e (subscribe json bus scheduler t e))
    unfolding subscribe
    subscribe-Activated t e w i = go e.broker refl
      where
        added :
            (b : bus.State) (r : Option (ℕ × bus.State))
            → e.broker ≡ some b
            → bus.add (nats_subject json bus scheduler t) (handler_of json bus scheduler t) b ≡ r
            → Activated t e (
                left json bus scheduler e (elim r as (λ _. Result Engine) [
                  | none ↦ err not_registered
                  | some (sub, c) ↦ ok (record e { broker = some c; subs = assign t.id sub e.subs })
                ]))
        added b none q a = idle-Activated t e w i
        added b (some (sub, c)) q a = subscribed-Activated t e b c sub w i q a

        go :
            (b : Option bus.State)
            → e.broker ≡ b
            → Activated t e (
                left json bus scheduler e
                  (subscribe_with json bus scheduler t (nats_subject json bus scheduler t) b e))
        go none q = idle-Activated t e w i
        go (some b) q = elim (Bool-cases (nats_subject json bus scheduler t == "")) [
          | inl s ↦ rw s (idle-Activated t e w i)
          | inr s ↦ rw s (added b _ q refl)
        ]

    schedule_cron-Activated :
        (t : Trigger json.Config) (e : Engine)
        → IsWired e
        → IsIdle t.id e
        → Activated t e (left json bus scheduler e (schedule_cron json bus scheduler t e))
    unfolding schedule_cron
    schedule_cron-Activated t e w i = elim (Bool-cases (json.text_at "schedule" t.config == "")) [
      | inl s ↦ rw s (idle-Activated t e w i)
      | inr s ↦ rw s (added _ refl)
    ]
      where
        added :
            (r : Option (ℕ × scheduler.State))
            → scheduler.add
                (json.text_at "schedule" t.config)
                (handler_of json bus scheduler t)
                e.jobs
              ≡ r
            → Activated t e (
                left json bus scheduler e (elim r as (λ _. Result Engine) [
                  | none ↦ err not_registered
                  | some (ent, c) ↦
                      ok (record e { jobs = c; cron_ents = assign t.id ent e.cron_ents })
                ]))
        added none a = idle-Activated t e w i
        added (some (ent, c)) a = scheduled-Activated t e c ent w i a

    -- Whether the activation of an idle trigger works out or not, the engine stays wired, and the
    -- handlers of the trigger are at most the one that its configuration asks for.
    pub activated-Activated :
        (t : Trigger json.Config) (e : Engine)
        → IsWired e
        → IsIdle t.id e
        → Activated t e (activated json bus scheduler t e)
    unfolding activate
    activated-Activated t e w i =
        elim (Bool-cases
          (t.event_type == event_type_bucket_create || t.event_type == event_type_table_create)) [
            | inl a ↦ rw (a, activated) (subscribe-Activated t e w i)
            | inr a ↦ elim (Bool-cases (t.event_type == event_type_cron)) [
              | inl b ↦ rw (a, activated) (rw b (schedule_cron-Activated t e w i))
              | inr b ↦ elim (Bool-cases (t.event_type == event_type_http)) [
                | inl c ↦ rw (a, activated) (rw b (rw c (idle-Activated t e w i)))
                | inr c ↦ rw (a, activated) (rw b (rw c (idle-Activated t e w i)))
              ]
            ]
          ]
