-- ===== src/Trigger/Requests.antt =====
-- internal/trigger/engine.go, Create and Delete: what is registered after a request.
use flagbase.Prelude.{
  ℕ, String, Bool, true, false, not, ◌≡◌, refl, sym, ap, ◌∙◌, inl, inr, List, [], ◌∷◌, ◌++◌, any,
  keep, any-append, any-keep, any-keep_none, lookup, arith, eq_iff, ◌==◌, none, Bool-cases, subst,
}
use flagbase.Db.{ok, execute}
use flagbase.Db.Ensures.{
  Ensures, by_pure, by_bind, by_statement, by_modify, by_lift, last_execute, last_modify,
}
use flagbase.Ids.Laws.{by_new_id}
use flagbase.Trigger.{Json, TriggerRow, Trigger, Registry, IsRegistry, State}
use flagbase.Trigger.Engine.{
  validate_event_type, deactivate, activated, insert_trigger, encoded, activate_if, create,
  delete_row, delete,
}
use flagbase.Trigger.Activation.{
  IsKnown, IsWired, IsInactive, IsIdle, Deactivated, deactivate-Deactivated, Deactivated-IsInactive,
  Listens, activated-Activated, idle-Activated, broker-IsSilent, jobs-IsSilent,
}

module _ (json : Json) (bus scheduler : Registry) (bus_law : IsRegistry bus)
    (scheduler_law : IsRegistry scheduler) where
  abbrev Engine : Type 0
  Engine = State bus scheduler

  -- Rows that are only added or changed keep each trigger known.
  abbrev Wired : Engine → Type 0
  Wired = IsWired json bus scheduler

  pub with_rows-IsWired :
      (e : Engine) (rows : List TriggerRow)
      → Wired e
      → ((x : String)
          → any (λ r. r.id == x) rows ≡ false
          → any (λ r. r.id == x) e.function_triggers ≡ false)
      → Wired (record e { function_triggers = rows })
  with_rows-IsWired e rows w h = record {
    subs_tidy = w.subs_tidy;
    crons_tidy = w.crons_tidy;
    subs_known = λ x k. w.subs_known x (h x k);
    crons_known = λ x k. w.crons_known x (h x k);
  }

  delete_row-IsWired :
      (id : String) (e f : Engine)
      → Deactivated json bus scheduler id e f
      → Wired (delete_row json bus scheduler id f)
  delete_row-IsWired id e f d = record {
    subs_tidy = d.wired.subs_tidy;
    crons_tidy = d.wired.crons_tidy;
    subs_known = λ x h. known f.subs d.no_sub d.wired.subs_known x h;
    crons_known = λ x h. known f.cron_ents d.no_cron d.wired.crons_known x h;
  }
    where
      known :
          (m : List (String × ℕ))
          → lookup id m ≡ none
          → IsKnown json bus scheduler m f
          → (x : String)
          → any (λ r. r.id == x) (keep (λ r. not (r.id == id)) f.function_triggers) ≡ false
          → lookup x m ≡ none
      known m own k x h = elim (Bool-cases (x == id)) [
        | inl b ↦ let same : x ≡ id = ground (arith, eq_iff x id) in ap (λ i. lookup i m) same ∙ own
        | inr b ↦ k x (
            sym (
              any-keep (λ r. r.id == x) (λ r. not (r.id == id)) f.function_triggers
                (λ r q. ground (arith, eq_iff r.id x, eq_iff r.id id, eq_iff x id)))
            ∙ h)
      ]

  -- In a state in which each registered handler is known, as the start and the requests on triggers
  -- leave it: after a trigger has been deleted, neither the bus nor the scheduler has a handler for it, and
  -- it has no row; if the deletion of the row fails, the handlers are gone all the same.
  pub delete-IsInactive :
      (id : String) (e : Engine)
      → IsWired json bus scheduler e
      → Ensures e
          (delete json bus scheduler id)
          (λ _ f.
            IsWired json bus scheduler f
            × IsInactive json bus scheduler id f
            × (any (λ r. r.id == id) f.function_triggers ≡ false))
          (λ _ f. IsWired json bus scheduler f × IsInactive json bus scheduler id f)
  unfolding delete
  delete-IsInactive id e w =
      let d = deactivate-Deactivated json bus scheduler bus_law scheduler_law id e w in
      let f = deactivate json bus scheduler id e in
      let quiet = Deactivated-IsInactive json bus scheduler bus_law scheduler_law id e f d in
      by_modify (λ _. execute (delete_row json bus scheduler id)) (deactivate json bus scheduler id)
        (last_execute (delete_row json bus scheduler id) (d.wired, quiet)
          (
            delete_row-IsWired id e f d,
            quiet,
            any-keep_none (λ r. r.id == id) (λ r. not (r.id == id)) f.function_triggers
                (λ r. ground arith),
          ))

  -- What a request that gives a trigger leaves.
  abbrev pub Applied : Bool → Trigger json.Config → Engine → Type 0
  Applied enabled t f =
      IsWired json bus scheduler f
      × Listens json bus scheduler t f
      × (enabled ≡ false → IsInactive json bus scheduler t.id f)

  pub activate_if-Applied :
      (enabled : Bool) (t : Trigger json.Config) (e : Engine)
      → Wired e
      → IsIdle json bus scheduler t.id e
      → Ensures e
          (activate_if json bus scheduler enabled t)
          (λ _ f. Applied enabled t f × (f.function_triggers ≡ e.function_triggers))
          (λ _ f. Wired f)
  activate_if-Applied true t e w i =
      let a = activated-Activated json bus scheduler bus_law scheduler_law t e w i in
      last_modify (activated json bus scheduler t)
        ((a.wired, a.listens, λ off. absurd (cc)), a.rows)
  activate_if-Applied false t e w i =
      let a = idle-Activated json bus scheduler bus_law scheduler_law t e w i in
      by_pure tt (
        (
          a.wired,
          a.listens,
          λ _. (
            broker-IsSilent json bus scheduler bus_law scheduler_law t.id e w i,
            jobs-IsSilent json bus scheduler bus_law scheduler_law t.id e w i,
          ),
        ),
        refl,
      )

  insert_trigger-ok :
      (r : TriggerRow) (e f : Engine) {a : Unit {0}}
      → insert_trigger json bus scheduler r e ≡ ok (a, f)
      → (any (λ q. q.id == r.id) e.function_triggers ≡ false)
        × (f ≡ record e { function_triggers = e.function_triggers ++ r ∷ [] })
  insert_trigger-ok r e f h = elim (Bool-cases (any (λ q. q.id == r.id) e.function_triggers)) [
    | inl b ↦ absurd (let taken = rw b at h in cc)
    | inr b ↦ elim (Bool-cases (not (any (λ g. g == r.function_id) e.functions))) [
      | inl c ↦ absurd (let missing = rw (b, c) at h in cc)
      | inr c ↦ let done = rw (b, c) at h in (b, cc)
    ]
  ]

  inserted-IsIdle :
      (r : TriggerRow) (e f : Engine)
      → Wired e
      → any (λ q. q.id == r.id) e.function_triggers ≡ false
      → f ≡ record e { function_triggers = e.function_triggers ++ r ∷ [] }
      → Wired f × IsIdle json bus scheduler r.id f
  inserted-IsIdle r e f w fresh same =
      subst (λ f. Wired f × IsIdle json bus scheduler r.id f) (sym same)
        (
          with_rows-IsWired e _ w
              (λ x h. ground (arith, any-append (λ q. q.id == x) e.function_triggers r, h)),
          record {
            present =
                ground
                  (arith, any-append (λ q. q.id == r.id) e.function_triggers r, eq_iff r.id r.id);
            no_sub = w.subs_known r.id fresh;
            no_cron = w.crons_known r.id fresh;
          },
        )

  -- A trigger that has been created disabled has no handler; one that has been created enabled has
  -- at most one, which listens where the configuration says and runs the trigger's function. A
  -- creation that fails leaves each handler registered for a trigger of the table.
  pub create-Applied :
      (now : ℕ) (function_id event_type : String) (config : json.Config) (enabled : Bool)
      (e : Engine)
      → IsWired json bus scheduler e
      → Ensures e
          (create json bus scheduler now function_id event_type config enabled)
          (λ t f. Applied enabled t f)
          (λ _ f. IsWired json bus scheduler f)
  unfolding create
  create-Applied now function_id event_type config enabled e w =
      by_lift _ (validate_event_type event_type) (λ _. w)
        λ _ _. by_new_id _ w λ b.
          by_lift _ (encoded json bus scheduler config) (λ _. w)
            λ config_json _.
              by_statement _ w (λ _ _. w)
                λ _ f h.
                  let k = insert_trigger-ok _ e f h in
                  let i = inserted-IsIdle _ e f w k.0 k.1 in
                  by_bind _ (activate_if-Applied enabled _ f i.0 i.1) (λ _ g a. by_pure _ a.0)
