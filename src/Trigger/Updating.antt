-- ===== src/Trigger/Updating.antt =====
-- internal/trigger/engine.go, Update: what is registered after it.
use flagbase.Prelude.{
  ℕ, String, Bool, true, false, not, ◌≡◌, refl, sym, ap, ◌∙◌, inl, inr, List, [], ◌∷◌, any, first,
  any-update_where, update_where, eqb, arith, eq_iff, ◌==◌, Option, none, some, Bool-cases,
  Option-cases, subst,
}
use flagbase.Db.{ok, pure, ◌>>◌}
use flagbase.Db.Ensures.{Ensures, by_pure, by_bind, by_execute, by_query, by_modify, by_lift}
use flagbase.Trigger.{Json, TriggerRow, Trigger, Registry, IsRegistry, State}
use flagbase.Trigger.Engine.{
  deactivate, trigger_of, bool_to_int, trigger_with, get, encoded, activate_if, reactivate,
  update_row, update,
}
use flagbase.Trigger.Activation.{IsWired, IsIdle, Deactivated, deactivate-Deactivated}
use flagbase.Trigger.Requests.{with_rows-IsWired, Applied, activate_if-Applied}

module _ (json : Json) (bus scheduler : Registry) (bus_law : IsRegistry bus)
    (scheduler_law : IsRegistry scheduler) where
  abbrev Engine : Type 0
  Engine = State bus scheduler

  abbrev Wired : Engine → Type 0
  Wired = IsWired json bus scheduler

  update_row-any :
      (now : ℕ) (id : String) (enabled : Bool) (config_json x : String) (e : Engine)
      → any
          (λ r. r.id == x)
          (update_row json bus scheduler now id enabled config_json e).function_triggers
        ≡ any (λ r. r.id == x) e.function_triggers
  update_row-any now id enabled config_json x e =
      any-update_where (λ r. r.id == x) (λ r. r.id == id) _ e.function_triggers (λ r. refl)

  first-any :
      (id : String) (rows : List TriggerRow) (r : TriggerRow)
      → first (λ q. q.id == id) rows ≡ some r
      → (r.id ≡ id) × (any (λ q. q.id == id) rows ≡ true)
  first-any id [] r h = cc
  first-any id (q ∷ rows) r h = elim (Bool-cases (q.id == id)) [
    | inl b ↦
        let found : q ≡ r = (let g = rw b at h in cc) in
        let own : q.id ≡ id = ground (arith, eq_iff q.id id) in
        (ap (λ (x : TriggerRow). x.id) (sym found) ∙ own, rw b refl)
    | inr b ↦
        let g : first (λ q. q.id == id) rows ≡ some r = rw b at h in
        let k = first-any id rows r g in (k.0, rw b k.1)
  ]

  found-trigger :
      (id : String) (e : Engine) (t : Trigger json.Config)
      → trigger_with json bus scheduler id e ≡ some t
      → (t.id ≡ id) × (any (λ q. q.id == id) e.function_triggers ≡ true)
  found-trigger id e t h = elim (Option-cases (first (λ q. q.id == id) e.function_triggers)) [
    | inl b ↦ absurd (let g = rw (b, trigger_with) at h in cc)
    | inr (r, b) ↦
        let g : trigger_of json bus scheduler r ≡ t = (let g = rw (b, trigger_with) at h in cc) in
        let k = first-any id e.function_triggers r b in
        (ap (λ (x : Trigger json.Config). x.id) (sym g) ∙ k.0, k.1)
  ]

  Deactivated-IsIdle :
      (id : String) (e f : Engine)
      → any (λ q. q.id == id) e.function_triggers ≡ true
      → Deactivated json bus scheduler id e f
      → IsIdle json bus scheduler id f
  Deactivated-IsIdle id e f p d = record {
    present = ap (any (λ q. q.id == id)) d.rows ∙ p;
    no_sub = d.no_sub;
    no_cron = d.no_cron;
  }

  -- What a row holds that an update has written.
  abbrev pub Written : Bool → json.Config → Trigger json.Config → Type 0
  Written enabled config t =
      (t.enabled ≡ enabled)
      × ((text : String) × (json.encode config ≡ some text)
          × (t.config ≡ (elim (json.decode text) [ none ↦ json.empty | some c ↦ c ])))

  first-update_where :
      (id : String) (g : TriggerRow → TriggerRow) (rows : List TriggerRow) (r : TriggerRow)
      → ((q : TriggerRow) → (g q).id ≡ q.id)
      → first (λ q. q.id == id) (update_where (λ q. q.id == id) g rows) ≡ some r
      → (q : TriggerRow) × (r ≡ g q)
  first-update_where id g [] r k h = absurd (cc)
  first-update_where id g (q ∷ rows) r k h = elim (Bool-cases (q.id == id)) [
    | inl b ↦
        let own : ((g q).id == id) ≡ true = rw (k q) b in
        let found : ◌≡◌ {A = Option TriggerRow} (some (g q)) (some r) = rw (b, own) at h in (q, cc)
    | inr b ↦
        let found : first (λ q. q.id == id) (update_where (λ q. q.id == id) g rows) ≡ some r =
          rw (b, b) at h in
        first-update_where id g rows r k found
  ]

  enabled-stored : (b : Bool) → not (eqb (bool_to_int b) 0) ≡ b
  enabled-stored true = refl
  enabled-stored false = refl

  update_row-Written :
      (now : ℕ) (id : String) (enabled : Bool) (config : json.Config) (text : String) (e : Engine)
      (t : Trigger json.Config)
      → json.encode config ≡ some text
      → trigger_with json bus scheduler id (update_row json bus scheduler now id enabled text e)
        ≡ some t
      → Written enabled config t
  update_row-Written now id enabled config text e t coded h =
      elim (Option-cases (first (λ q. q.id == id) rows)) [
        | inl b ↦ absurd (let g = rw (b, trigger_with) at h in cc)
        | inr (r, b) ↦
            let k = first-update_where id _ e.function_triggers r (λ q. refl) b in
            let g : trigger_of json bus scheduler r ≡ t =
              (let g = rw (b, trigger_with) at h in cc) in
            (
              ap (λ (x : Trigger json.Config). x.enabled) (sym g)
                  ∙ (ap (λ (x : TriggerRow). not (eqb x.enabled 0)) k.1 ∙ enabled-stored enabled),
              (
                text,
                coded,
                ap (λ (x : Trigger json.Config). x.config) (sym g)
                    ∙ ap
                        (λ (x : TriggerRow). elim (json.decode x.config) [
                          | none ↦ json.empty
                          | some c ↦ c
                        ])
                        k.1,
              ),
            )
      ]
    where
      rows : List TriggerRow
      rows = (update_row json bus scheduler now id enabled text e).function_triggers

  encoded-ok :
      (config : json.Config) (text : String)
      → encoded json bus scheduler config ≡ ok text
      → json.encode config ≡ some text
  encoded-ok config text h = ground arith

  -- What an update gives: the trigger of the table, or none if there is none, with the state and
  -- the configuration that the update has written, and handlers that follow it.
  abbrev pub Updated : String → Bool → json.Config → Option (Trigger json.Config) → Engine → Type 0
  Updated id enabled config o f =
      IsWired json bus scheduler f
      × (trigger_with json bus scheduler id f ≡ o)
      × ((t : Trigger json.Config)
          → o ≡ some t
          → (t.id ≡ id)
            × Written enabled config t
            × Applied json bus scheduler bus_law scheduler_law enabled t f)

  pub update-Applied :
      (now : ℕ) (id : String) (enabled : Bool) (config : json.Config) (e : Engine)
      → IsWired json bus scheduler e
      → Ensures e
          (update json bus scheduler now id enabled config)
          (λ o f. Updated id enabled config o f)
          (λ _ f. IsWired json bus scheduler f)
  unfolding update get
  update-Applied now id enabled config e w =
      by_lift _ (encoded json bus scheduler config) (λ _. w)
        λ config_json coded.
          let f = update_row json bus scheduler now id enabled config_json e in
          let v : Wired f =
            with_rows-IsWired json bus scheduler bus_law scheduler_law e f.function_triggers w
              (λ x h. sym (update_row-any now id enabled config_json x e) ∙ h) in
          by_execute _ (update_row json bus scheduler now id enabled config_json) w (
            by_query (reactivate json bus scheduler id enabled) (trigger_with json bus scheduler id)
              v
              (go f v
                (λ t.
                  update_row-Written now id enabled config config_json e t
                    (encoded-ok config config_json coded))
                (trigger_with json bus scheduler id f) refl))
    where
      go :
          (f : Engine)
          → Wired f
          → ((t : Trigger json.Config)
              → trigger_with json bus scheduler id f ≡ some t
              → Written enabled config t)
          → (o : Option (Trigger json.Config)) → trigger_with json bus scheduler id f ≡ o
          → Ensures f
              (reactivate json bus scheduler id enabled o)
              (λ o f. Updated id enabled config o f)
              (λ _ f. Wired f)
      go f v wrote none q = by_pure none (v, q, λ t h. absurd (cc))
      go f v wrote (some t) q =
          let k = found-trigger id f t q in
          let d = deactivate-Deactivated json bus scheduler bus_law scheduler_law id f v in
          let g = deactivate json bus scheduler id f in
          let i = Deactivated-IsIdle id f g k.1 d in
          by_modify (λ _. do activate_if json bus scheduler enabled t; pure (some t))
            (deactivate json bus scheduler id)
            (by_bind
              (λ _ u.
                Applied json bus scheduler bus_law scheduler_law enabled t u
                × (u.function_triggers ≡ g.function_triggers))
              (activate_if-Applied json bus scheduler bus_law scheduler_law enabled t g d.wired
                (subst (λ x. IsIdle json bus scheduler x g) (sym k.0) i))
              (λ _ u a. by_pure (some t) (
                a.0.0,
                ap
                      (λ (rows : List TriggerRow).
                        elim (first (λ r. r.id == id) rows) as (λ _. Option (Trigger json.Config)) [
                          | none ↦ none
                          | some r ↦ some (trigger_of json bus scheduler r)
                        ])
                      (a.1 ∙ d.rows)
                    ∙ q,
                λ s same.
                    let eq : t ≡ s = cc in
                    subst
                      (λ s.
                        (s.id ≡ id)
                        × Written enabled config s
                        × Applied json bus scheduler bus_law scheduler_law enabled s u)
                      eq (k.0, wrote t q, a.0),
              )))
