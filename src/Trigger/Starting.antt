-- ===== src/Trigger/Starting.antt =====
-- internal/trigger/engine.go, Start: what is registered for the triggers of the table.
use flagbase.Prelude.{
  ℕ, ◌≤◌, String, Bool, true, false, not, ◌≡◌, ◌≢◌, refl, ap, ◌∙◌, List, [], ◌∷◌, map, any, arith,
  eq_iff, ◌==◌, none, if◌then◌else◌,
}
use flagbase.Db.Ensures.{Ensures, by_query, last_modify}
use flagbase.Sorting.{Sorting, count}
use flagbase.Trigger.{Json, TriggerRow, Trigger, Registry, IsRegistry, State}
use flagbase.Trigger.Engine.{trigger_of, activated, activate_enabled, newest, list, start}
use flagbase.Trigger.Wiring.{optional}
use flagbase.Trigger.Activation.{IsWired, IsIdle, activated-Activated}

any-count : {A : Type 0} (p : A → Bool) (xs : List A) → 1 ≤ count p xs → any p xs ≡ true
any-count p [] h = absurd (omega arith)
any-count p (x ∷ xs) h = ground (arith, any-count p xs)

module _ (json : Json) (bus scheduler : Registry) where
  abbrev Engine : Type 0
  Engine = State bus scheduler

  -- An engine as it is made: it has no handles, nothing is registered, and the identifiers of the
  -- table, its primary key, are each there once.
  pub record IsFresh (e : Engine) : Type 0 where
    pub no_subs : e.subs ≡ []
    pub no_crons : e.cron_ents ≡ []
    pub no_bus : (n : ℕ) → (optional bus).held e.broker n ≡ none
    pub no_job : (n : ℕ) → scheduler.held e.jobs n ≡ none
    pub once : (x : String) → count (λ r. r.id == x) e.function_triggers ≤ 1

  fresh-IsWired : (e : Engine) → IsFresh e → IsWired json bus scheduler e
  fresh-IsWired e h = record {
    subs_tidy = λ n k g q. let gone = h.no_bus n in cc;
    crons_tidy = λ n k g q. let gone = h.no_job n in cc;
    subs_known = λ x q. rw h.no_subs refl;
    crons_known = λ x q. rw h.no_crons refl;
  }

  -- The triggers that are still to be activated are in the table, each once, and have no handles.
  record Pending (ts : List (Trigger json.Config)) (e : Engine) : Type 0 where
    once : (x : String) → count (λ t. t.id == x) ts ≤ 1
    idle : (x : String) → 1 ≤ count (λ t. t.id == x) ts → IsIdle json bus scheduler x e

  count-trigger_of :
      (x : String) (rs : List TriggerRow)
      → count (λ t. t.id == x) (map (trigger_of json bus scheduler) rs) ≡ count (λ r. r.id == x) rs
  count-trigger_of x [] = refl
  count-trigger_of x (r ∷ rs) = ground (arith, count-trigger_of x rs)

  fresh-Pending :
      (order : Sorting) (e : Engine)
      → IsFresh e
      → Pending
          (map (trigger_of json bus scheduler) (order.sort TriggerRow newest e.function_triggers))
          e
  fresh-Pending order e h = record {
    once = λ x. omega (arith, same x, h.once x);
    idle = λ x k. record {
      present = any-count (λ r. r.id == x) e.function_triggers (omega (arith, same x));
      no_sub = rw h.no_subs refl;
      no_cron = rw h.no_crons refl;
    };
  }
    where
      same :
          (x : String)
          → count
              (λ t. t.id == x)
              (map
                (trigger_of json bus scheduler)
                (order.sort TriggerRow newest e.function_triggers))
            ≡ count (λ r. r.id == x) e.function_triggers
      same x =
          count-trigger_of x _
          ∙ order.sort_count TriggerRow newest e.function_triggers (λ r. r.id == x)

  module _ (bus_law : IsRegistry bus) (scheduler_law : IsRegistry scheduler) where
    later-Pending :
        (t : Trigger json.Config) (ts : List (Trigger json.Config)) (e : Engine)
        → Pending (t ∷ ts) e
        → Pending ts e
    later-Pending t ts e p = record {
      once = λ x. ground (arith, p.once x);
      idle = λ x k. p.idle x (ground arith);
    }

    activated-Pending :
        (t : Trigger json.Config) (ts : List (Trigger json.Config)) (e : Engine)
        → IsWired json bus scheduler e
        → Pending (t ∷ ts) e
        → IsWired json bus scheduler (activated json bus scheduler t e)
          × Pending ts (activated json bus scheduler t e)
    activated-Pending t ts e w p =
        let own : 1 ≤ count (λ s. s.id == t.id) (t ∷ ts) = ground (arith, eq_iff t.id t.id) in
        let a =
          activated-Activated json bus scheduler bus_law scheduler_law t e w (p.idle t.id own) in
        (
          a.wired,
          record {
            once = λ x. ground (arith, p.once x);
            idle = λ x k.
                let other : t.id ≢ x = ground (arith, p.once x, eq_iff t.id x) in
                let i = p.idle x (ground arith) in
                record {
                  present = ap (any (λ r. r.id == x)) a.rows ∙ i.present;
                  no_sub = (a.others x other).0 ∙ i.no_sub;
                  no_cron = (a.others x other).1 ∙ i.no_cron;
                };
          },
        )

    activate_enabled-IsWired :
        (ts : List (Trigger json.Config)) (e : Engine)
        → IsWired json bus scheduler e
        → Pending ts e
        → IsWired json bus scheduler (activate_enabled json bus scheduler ts e)
    activate_enabled-IsWired [] e w p = w
    activate_enabled-IsWired (t ∷ ts) e w p = go t.enabled (activate_enabled-IsWired ts)
      where
        go :
            (b : Bool)
            → ((f : Engine)
                → IsWired json bus scheduler f
                → Pending ts f
                → IsWired json bus scheduler (activate_enabled json bus scheduler ts f))
            → IsWired json bus scheduler (
                activate_enabled json bus scheduler ts
                  (if not b then e else activated json bus scheduler t e))
        go true ih =
            let a = activated-Pending t ts e w p in ih (activated json bus scheduler t e) a.0 a.1
        go false ih = ih e w (later-Pending t ts e p)

    running-IsWired :
        (e : Engine)
        → IsWired json bus scheduler e
        → IsWired json bus scheduler (record e { running = true })
    running-IsWired e w = record {
      subs_tidy = w.subs_tidy;
      crons_tidy = w.crons_tidy;
      subs_known = w.subs_known;
      crons_known = w.crons_known;
    }

    -- A new engine that starts, with whatever activations failing, has each handler that is
    -- registered for a trigger of the table, and its handle.
    pub start-IsWired :
        (order : Sorting) (e : Engine)
        → IsFresh e
        → Ensures e
            (start json bus scheduler order)
            (λ _ f. IsWired json bus scheduler f)
            (λ _ f. IsWired json bus scheduler f)
    unfolding start list
    start-IsWired order e h =
        let ts =
          map (trigger_of json bus scheduler) (order.sort TriggerRow newest e.function_triggers) in
        let w = fresh-IsWired e h in
        by_query _ _ w (
          last_modify _ (
            running-IsWired (activate_enabled json bus scheduler ts e)
              (activate_enabled-IsWired ts e w (fresh-Pending order e h))))
