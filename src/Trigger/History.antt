-- ===== src/Trigger/History.antt =====
-- internal/trigger/engine.go: what is registered over histories of requests.
use flagbase.Prelude.{ℕ, String, Bool, List, [], ◌∷◌}
use flagbase.Db.{Op, pure, ignore, ◌>>◌}
use flagbase.Db.Ensures.{Ensures, by_pure, by_bind, by_consequence, by_ignore}
use flagbase.Trigger.{Json, Registry, IsRegistry, State}
use flagbase.Trigger.Engine.{create, update, delete}
use flagbase.Trigger.Activation.{IsWired}
use flagbase.Sorting.{Sorting}
use flagbase.Trigger.Engine.{start}
use flagbase.Trigger.Requests.{create-Applied, delete-IsInactive}
use flagbase.Trigger.Updating.{update-Applied}
use flagbase.Trigger.Starting.{IsFresh, start-IsWired}

module _ (json : Json) (bus scheduler : Registry) (bus_law : IsRegistry bus)
    (scheduler_law : IsRegistry scheduler) where
  abbrev Engine : Type 0
  Engine = State bus scheduler

  abbrev Wired : Engine → Type 0
  Wired = IsWired json bus scheduler

  -- The requests that change triggers.
  pub data Request : Type 0 where
    creates : ℕ → String → String → json.Config → Bool → Request
    updates : ℕ → String → Bool → json.Config → Request
    deletes : String → Request

  abbrev pub perform : Request → Op Engine (Unit {0})
  perform (creates now function_id event_type config enabled) =
      ignore (create json bus scheduler now function_id event_type config enabled)
  perform (updates now id enabled config) = ignore (update json bus scheduler now id enabled config)
  perform (deletes id) = ignore (delete json bus scheduler id)

  -- A history: an error of one request does not keep the next from being made.
  abbrev pub perform_all : List Request → Op Engine (Unit {0})
  perform_all [] = pure tt
  perform_all (r ∷ rs) = do perform r; perform_all rs

  perform-IsWired :
      (r : Request) (e : Engine) → Wired e → Ensures e (perform r) (λ _ f. Wired f) (λ _ f. Wired f)
  perform-IsWired (creates now function_id event_type config enabled) e w = by_ignore (
      by_consequence
        (create-Applied json bus scheduler bus_law scheduler_law now function_id event_type config
          enabled e w)
        (λ _ _ h. h.0) (λ _ _ h. h))
  perform-IsWired (updates now id enabled config) e w = by_ignore (
      by_consequence
        (update-Applied json bus scheduler bus_law scheduler_law now id enabled config e w)
        (λ _ _ h. h.0) (λ _ _ h. h))
  perform-IsWired (deletes id) e w = by_ignore (
      by_consequence (delete-IsInactive json bus scheduler bus_law scheduler_law id e w)
        (λ _ _ h. h.0) (λ _ _ h. h.0))

  requests-IsWired :
      (rs : List Request) (e : Engine)
      → Wired e
      → Ensures e (perform_all rs) (λ _ f. Wired f) (λ _ f. Wired f)
  requests-IsWired [] e w = by_pure tt w
  requests-IsWired (r ∷ rs) e w =
      by_bind (λ _ f. Wired f) (perform-IsWired r e w) (λ _ f v. requests-IsWired rs f v)

  -- Once a new engine has started on a table in which no two triggers have the same identifier,
  -- whatever requests to create, update and delete triggers are made, and whichever of them fail:
  -- each handler that is registered is the one that the engine has the handle of, and belongs to a
  -- trigger of the table. It holds too where the start fails. No function is deleted meanwhile, and
  -- the engine is not stopped and started again.
  pub perform_all-IsWired :
      (order : Sorting) (rs : List Request) (e : Engine)
      → IsFresh json bus scheduler e
      → Ensures e
          (start json bus scheduler order >> perform_all rs)
          (λ _ f. IsWired json bus scheduler f)
          (λ _ f. IsWired json bus scheduler f)
  perform_all-IsWired order rs e fresh =
      by_bind (λ _ f. Wired f)
        (start-IsWired json bus scheduler bus_law scheduler_law order e fresh)
        (λ _ f w. requests-IsWired rs f w)
