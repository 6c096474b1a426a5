-- ===== src/Worker/Connections.antt =====
-- internal/worker/worker.go, checkFlagAnomalies: how many connections it takes.
use flagbase.Prelude.{
  ℕ, String, ◌≡◌, ◌≢◌, ◌↔◌, ◌⊎◌, inl, inr, refl, sym, ap, ◌∙◌, List, [], ◌∷◌, Option, none, some,
  Bool-cases, suc, arith, subst,
}
use flagbase.Db.{Session}
use flagbase.Db.Running.{query_calm}
use flagbase.Sorting.{Sorting}
use flagbase.Feature.{Flag}
use flagbase.Feature.Engine.{get_flag}
use flagbase.Worker.{
  World, and_then, record_anomaly, disable, disable_if, each_row, rows, with_rows,
  check_flag_anomalies,
}

-- Whether a run comes to an end.
abbrev pub Ends : Option (Session World) → Type 0
Ends r = (s : Session World) × (r ≡ some s)

module _ (order : Sorting) (message : String → ℕ → String) where
  disable_if-Ends :
      (free now : ℕ) (key : String) (o : Option Flag) (s : Session World)
      → Ends (disable_if order message (suc free) now key o s)
  disable_if-Ends free now key none s = (s, refl)
  disable_if-Ends free now key (some f) s = elim (Bool-cases f.enabled) [
    | inl e ↦ ((disable order message now key f s).1, rw e refl)
    | inr e ↦ (s, rw e refl)
  ]

  each_row-Ends :
      (free now : ℕ) (ks : List (String × ℕ)) (s : Session World)
      → Ends (each_row order message (suc free) now ks s)
  each_row-Ends free now [] s = (s, refl)
  each_row-Ends free now ((k, cnt) ∷ ks) s =
      let u = (record_anomaly now "flag_error_rate" k "critical" (message k cnt) s).1 in
      let d = disable_if-Ends free now k (get_flag u.state.engine k) u in
      let r = each_row-Ends free now ks d.0 in
      (r.0, ap (λ o. and_then o (each_row order message (suc free) now ks)) d.1 ∙ r.1)

  each_row-rows :
      (free now : ℕ) (ks : List (String × ℕ)) (s : Session World)
      → Ends (each_row order message free now ks s) ↔ ((free ≢ 0) ⊎ (ks ≡ []))
  each_row-rows Prim.Native.Nat.zero now [] s = (λ _. inr refl, λ _. (s, refl))
  each_row-rows Prim.Native.Nat.zero now (k ∷ ks) s =
      (λ (u, e). absurd (cc), λ o. absurd (elim o [ inl n ↦ n refl | inr e ↦ cc ]))
  each_row-rows (suc free) now ks s =
      (λ _. inl (λ e. ground arith), λ _. each_row-Ends free now ks s)

  -- Where no call of the driver fails, the check comes to an end exactly if the pool may open a second
  -- connection or the query gives no row: with one connection, as internal/database opens the pool,
  -- a single flag with too many errors makes it wait forever.
  pub check_flag_anomalies-Ends :
      (free now : ℕ) (s : Session World)
      → s.faults ≡ []
      → Ends (check_flag_anomalies order message (suc free) now s)
        ↔ ((free ≢ 0) ⊎ (rows order message now s.state ≡ []))
  unfolding check_flag_anomalies
  check_flag_anomalies-Ends free now s calm =
      subst
        (λ r.
          Ends (with_rows order message free now r)
          ↔ ((free ≢ 0) ⊎ (rows order message now s.state ≡ [])))
        (sym (query_calm (rows order message now) s calm))
        (each_row-rows free now (rows order message now s.state) s)
