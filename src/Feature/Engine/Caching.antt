-- ===== src/Feature/Engine/Caching.antt =====
-- The cache against the tables: a successful operation leaves exactly what the tables say, a failed
-- one leaves the cache that was there.
use flagbase.Prelude.{ℕ, String, ◌≡◌, refl, ap, ◌∙◌, List, [], ◌∷◌, map}
use flagbase.Db.{unknown_status, Op, pure, ◌>>=◌, ◌>>◌, Result}
use flagbase.Db.Ensures.{
  Ensures, by_pure, by_bind, by_query, by_execute, by_require, last_modify, by_consequence,
}
use flagbase.Ids.Laws.{new_id-same, id_or_new-same}
use flagbase.Sorting.{Sorting}
use flagbase.Feature.{Flag, FlagStatus, Rule, Variant, Override}
use flagbase.Feature.Tables.{
  Tables, load_rules, load_variants, load_overrides, insert_flag_row, insert_rule_row,
  update_status,
}
use flagbase.Feature.Engine.Steps.{by_sql}
use flagbase.Feature.Engine.{
  Engine, is_status, collect, sql, exec, fill, reload, insert_rule, insert_rules, create_flag,
  update_flag, transition_status, delete_flag, create_variant, delete_variant, create_override,
  delete_override,
}

-- The operations that write, each with its arguments; `ℕ` is what time.Now() returns.
pub data Request : Type 0 where
  create : ℕ → Flag → Request
  update : ℕ → Flag → Request
  transition : ℕ → String → FlagStatus → Request
  delete : String → Request
  add_variant : Variant → Request
  drop_variant : String → String → Request
  pin : ℕ → Override → Request
  unpin : String → String → Request

module _ (order : Sorting) where
  unfoldable pub perform : Request → Op Engine (Unit {0})
  perform (create now f) = do _ ← create_flag order now f; pure tt
  perform (update now f) = update_flag order now f
  perform (transition now key status) = transition_status order now key status
  perform (delete key) = delete_flag order key
  perform (add_variant v) = create_variant order v
  perform (drop_variant flag_key key) = delete_variant order flag_key key
  perform (pin now o) = create_override order now o
  perform (unpin flag_key user_id) = delete_override order flag_key user_id

  -- A flag with the rows of the three tables that belong to its key.
  abbrev pub loaded : Tables → String × Flag → String × Flag
  loaded t (key, f) = (
    key,
    record f {
      rules = load_rules order key t;
      variants = load_variants order key t;
      overrides = load_overrides order key t;
    },
  )

  -- The flags as the tables have them.
  unfoldable pub view : Tables → List (String × Flag)
  unfolding collect
  view t = map (loaded t) (collect t.feature_flags [])

  fill-view :
      (m : List (String × Flag)) (e : Engine)
      → Ensures e (fill order m) (λ m' u. (m' ≡ map (loaded e.db) m) × (u ≡ e)) (λ _ u. u ≡ e)
  unfolding fill
  fill-view [] e = by_pure [] (refl, refl)
  fill-view ((key, f) ∷ m) e = by_query _ _ refl (
      by_query _ _ refl (
        by_query _ _ refl (
          by_bind _ (fill-view m e)
            λ rest u r. by_pure _ (ap (λ l. loaded e.db (key, f) ∷ l) r.0, r.1))))

  -- A reload that succeeds makes the cache the view of the tables, which stay; one that fails
  -- changes nothing.
  pub reload-view :
      (e : Engine)
      → Ensures e (reload order) (λ _ u. u ≡ record e { flags = view e.db }) (λ _ u. u ≡ e)
  unfolding reload view
  reload-view e = by_query _ _ refl (
      by_bind _ (fill-view _ e)
        λ flags u r. last_modify _ (λ i. record { db = (r.1 i).db; flags = r.0 i }))

  -- Nothing before the reload touches the cache.
  abbrev pub Quiet : {A : Type 0} → Engine → Op Engine A → Type 0
  Quiet e m = Ensures e m (λ _ u. u.flags ≡ e.flags) (λ _ u. u.flags ≡ e.flags)

  insert_rule-Quiet : (r : Rule) (e : Engine) → Quiet e (insert_rule r)
  unfolding insert_rule
  insert_rule-Quiet r e =
      by_bind (λ _ u. u ≡ e)
        (by_consequence (id_or_new-same r.id e) (λ _ u k. k) (λ _ u k. ap (λ v. v.flags) k))
        λ id u k.
          by_sql u (insert_rule_row (record r { id = id })) (ap (λ v. v.flags) k)
            (λ x h. ap (λ v. v.flags) k) λ a t h. by_pure _ (ap (λ v. v.flags) k)

  insert_rules-Quiet : (key : String) (rs : List Rule) (e : Engine) → Quiet e (insert_rules key rs)
  unfolding insert_rules
  insert_rules-Quiet key [] e = by_pure [] refl
  insert_rules-Quiet key (r ∷ rs) e =
      by_bind (λ _ u. u.flags ≡ e.flags) (insert_rule-Quiet (record r { flag_key = key }) e)
        λ q u h.
          by_bind (λ _ v. v.flags ≡ e.flags)
            (by_consequence (insert_rules-Quiet key rs u) (λ _ v k. k ∙ h) (λ _ v k. k ∙ h))
            λ qs v k. by_pure _ k

  publish :
      (e : Engine) (flags : List (String × Flag))
      → e.flags ≡ flags
      → Ensures e (reload order) (λ _ u. u.flags ≡ view u.db) (λ _ u. u.flags ≡ flags)
  publish e flags h =
      by_consequence (reload-view e) (λ _ u k. cc) (λ _ u k. ap (λ v. v.flags) k ∙ h)

  exec-publish :
      (f : Tables → Tables) (e : Engine)
      → Ensures e (exec f >> reload order) (λ _ u. u.flags ≡ view u.db) (λ _ u. u.flags ≡ e.flags)
  exec-publish f e = by_execute _ _ refl (publish _ e.flags refl)

  sql-publish :
      (f : Tables → Result (Unit {0} × Tables)) (u : Engine) (flags : List (String × Flag))
      → u.flags ≡ flags
      → Ensures u (sql f >> reload order) (λ _ v. v.flags ≡ view v.db) (λ _ v. v.flags ≡ flags)
  sql-publish f u flags k = by_sql u f k (λ x h. k) λ a t h. publish _ flags k

  flags-of : {e u : Engine} → u ≡ e → u.flags ≡ e.flags
  flags-of k i = (k i).flags

  create-publish :
      (now : ℕ) (f : Flag) (e : Engine)
      → Ensures e (create_flag order now f) (λ _ u. u.flags ≡ view u.db) (λ _ u. u.flags ≡ e.flags)
  unfolding create_flag
  create-publish now f e =
      by_bind (λ _ u. u ≡ e)
        (by_consequence (id_or_new-same f.id e) (λ _ u k. k) (λ _ u k. flags-of k))
        λ id u k.
          by_sql u (insert_flag_row _) (flags-of k) (λ x h. flags-of k)
            λ a t h.
              by_bind (λ _ v. v.flags ≡ e.flags)
                (by_consequence (insert_rules-Quiet f.key f.rules (record u { db = t }))
                  (λ _ v q. q ∙ flags-of k) (λ _ v q. q ∙ flags-of k))
                λ rules v q. by_bind _ (publish v e.flags q) λ b w fresh. by_pure _ fresh

  -- Whatever the driver fails and whatever the tables hold: if a writing operation returns, the
  -- cache is the view of the tables; if it fails, the cache is the one from before.
  pub perform_publishes :
      (r : Request) (e : Engine)
      → Ensures e (perform r) (λ _ u. u.flags ≡ view u.db) (λ _ u. u.flags ≡ e.flags)
  unfolding perform update_flag transition_status delete_flag create_variant delete_variant
      create_override delete_override
  perform_publishes (create now f) e =
      by_bind _ (create-publish now f e) λ _ u fresh. by_pure _ fresh
  perform_publishes (update now f) e = exec-publish _ e
  perform_publishes (transition now key status) e =
      by_require (λ _. exec (update_status key status now) >> reload order) (is_status status)
        (unknown_status status) (λ _. exec-publish _ e) λ _. refl
  perform_publishes (delete key) e = exec-publish _ e
  perform_publishes (add_variant v) e =
      by_bind (λ _ u. u ≡ e) (by_consequence (new_id-same e) (λ _ u k. k) (λ _ u k. flags-of k))
        λ id u k. sql-publish _ u e.flags (flags-of k)
  perform_publishes (drop_variant flag_key key) e = exec-publish _ e
  perform_publishes (pin now o) e =
      by_bind (λ _ u. u ≡ e) (by_consequence (new_id-same e) (λ _ u k. k) (λ _ u k. flags-of k))
        λ id u k. sql-publish _ u e.flags (flags-of k)
  perform_publishes (unpin flag_key user_id) e = exec-publish _ e
