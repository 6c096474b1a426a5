-- ===== src/Feature/Engine/Integrity.antt =====
-- The constraints of the schema hold in every state that the engine's operations reach.
use flagbase.Prelude.{String, ◌≡◌, List, [], ◌∷◌, sym, subst}
use flagbase.Db.{unknown_status, Op, Result, ok, err, ◌>>=◌, ◌>>◌}
use flagbase.Db.Ensures.{Ensures, by_pure, by_bind, by_execute, by_require, by_consequence}
use flagbase.Ids.Laws.{new_id-same, id_or_new-same}
use flagbase.Sorting.{Sorting}
use flagbase.Feature.{Rule}
use flagbase.Feature.Tables.{
  Tables, insert_flag_row, insert_rule_row, insert_variant, upsert_override, update_status,
}
use flagbase.Feature.Tables.Sound.{
  IsSound, Sound, insert_flag_row-IsSound, insert_rule_row-IsSound, insert_variant-IsSound,
  upsert_override-IsSound, update_flag_row-IsSound, update_status-IsSound,
}
use flagbase.Feature.Tables.Deletion.{
  delete_flag_row-IsSound, delete_variant_rows-IsSound, delete_override_rows-IsSound,
}
use flagbase.Feature.Engine.{
  Engine, is_status, sql, exec, reload, insert_rule, insert_rules, create_flag, update_flag,
  transition_status, delete_flag, create_variant, delete_variant, create_override, delete_override,
}
use flagbase.Feature.Engine.Steps.{by_sql}
use flagbase.Feature.Engine.Caching.{
  Request, create, update, transition, delete, add_variant, drop_variant, pin, unpin, perform,
  reload-view,
}

-- An operation that leaves sound tables, however it ends.
abbrev pub Guards : {A : Type 0} → Engine → Op Engine A → Type 0
Guards e m = Ensures e m (λ _ u. IsSound u.db) (λ _ u. IsSound u.db)

Sound-of :
    {A : Type 0} (r : Result (A × Tables)) {a : A} {t : Tables}
    → Sound r
    → r ≡ ok (a, t)
    → IsSound t
Sound-of (ok (b, u)) s h = subst IsSound (cc) s
Sound-of (err x) s h = absurd (cc)

back : {e u : Engine} → u ≡ e → IsSound e.db → IsSound u.db
back k s = subst (λ (v : Engine). IsSound v.db) (sym k) s

sql-Guards :
    {A B : Type 0} (f : Tables → Result (A × Tables)) (k : A → Op Engine B) (e : Engine)
    → IsSound e.db
    → Sound (f e.db)
    → ((a : A) (u : Engine) → IsSound u.db → Guards u (k a))
    → Guards e (sql f >>= k)
sql-Guards f k e s h n = by_sql e f s (λ x q. s) λ a t q. n a _ (Sound-of (f e.db) h q)

insert_rule-Guards : (r : Rule) (e : Engine) → IsSound e.db → Guards e (insert_rule r)
unfolding insert_rule
insert_rule-Guards r e s =
    by_bind (λ _ u. u ≡ e) (by_consequence (id_or_new-same r.id e) (λ _ u k. k) (λ _ u k. back k s))
      λ id u k.
        sql-Guards (insert_rule_row (record r { id = id })) _ u (back k s)
          (insert_rule_row-IsSound _ u.db (back k s)) λ a v q. by_pure _ q

insert_rules-Guards :
    (key : String) (rs : List Rule) (e : Engine) → IsSound e.db → Guards e (insert_rules key rs)
unfolding insert_rules
insert_rules-Guards key [] e s = by_pure [] s
insert_rules-Guards key (r ∷ rs) e s =
    by_bind _ (insert_rule-Guards (record r { flag_key = key }) e s)
      λ q u h. by_bind _ (insert_rules-Guards key rs u h) λ qs v k. by_pure _ k

module _ (order : Sorting) where
  reload-Guards : (e : Engine) → IsSound e.db → Guards e (reload order)
  reload-Guards e s =
      by_consequence (reload-view order e) (λ _ u k. subst (λ (v : Engine). IsSound v.db) (sym k) s)
        (λ _ u k. back k s)

  exec-Guards :
      (f : Tables → Tables) (e : Engine)
      → IsSound e.db
      → IsSound (f e.db)
      → Guards e (exec f >> reload order)
  exec-Guards f e s h = by_execute _ _ s (reload-Guards _ h)

  -- Whatever the driver fails, and whether it returns or fails, a writing operation leaves tables
  -- with unique keys in which each rule, variant and override belongs to a flag.
  pub perform-IsSound : (r : Request) (e : Engine) → IsSound e.db → Guards e (perform order r)
  unfolding perform create_flag update_flag transition_status delete_flag create_variant
      delete_variant create_override delete_override
  perform-IsSound (create now f) e s =
      by_bind _
        (by_bind (λ _ u. u ≡ e)
          (by_consequence (id_or_new-same f.id e) (λ _ u k. k) (λ _ u k. back k s))
          λ id u k.
            sql-Guards (insert_flag_row _) _ u (back k s)
              (insert_flag_row-IsSound _ u.db (back k s))
              λ a v q.
                by_bind _ (insert_rules-Guards f.key f.rules v q)
                  λ rules w x. by_bind _ (reload-Guards w x) λ b y z. by_pure _ z)
        λ g u q. by_pure _ q
  perform-IsSound (update now f) e s =
      exec-Guards _ e s (update_flag_row-IsSound _ _ _ _ _ _ _ e.db s)
  perform-IsSound (transition now key status) e s =
      by_require (λ _. exec (update_status key status now) >> reload order) (is_status status)
        (unknown_status status)
        (λ _. exec-Guards _ e s (update_status-IsSound key status now e.db s)) λ _. s
  perform-IsSound (delete key) e s = exec-Guards _ e s (delete_flag_row-IsSound key e.db s)
  perform-IsSound (add_variant v) e s =
      by_bind (λ _ u. u ≡ e) (by_consequence (new_id-same e) (λ _ u k. k) (λ _ u k. back k s))
        λ id u k.
          sql-Guards (insert_variant _) _ u (back k s) (insert_variant-IsSound _ u.db (back k s))
            λ a w q. reload-Guards w q
  perform-IsSound (drop_variant flag_key key) e s =
      exec-Guards _ e s (delete_variant_rows-IsSound flag_key key e.db s)
  perform-IsSound (pin now o) e s =
      by_bind (λ _ u. u ≡ e) (by_consequence (new_id-same e) (λ _ u k. k) (λ _ u k. back k s))
        λ id u k.
          sql-Guards (upsert_override _) _ u (back k s) (upsert_override-IsSound _ u.db (back k s))
            λ a w q. reload-Guards w q
  perform-IsSound (unpin flag_key user_id) e s =
      exec-Guards _ e s (delete_override_rows-IsSound flag_key user_id e.db s)
