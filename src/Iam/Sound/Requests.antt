-- ===== src/Iam/Sound/Requests.antt =====
-- The constraints of the tables of accounts, kept by every operation.
use flagbase.Prelude.{ℕ, String, Bool, true, false, sym, subst}
use flagbase.Db.{
  Error, user_exists, group_exists, invalid_role, user_not_found, group_not_found, Result, Op, pure,
  statement, require, ◌>>=◌,
}
use flagbase.Db.Ensures.{
  Ensures, by_pure, by_raise, by_bind, by_require, by_consequence, by_renamed, last_statement,
  last_execute,
}
use flagbase.Ids.{new_id}
use flagbase.Ids.Laws.{new_id-same}
use flagbase.Iam.{Crypto}
use flagbase.Iam.Tables.{Tables}
use flagbase.Iam.Accounts.{
  register, is_role, affected, delete_user, update_user_role, create_group, delete_group,
  add_user_to_group, remove_user_from_group,
}
use flagbase.Iam.Sound.{
  IsSound, Sound, insert_account-IsSound, insert_group-IsSound, insert_membership-IsSound,
  delete_account-IsSound, delete_group_row-IsSound, update_role-IsSound, delete_membership-IsSound,
}

-- The operations of the service that write.
pub data Request : Type 0 where
  sign_up : ℕ → String → String → String → String → Request
  remove : String → Request
  change_role : String → String → Request
  found : ℕ → String → String → Request
  disband : String → Request
  join : String → String → Request
  leave : String → String → Request

unfoldable pub perform : Crypto → Request → Op Tables (Unit {0})
perform crypto (sign_up now email password role tenant_id) = do
  _ ← register crypto now email password role tenant_id
  pure tt
perform crypto (remove id) = delete_user id
perform crypto (change_role user_id role) = update_user_role user_id role
perform crypto (found now name description) = do _ ← create_group now name description; pure tt
perform crypto (disband id) = delete_group id
perform crypto (join user_id group_id) = add_user_to_group user_id group_id
perform crypto (leave user_id group_id) = remove_user_from_group user_id group_id

abbrev pub Kept : {A : Type 0} → Tables → Op Tables A → Type 0
Kept t m = Ensures t m (λ _ u. IsSound u) (λ _ u. IsSound u)

statement-Kept :
    {A : Type 0} (sql : Tables → Result (A × Tables)) (t : Tables)
    → IsSound t
    → Sound (sql t)
    → Kept t (statement sql)
statement-Kept sql t s h = last_statement sql s (λ _ _. s) λ a u e. subst Sound e h

require-Kept : (b : Bool) (e : Error) (t : Tables) → IsSound t → Kept t (require b e)
require-Kept true e t s = by_pure tt s
require-Kept false e t s = by_raise e s

-- A statement and the test of the rows that it affects.
counted-Kept :
    (sql : Tables → Result (ℕ × Tables)) (e : Error) (t : Tables)
    → IsSound t
    → Sound (sql t)
    → Kept t (statement sql >>= λ n. affected n e)
counted-Kept sql e t s h =
    by_bind (λ _ u. IsSound u) (statement-Kept sql t s h) λ n u k. require-Kept _ e u k

id-Kept : (t : Tables) → IsSound t → Kept t new_id
id-Kept t s =
    by_consequence (new_id-same t) (λ _ u q. subst IsSound (sym q) s)
      (λ _ u q. subst IsSound (sym q) s)

-- Every operation that writes, under any faults and however it ends, keeps the tables sound.
pub perform_keeps :
    (crypto : Crypto) (r : Request) (t : Tables)
    → IsSound t
    → Ensures t (perform crypto r) (λ _ u. IsSound u) (λ _ u. IsSound u)
unfolding perform register delete_user update_user_role create_group delete_group add_user_to_group
    remove_user_from_group
perform_keeps crypto (sign_up now email password role tenant_id) t s =
    by_bind (λ _ u. IsSound u)
      (by_bind (λ _ u. IsSound u) (id-Kept t s)
        λ id u k.
          by_bind (λ _ v. IsSound v)
            (by_renamed user_exists (statement-Kept _ u k (insert_account-IsSound _ u k)))
            λ row v h. by_pure _ h)
      λ _ u h. by_pure tt h
perform_keeps crypto (remove id) t s =
    counted-Kept _ user_not_found t s (delete_account-IsSound id t s)
perform_keeps crypto (change_role user_id role) t s =
    by_require _ (is_role role) invalid_role
      (λ _. counted-Kept _ user_not_found t s (update_role-IsSound role user_id t s)) λ _. s
perform_keeps crypto (found now name description) t s =
    by_bind (λ _ u. IsSound u)
      (by_bind (λ _ u. IsSound u) (id-Kept t s)
        λ id u k.
          by_bind (λ _ v. IsSound v)
            (by_renamed group_exists (statement-Kept _ u k (insert_group-IsSound _ u k)))
            λ row v h. by_pure _ h)
      λ _ u h. by_pure tt h
perform_keeps crypto (disband id) t s =
    counted-Kept _ group_not_found t s (delete_group_row-IsSound id t s)
perform_keeps crypto (join user_id group_id) t s =
    statement-Kept _ t s (insert_membership-IsSound _ t s)
perform_keeps crypto (leave user_id group_id) t s =
    last_execute _ s (delete_membership-IsSound user_id group_id t s)
