-- ===== src/Iam/Sound.antt =====
-- The constraints of the tables of accounts, kept by every statement.
pub mod Requests
use flagbase.Prelude.{
  ℕ, String, Bool, true, false, not, ◌&&◌, ◌||◌, ◌≡◌, refl, sym, ap, ◌∙◌, List, [], ◌∷◌, ◌++◌,
  arith, ◌==◌, eq_iff, any, keep, subst, update_where, All, Distinct, Distinct-append,
  Distinct-keep, Distinct-update_where, All-append, All-keep, All-keep_imp, All-imp, any-append,
  any-keep, any-update_where, if◌then◌else◌,
}
use flagbase.Db.{
  Error, driver, unique, foreign_key, user_exists, group_exists, invalid_role, user_not_found,
  group_not_found, Result, ok, err, Op, pure, statement, require, renamed, ◌>>=◌, ◌>>◌,
}
use flagbase.Db.Ensures.{
  Ensures, by_pure, by_raise, by_bind, by_statement, by_require, by_consequence, by_renamed,
  last_statement, last_execute, anything,
}
use flagbase.Ids.{new_id}
use flagbase.Ids.Laws.{new_id-same}
use flagbase.Iam.{User, Group, Crypto}
use flagbase.Iam.Tables.{
  Account, GroupRow, Membership, Tables, has_user, has_group, same_account, same_group,
  same_membership, insert_account, insert_group, insert_membership, delete_account,
  delete_group_row, update_role, delete_membership,
}
use flagbase.Iam.Accounts.{
  hash_password, register, is_role, affected, user_of, group_of, delete_user, update_user_role,
  create_group, delete_group, add_user_to_group, remove_user_from_group,
}

-- Identifiers, addresses and group names are unique, no membership is there twice, and each is
-- that of a user in a group.
pub record IsSound (t : Tables) : Type 0 where
  pub accounts : Distinct same_account t.users
  pub groups : Distinct same_group t.groups
  pub memberships : Distinct same_membership t.user_groups
  pub of_users : All (λ m. has_user t m.user_id ≡ true) t.user_groups
  pub of_groups : All (λ m. has_group t m.group_id ≡ true) t.user_groups

-- A statement that may break a constraint: it is sound if it goes through.
abbrev pub Sound : {A : Type 0} → Result (A × Tables) → Type 0
Sound (ok (a, t)) = IsSound t
Sound (err e) = Unit

pub insert_account-IsSound : (a : Account) (t : Tables) → IsSound t → Sound (insert_account a t)
unfolding insert_account
insert_account-IsSound a t s = go (any (λ v. same_account v a) t.users) refl
  where
    still : (id : String) → has_user t id ≡ true → any (λ u. u.id == id) (t.users ++ a ∷ []) ≡ true
    still id h = ground (arith, any-append (λ (u : Account). u.id == id) t.users a)

    go :
        (b : Bool)
        → any (λ v. same_account v a) t.users ≡ b
        → Sound (if b then err unique else ok (a, record t { users = t.users ++ a ∷ [] }))
    go true e = tt
    go false e = record {
      accounts = Distinct-append same_account t.users a s.accounts e;
      groups = s.groups;
      memberships = s.memberships;
      of_users = All-imp _ _ t.user_groups (λ m. still m.user_id) s.of_users;
      of_groups = s.of_groups;
    }

pub insert_group-IsSound : (g : GroupRow) (t : Tables) → IsSound t → Sound (insert_group g t)
unfolding insert_group
insert_group-IsSound g t s = go (any (λ h. same_group h g) t.groups) refl
  where
    still :
        (id : String) → has_group t id ≡ true → any (λ h. h.id == id) (t.groups ++ g ∷ []) ≡ true
    still id h = ground (arith, any-append (λ (k : GroupRow). k.id == id) t.groups g)

    go :
        (b : Bool)
        → any (λ h. same_group h g) t.groups ≡ b
        → Sound (if b then err unique else ok (g, record t { groups = t.groups ++ g ∷ [] }))
    go true e = tt
    go false e = record {
      accounts = s.accounts;
      groups = Distinct-append same_group t.groups g s.groups e;
      memberships = s.memberships;
      of_users = s.of_users;
      of_groups = All-imp _ _ t.user_groups (λ m. still m.group_id) s.of_groups;
    }

pub insert_membership-IsSound :
    (m : Membership) (t : Tables) → IsSound t → Sound (insert_membership m t)
unfolding insert_membership
insert_membership-IsSound m t s =
    go (any (λ n. same_membership n m) t.user_groups) (has_user t m.user_id)
      (has_group t m.group_id) refl refl refl
  where
    go :
        (b c d : Bool)
        → any (λ n. same_membership n m) t.user_groups ≡ b
        → has_user t m.user_id ≡ c
        → has_group t m.group_id ≡ d
        → Sound (
            if b
            then ok (tt, t)
            else if c && d
            then ok (tt, record t { user_groups = t.user_groups ++ m ∷ [] })
            else err foreign_key)
    go true c d e f g = s
    go false false d e f g = tt
    go false true false e f g = tt
    go false true true e f g = record {
      accounts = s.accounts;
      groups = s.groups;
      memberships = Distinct-append same_membership t.user_groups m s.memberships e;
      of_users = All-append _ t.user_groups m s.of_users f;
      of_groups = All-append _ t.user_groups m s.of_groups g;
    }

pub delete_account-IsSound : (id : String) (t : Tables) → IsSound t → Sound (delete_account id t)
unfolding delete_account
delete_account-IsSound id t s = record {
  accounts = Distinct-keep same_account _ t.users s.accounts;
  groups = s.groups;
  memberships = Distinct-keep same_membership _ t.user_groups s.memberships;
  of_users = All-keep_imp _ _ _ t.user_groups (λ m. still m.user_id) s.of_users;
  of_groups = All-keep _ _ t.user_groups s.of_groups;
}
  where
    still :
        (other : String)
        → has_user t other ≡ true
        → not (other == id) ≡ true
        → any (λ u. u.id == other) (keep (λ u. not (u.id == id)) t.users) ≡ true
    still other h n =
        any-keep (λ u. u.id == other) (λ u. not (u.id == id)) t.users
          (λ u e. ground (arith, eq_iff u.id other, eq_iff u.id id, eq_iff other id))
        ∙ h

pub delete_group_row-IsSound :
    (id : String) (t : Tables) → IsSound t → Sound (delete_group_row id t)
unfolding delete_group_row
delete_group_row-IsSound id t s = record {
  accounts = s.accounts;
  groups = Distinct-keep same_group _ t.groups s.groups;
  memberships = Distinct-keep same_membership _ t.user_groups s.memberships;
  of_users = All-keep _ _ t.user_groups s.of_users;
  of_groups = All-keep_imp _ _ _ t.user_groups (λ m. still m.group_id) s.of_groups;
}
  where
    still :
        (other : String)
        → has_group t other ≡ true
        → not (other == id) ≡ true
        → any (λ g. g.id == other) (keep (λ g. not (g.id == id)) t.groups) ≡ true
    still other h n =
        any-keep (λ g. g.id == other) (λ g. not (g.id == id)) t.groups
          (λ g e. ground (arith, eq_iff g.id other, eq_iff g.id id, eq_iff other id))
        ∙ h

pub update_role-IsSound :
    (role id : String) (t : Tables) → IsSound t → Sound (update_role role id t)
unfolding update_role
update_role-IsSound role id t s = record {
  accounts = Distinct-update_where same_account _ _ t.users (λ x y. refl) (λ x y. refl) s.accounts;
  groups = s.groups;
  memberships = s.memberships;
  of_users = All-imp _ _ t.user_groups (λ m. still m.user_id) s.of_users;
  of_groups = s.of_groups;
}
  where
    still :
        (other : String)
        → has_user t other ≡ true
        → any
            (λ u. u.id == other)
            (update_where (λ u. u.id == id) (λ u. record u { role = role }) t.users)
          ≡ true
    still other h = any-update_where (λ u. u.id == other) _ _ t.users (λ u. refl) ∙ h

pub delete_membership-IsSound :
    (user_id group_id : String) (t : Tables)
    → IsSound t
    → IsSound (delete_membership user_id group_id t)
unfolding delete_membership
delete_membership-IsSound user_id group_id t s = record {
  accounts = s.accounts;
  groups = s.groups;
  memberships = Distinct-keep same_membership _ t.user_groups s.memberships;
  of_users = All-keep _ _ t.user_groups s.of_users;
  of_groups = All-keep _ _ t.user_groups s.of_groups;
}
