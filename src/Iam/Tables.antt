-- ===== src/Iam/Tables.antt =====
-- internal/database/db.go: the tables of accounts, with the statements of internal/iam/service.go.
use flagbase.Prelude.{
  ℕ, String, Bool, not, ◌&&◌, ◌||◌, List, [], ◌∷◌, ◌++◌, any, keep, ◌==◌, update_where,
  if◌then◌else◌,
}
use flagbase.Db.{unique, foreign_key, Result, ok, err}
use flagbase.Sorting.{count}

-- A row of users.
pub record Account : Type 0 where
  pub id : String
  pub email : String
  pub password : String
  pub role : String
  pub tenant_id : String
  pub created_at : ℕ

-- A row of groups.
pub record GroupRow : Type 0 where
  pub id : String
  pub name : String
  pub description : String
  pub created_at : ℕ

-- A row of user_groups.
pub record Membership : Type 0 where
  pub user_id : String
  pub group_id : String

pub record Tables : Type 0 where
  pub users : List Account
  pub groups : List GroupRow
  pub user_groups : List Membership

abbrev pub has_user : Tables → String → Bool
has_user t id = any (λ u. u.id == id) t.users

abbrev pub has_group : Tables → String → Bool
has_group t id = any (λ g. g.id == id) t.groups

abbrev pub same_account : Account → Account → Bool
same_account u v = u.id == v.id || u.email == v.email

abbrev pub same_group : GroupRow → GroupRow → Bool
same_group g h = g.id == h.id || g.name == h.name

abbrev pub same_membership : Membership → Membership → Bool
same_membership m n = m.user_id == n.user_id && m.group_id == n.group_id

unfoldable pub insert_account : Account → Tables → Result (Account × Tables)
insert_account u t =
    if any (λ v. same_account v u) t.users
    then err unique
    else ok (u, record t { users = t.users ++ u ∷ [] })

unfoldable pub insert_group : GroupRow → Tables → Result (GroupRow × Tables)
insert_group g t =
    if any (λ h. same_group h g) t.groups
    then err unique
    else ok (g, record t { groups = t.groups ++ g ∷ [] })

-- INSERT OR IGNORE: a row that is there is passed over, a foreign key is still checked.
unfoldable pub insert_membership : Membership → Tables → Result (Unit {0} × Tables)
insert_membership m t =
    if any (λ n. same_membership n m) t.user_groups
    then ok (tt, t)
    else if has_user t m.user_id && has_group t m.group_id
    then ok (tt, record t { user_groups = t.user_groups ++ m ∷ [] })
    else err foreign_key

-- Each DELETE and UPDATE gives the number of rows that it affects.
unfoldable pub delete_account : String → Tables → Result (ℕ × Tables)
delete_account id t = ok (
  count (λ u. u.id == id) t.users,
  record t {
    users = keep (λ u. not (u.id == id)) t.users;
    user_groups = keep (λ m. not (m.user_id == id)) t.user_groups;
  },
)

unfoldable pub delete_group_row : String → Tables → Result (ℕ × Tables)
delete_group_row id t = ok (
  count (λ g. g.id == id) t.groups,
  record t {
    groups = keep (λ g. not (g.id == id)) t.groups;
    user_groups = keep (λ m. not (m.group_id == id)) t.user_groups;
  },
)

unfoldable pub update_role : String → String → Tables → Result (ℕ × Tables)
update_role role id t = ok (
  count (λ u. u.id == id) t.users,
  record t { users = update_where (λ u. u.id == id) (λ u. record u { role = role }) t.users },
)

unfoldable pub delete_membership : String → String → Tables → Tables
delete_membership user_id group_id t = record t {
  user_groups = keep (λ m. not (m.user_id == user_id && m.group_id == group_id)) t.user_groups;
}

-- The rows of the first table once for each row of the second that fits.
abbrev pub matches : {A B : Type 0} → (A → B → Bool) → A → List B → List A → List A
matches on a [] rest = rest
matches on a (b ∷ bs) rest = let more = matches on a bs rest in if on a b then a ∷ more else more

abbrev pub join_rows : {A B : Type 0} → (A → B → Bool) → List A → List B → List A
join_rows on [] bs = []
join_rows on (a ∷ rows) bs = matches on a bs (join_rows on rows bs)

-- The groups of a user.
unfoldable pub groups_of : String → Tables → List GroupRow
groups_of user_id t =
    join_rows (λ g m. m.group_id == g.id) t.groups (keep (λ m. m.user_id == user_id) t.user_groups)

-- The users of a group.
unfoldable pub members_of : String → Tables → List Account
members_of group_id t =
    join_rows (λ u m. m.user_id == u.id) t.users (keep (λ m. m.group_id == group_id) t.user_groups)
