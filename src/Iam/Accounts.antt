-- ===== src/Iam/Accounts.antt =====
-- internal/iam/service.go: accounts, groups and tokens.
pub mod Tokens
pub mod Login
pub mod Registering
pub mod Leaving
use flagbase.Prelude.{
  ℕ, ◌+◌, String, Bool, true, false, not, ◌||◌, List, [], ◌∷◌, map, first, eqb, leb, Option, none,
  some, ◌==◌, if◌then◌else◌,
}
use flagbase.Text.{codes, trim_prefix}
use flagbase.Db.{
  Error, unique, user_not_found, invalid_password, user_exists, group_not_found, group_exists,
  invalid_role, signing_failed, bad_token, Result, ok, err, Op, pure, raise, lift, require, renamed,
  statement, execute, query, ◌>>=◌, ◌>>◌,
}
use flagbase.Ids.{new_id, encode_to_string}
use flagbase.Sorting.{Sorting, count, leb_text}
use flagbase.Iam.{User, Group, Claims, Service, Crypto}
use flagbase.Iam.Tables.{
  Account, GroupRow, Membership, Tables, insert_account, insert_group, insert_membership,
  delete_account, delete_group_row, update_role, delete_membership, groups_of, members_of,
}

unfoldable new_service : String → ℕ → Service
new_service jwt_secret token_ttl = record { jwt_secret = jwt_secret; token_ttl = token_ttl }

unfoldable pub is_role : String → Bool
is_role role = role == "admin" || role == "developer" || role == "user"

-- The User that a row of users is read into.
abbrev pub user_of : Account → List String → User
user_of a groups = record {
  id = a.id;
  email = a.email;
  role = a.role;
  tenant_id = a.tenant_id;
  groups = groups;
  created_at = a.created_at;
}

abbrev pub group_of : GroupRow → ℕ → Group
group_of g members = record {
  id = g.id;
  name = g.name;
  description = g.description;
  member_count = members;
  created_at = g.created_at;
}

-- The key function of ValidateToken: the secret, for an HMAC only.
abbrev pub key_of : Service → Bool → Option String
key_of service true = some service.jwt_secret
key_of service false = none

abbrev pub claims_of : Service → ℕ → User → Claims
claims_of service now u = record {
  user_id = u.id;
  email = u.email;
  tenant_id = u.tenant_id;
  role = u.role;
  groups = u.groups;
  expires_at = now + service.token_ttl;
  issued_at = now;
}

abbrev pub or_fail : {A : Type 0} → Option A → Error → Result A
or_fail none e = err e
or_fail (some a) e = ok a

-- A test of the rows affected.
abbrev pub affected : ℕ → Error → Op Tables (Unit {0})
affected n e = require (not (eqb n 0)) e

module _ (crypto : Crypto) where
  unfoldable pub hash_password : String → String
  unfolding encode_to_string
  hash_password password = encode_to_string (crypto.sum256 password)

  unfoldable pub register : ℕ → String → String → String → String → Op Tables User
  unfolding new_id hash_password insert_account
  register now email password role tenant_id = do
    id ← new_id
    row ← renamed user_exists (
        statement (
          insert_account (record {
            id = id;
            email = email;
            password = hash_password password;
            role = role;
            tenant_id = tenant_id;
            created_at = now;
          })))
    pure (user_of row [])

  module _ (service : Service) where
    unfoldable pub issue_token : ℕ → User → Result (List ℕ)
    issue_token now u =
        or_fail (crypto.sign service.jwt_secret (claims_of service now u)) signing_failed

    unfoldable pub validate_token : ℕ → List ℕ → Result Claims
    unfolding trim_prefix
    validate_token now token =
        or_fail (crypto.parse (key_of service) now (trim_prefix token (codes "Bearer "))) bad_token

unfoldable pub count_admins : Op Tables ℕ
count_admins = query (λ t. count (λ u. u.role == "admin") t.users)

module _ (order : Sorting) where
  unfoldable pub group_names : String → Tables → List String
  unfolding groups_of
  group_names user_id t =
      map (λ g. g.name) (order.sort GroupRow (λ g h. leb_text g.name h.name) (groups_of user_id t))

  unfoldable pub user_group_names : String → Op Tables (List String)
  unfolding group_names
  user_group_names user_id = query (group_names user_id)

  -- The loop of ListUsers that adds the groups.
  unfoldable pub with_groups : List Account → Op Tables (List User)
  unfolding user_group_names
  with_groups [] = pure []
  with_groups (a ∷ rows) = do
    groups ← user_group_names a.id
    rest ← with_groups rows
    pure (user_of a groups ∷ rest)

  unfoldable pub list_users : Op Tables (List User)
  unfolding with_groups
  list_users = do
    rows ← query (λ t. order.sort Account (λ u v. leb v.created_at u.created_at) t.users)
    with_groups rows

  unfoldable pub list_groups : Op Tables (List Group)
  list_groups = query λ t.
      map (λ g. group_of g (count (λ m. m.group_id == g.id) t.user_groups))
        (order.sort GroupRow (λ g h. leb h.created_at g.created_at) t.groups)

  unfoldable pub list_group_members : String → Op Tables (List User)
  unfolding members_of
  list_group_members group_id = query λ t.
      map (λ u. user_of u [])
        (order.sort Account (λ u v. leb v.created_at u.created_at) (members_of group_id t))

  module _ (crypto : Crypto) (service : Service) where
    -- Login once the row of the user is read.
    abbrev pub check_login : ℕ → String → Option Account → Op Tables (List ℕ)
    check_login now password none = raise user_not_found
    check_login now password (some a) = do
      require (a.password == hash_password crypto password) invalid_password
      groups ← user_group_names a.id
      lift (issue_token crypto service now (user_of a groups))

    unfoldable pub login : ℕ → String → String → Op Tables (List ℕ)
    unfolding user_group_names hash_password issue_token
    login now email password = do
      found ← query (λ t. first (λ u. u.email == email) t.users)
      check_login now password found

unfoldable pub delete_user : String → Op Tables (Unit {0})
unfolding delete_account
delete_user id = do n ← statement (delete_account id); affected n user_not_found

unfoldable pub update_user_role : String → String → Op Tables (Unit {0})
unfolding is_role update_role
update_user_role user_id role = do
  require (is_role role) invalid_role
  n ← statement (update_role role user_id)
  affected n user_not_found

unfoldable pub create_group : ℕ → String → String → Op Tables Group
unfolding new_id insert_group
create_group now name description = do
  id ← new_id
  row ← renamed group_exists (
      statement (
        insert_group
          (record { id = id; name = name; description = description; created_at = now })))
  pure (group_of row 0)

unfoldable pub delete_group : String → Op Tables (Unit {0})
unfolding delete_group_row
delete_group id = do n ← statement (delete_group_row id); affected n group_not_found

unfoldable pub add_user_to_group : String → String → Op Tables (Unit {0})
unfolding insert_membership
add_user_to_group user_id group_id =
    statement (insert_membership (record { user_id = user_id; group_id = group_id }))

unfoldable pub remove_user_from_group : String → String → Op Tables (Unit {0})
unfolding delete_membership
remove_user_from_group user_id group_id = execute (delete_membership user_id group_id)
