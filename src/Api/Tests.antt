-- ===== src/Api/Tests.antt =====
-- Runs of internal/api at small inputs.
use flagbase.Prelude.{String, true, false, ◌≡◌, refl, [], ◌∷◌, ◌++◌, arith, none, some}
use flagbase.Text.{codes, has_prefix, trim_prefix}
use flagbase.Db.{Session, ok, pure, statement, draw, Error}
use flagbase.Ids.{new_id, encode_to_string}
use flagbase.Sorting.Insertion.{insertion}
use flagbase.Admin.{refuses, consume}
use flagbase.Iam.{User, Service}
use flagbase.Iam.Tables.{Tables, insert_account, groups_of}
use flagbase.Iam.Accounts.{
  hash_password, register, login, issue_token, validate_token, group_names, user_group_names,
}
use flagbase.Iam.Tests.Crypto.{crypto, crypto-IsJwt, token}
use flagbase.Tracing.{new_trace_id}
use flagbase.Api.{failure, success}
use flagbase.Api.Middleware.{
  Handler, request_trace_id, trace_middleware, iam_context_middleware, require_role, protected,
}
use flagbase.Api.Auth.{Site, register_handler, login_handler, complete_setup}
use flagbase.Api.Guard.{Decided, Entered, protected-Decided, protected-register}

abbrev service : Service
service = record { jwt_secret = "secret"; token_ttl = 10 }

abbrev empty : Session Tables
empty = record {
  state = record { users = []; groups = []; user_groups = [] };
  faults = [];
  draws = some (1 ∷ []) ∷ [];
}

abbrev ann : User
ann = record {
  id = "01";
  email = "ann@x";
  role = "user";
  tenant_id = "default";
  groups = [];
  created_at = 3;
}

abbrev filled : Session Tables
filled = (register crypto 3 "ann@x" "pw" "user" "default" empty).1

-- What a run looks into.
running : Unit {0}
unfolding register login issue_token validate_token group_names user_group_names groups_of
    hash_password insert_account new_id draw statement encode_to_string insertion has_prefix
    trim_prefix protected trace_middleware iam_context_middleware require_role request_trace_id
    new_trace_id register_handler login_handler complete_setup consume refuses
running = tt

registered : register crypto 3 "ann@x" "pw" "user" "default" empty ≡ (ok ann, filled)
unfolding running
registered = refl

logged_in : login insertion crypto service 5 "ann@x" "pw" filled ≡ (ok token, filled)
unfolding running
logged_in = refl

-- A handler that answers with the role of the caller.
abbrev hello : Handler Tables String
hello ctx = elim ctx.claims [ none ↦ pure (success 200 "") | some c ↦ pure (success 200 c.role) ]

admitted :
    (protected crypto service 9 "t" (codes "Bearer " ++ token) "user" hello empty).0
    ≡ ok (success 200 "user")
unfolding running
admitted = refl

wrong_role :
    (protected crypto service 9 "t" (codes "Bearer " ++ token) "developer" hello empty).0
    ≡ ok (failure 403 "forbidden")
unfolding running
wrong_role = refl

anonymous : (protected crypto service 9 "" [] "user" hello empty).0 ≡ ok (failure 403 "forbidden")
unfolding running
anonymous = refl

abbrev describe : Error → String
describe e = "error"

abbrev start : Session Site
start = record {
  state = record {
    accounts = record { users = []; groups = []; user_groups = [] };
    setup = record { token = "s"; expires_at = 905; consumed = false };
  };
  faults = [];
  draws = some (1 ∷ []) ∷ [];
}

-- The body of the public registration asks for the role.
self_made :
    (register_handler describe crypto 3
      (some (record { email = "eve@x"; password = "pw"; role = "admin" }))
      start).0
    ≡ ok (
        success 201 (record {
          id = "01";
          email = "eve@x";
          role = "admin";
          tenant_id = "default";
          groups = [];
          created_at = 3;
        }))
unfolding running
self_made = refl

spent :
    (complete_setup describe crypto service 3
      (some (record { token = "s"; email = "ann@x"; password = "pw" }))
      start).1.state.setup.consumed
    ≡ true
unfolding running
spent = refl

protected-Decided_example :
    Decided crypto service 9 "user" hello
      (codes "Bearer " ++ token)
      empty
      (protected crypto service 9 "t" (codes "Bearer " ++ token) "user" hello empty)
protected-Decided_example =
    protected-Decided crypto service 9 "user" hello "t" (codes "Bearer " ++ token) empty

protected-register_example :
    Entered ann "user" "" hello filled
      (protected crypto service 9 "" (codes "Bearer " ++ token) "user" hello filled)
protected-register_example =
    protected-register insertion crypto service crypto-IsJwt 3 5 9 "ann@x" "pw" "user" "default" ""
      empty filled filled ann token hello filled registered logged_in (omega arith)
