-- ===== src/Api/Guard.antt =====
-- Who gets past the middleware.
use flagbase.Prelude.{
  ℕ, ◌+◌, ◌<◌, String, Bool, true, false, not, ◌&&◌, ◌≡◌, ◌≢◌, refl, sym, ap, ◌∙◌, ◌⊎◌, inl, inr,
  List, [], ◌∷◌, ◌++◌, Option, none, some, ◌==◌, eq_iff, arith, Bool-cases, subst,
}
use flagbase.Text.{codes}
use flagbase.Db.{Result, ok, err, Session, draw, after}
use flagbase.Sorting.{Sorting}
use flagbase.Iam.{User, Claims, Service, Crypto, IsJwt}
use flagbase.Ids.{encode_to_string}
use flagbase.Iam.Tables
use flagbase.Db.Ensures.{on_ok}
use flagbase.Iam.Tables.{Account}
use flagbase.Iam.Accounts.{register, login, validate_token, group_names, user_of}
use flagbase.Iam.Accounts.Registering.{Registered, register-Registered}
use flagbase.Iam.Accounts.Login.{Authentic, login-Authentic}
use flagbase.Iam.Accounts.Tokens.{validate_token-issue_token}
use flagbase.Tracing.{new_trace_id}
use flagbase.Api.{RequestContext, Reply, failure}
use flagbase.Api.Middleware.{
  Handler, request_trace_id, trace_middleware, with_claims, authorized, iam_context_middleware,
  for_role, require_role, protected,
}

-- A reply of the middleware itself.
pub data IsRefusal {B : Type 0} : Result (Reply B) → Type 0 where
  unauthorized : IsRefusal (ok (failure 401 "unauthorized"))
  forbidden : IsRefusal (ok (failure 403 "forbidden"))

-- The trace of a request: whatever it is, there is one, and the state stays.
pub record Traced {T : Type 0} (header : String) (s : Session T) : Type 0 where
  pub trace_id : String
  pub left : Session T
  pub done : request_trace_id header s ≡ (ok trace_id, left)
  pub same : left.state ≡ s.state

new_trace_id_left :
    {T : Type 0} (t : T) (f : List Bool) (d : List (Option (List ℕ)))
    → (id : String) × (left : Session T) × (new_trace_id
          (record { state = t; faults = f; draws = d })
        ≡ (ok id, left))
      × (left.state ≡ t)
unfolding new_trace_id draw
new_trace_id_left t f [] =
    ("00000000000000000000000000000000", record { state = t; faults = f; draws = [] }, refl, refl)
new_trace_id_left t f (none ∷ d) =
    ("00000000000000000000000000000000", record { state = t; faults = f; draws = d }, refl, refl)
new_trace_id_left t f (some b ∷ d) =
    (encode_to_string b, record { state = t; faults = f; draws = d }, refl, refl)

request_trace_id-Traced : {T : Type 0} (header : String) (s : Session T) → Traced header s
unfolding request_trace_id
request_trace_id-Traced {T} header s = elim (Bool-cases (header == "")) [
  | inl e ↦
      let r = new_trace_id_left s.state s.faults s.draws in
      record { trace_id = r.0; left = r.1; done = rw e r.2; same = r.3 }
  | inr e ↦ record { trace_id = header; left = s; done = rw e refl; same = refl }
]

header_given :
    {T : Type 0} (header : String) (s : Session T) (t : Traced header s)
    → header ≢ ""
    → (t.trace_id ≡ header) × (t.left ≡ s)
unfolding request_trace_id
header_given {T} header s t named =
    let blank : (header == "") ≡ false = ground (arith, eq_iff header "") in
    let done : ◌≡◌ {A = Result String × Session T} (ok header, s) (ok t.trace_id, t.left) =
      sym (rw blank refl) ∙ t.done in
    (cc, cc)

module _ {T B : Type 0} where
  -- The handler has been run for claims that the token of the request carries and that have the
  -- role.
  pub record Admitted (crypto : Crypto) (service : Service) (now : ℕ) (authorization : List ℕ)
      (role : String) (next : Handler T B) (s : Session T) (r : Result (Reply B) × Session T)
      : Type 0 where
    pub claims : Claims
    pub trace_id : String
    pub start : Session T
    pub same : start.state ≡ s.state
    pub valid : validate_token crypto service now authorization ≡ ok claims
    pub in_role : (claims.role ≡ role) ⊎ (claims.role ≡ "admin")
    pub run : r ≡ next (record { claims = some claims; trace_id = trace_id }) start

  module _ (crypto : Crypto) (service : Service) (now : ℕ) (role : String)
      (next : Handler T B) where
    abbrev pub Decided : List ℕ → Session T → Result (Reply B) × Session T → Type 0
    Decided authorization s r =
        (IsRefusal r.0 × (r.1.state ≡ s.state))
        ⊎ Admitted crypto service now authorization role next s r

    role-Decided :
        (authorization : List ℕ) (c : Claims) (trace : String) (s s' : Session T)
        → s'.state ≡ s.state
        → validate_token crypto service now authorization ≡ ok c
        → Decided authorization s
            (for_role role next (record { claims = some c; trace_id = trace }) (some c) s')
    role-Decided authorization c trace s s' q v =
        elim (Bool-cases (not (c.role == role) && not (c.role == "admin"))) [
          | inl e ↦ inl (rw (e, for_role) (forbidden, q))
          | inr e ↦ inr (record {
            claims = c;
            trace_id = trace;
            start = s';
            same = q;
            valid = v;
            in_role = ground (arith, eq_iff c.role role, eq_iff c.role "admin");
            run = rw (e, for_role) refl;
          })
        ]

    claims-Decided :
        (authorization : List ℕ) (trace : String) (s s' : Session T)
        → s'.state ≡ s.state
        → Decided authorization s (
            authorized
              (validate_token crypto service now)
              authorization
              (require_role role next)
              (record { claims = none; trace_id = trace })
              s')
    unfolding require_role
    claims-Decided [] trace s s' q = inl (forbidden, q)
    claims-Decided (x ∷ xs) trace s s' q = go (validate_token crypto service now (x ∷ xs)) refl
      where
        go :
            (v : Result Claims)
            → validate_token crypto service now (x ∷ xs) ≡ v
            → Decided (x ∷ xs) s (
                with_claims
                  (require_role role next)
                  (record { claims = none; trace_id = trace })
                  v
                  s')
        go (err e) h = inl (unauthorized, q)
        go (ok c) h = role-Decided (x ∷ xs) c trace s s' q h

    -- A request to a protected route is refused by the middleware, which then has changed nothing,
    -- or its token validates to claims with the role of the route or with `admin`, and the handler
    -- runs once, for these claims.
    pub protected-Decided :
        (header : String) (authorization : List ℕ) (s : Session T)
        → Decided authorization s (protected crypto service now header authorization role next s)
    unfolding protected trace_middleware iam_context_middleware
    protected-Decided header authorization s =
        let t : Traced header s = request_trace_id-Traced header s in
        subst (Decided authorization s)
          (sym (
            ap
              (after (λ id.
                authorized (validate_token crypto service now) authorization
                  (require_role role next) (record { claims = none; trace_id = id })))
              t.done))
          (claims-Decided authorization t.trace_id s t.left t.same)

  -- The handler has been run for the user, with the trace of the request: that of its header if
  -- it has one, else a new one.
  pub record Entered (u : User) (role header : String) (next : Handler T B) (s : Session T)
      (r : Result (Reply B) × Session T) : Type 0 where
    pub claims : Claims
    pub own : claims.user_id ≡ u.id
    pub in_role : claims.role ≡ role
    pub trace : Traced header s
    pub given : header ≢ "" → (trace.trace_id ≡ header) × (trace.left ≡ s)
    pub run : r ≡ next (record { claims = some claims; trace_id = trace.trace_id }) trace.left

  entered :
      (crypto : Crypto) (service : Service) (now : ℕ) (u : User) (role header : String)
      (authorization : List ℕ) (next : Handler T B) (c : Claims) (q : Session T)
      → authorization ≢ []
      → validate_token crypto service now authorization ≡ ok c
      → c.user_id ≡ u.id
      → c.role ≡ role
      → Entered u role header next q (protected crypto service now header authorization role next q)
  unfolding protected trace_middleware iam_context_middleware require_role
  entered crypto service now u role header [] next c q n valid own in_role = absurd (n refl)
  entered crypto service now u role header (x ∷ xs) next c q n valid own in_role =
      let t : Traced header q = request_trace_id-Traced header q in
      let ctx : RequestContext = record { claims = none; trace_id = t.trace_id } in
      let same : (c.role == role) ≡ true = ground (arith, eq_iff c.role role) in
      let admitted : with_claims (require_role role next) ctx (ok c) t.left
          ≡ next (record { claims = some c; trace_id = t.trace_id }) t.left =
        rw (same, for_role) refl in
      record {
        claims = c;
        own = own;
        in_role = in_role;
        trace = t;
        given = header_given header q t;
        run =
            ap
              (after (λ id.
                authorized (validate_token crypto service now) (x ∷ xs) (require_role role next)
                  (record { claims = none; trace_id = id })))
              t.done
            ∙ (ap (λ v. with_claims (require_role role next) ctx v t.left) valid ∙ admitted);
      }

  -- Whoever has registered with a role, whatever role they have asked for, gets to the handlers of
  -- that role: with the token that a login from the state after the registration gives them, every
  -- request runs the handler as long as the token has not expired, whether it has a trace header
  -- or not. No administrator takes part.
  pub protected-register :
      (order : Sorting) (crypto : Crypto) (service : Service) (jwt : IsJwt crypto)
      (now later last : ℕ) (email password role tenant_id header : String)
      (s r l : Session Tables.Tables) (u : User) (token : List ℕ) (next : Handler T B)
      (q : Session T)
      → register crypto now email password role tenant_id s ≡ (ok u, r)
      → login order crypto service later email password r ≡ (ok token, l)
      → last < later + service.token_ttl
      → Entered u role header next q
          (protected crypto service last header (codes "Bearer " ++ token) role next q)
  protected-register order crypto service jwt now later last email password role tenant_id header s
        r l u token next q done logged fresh =
      let g : Registered crypto email password role tenant_id u r.state =
        on_ok s r (register-Registered crypto now email password role tenant_id s.state) done in
      let a : Authentic order crypto service later email password r.state token =
        (on_ok r l (login-Authentic order crypto service later email password r.state) logged).1 in
      let same : a.account ≡ g.account = (let both = sym a.stored ∙ g.stored in cc) in
      let holder : User = user_of a.account (group_names order a.account.id r.state) in
      entered crypto service last u role header (codes "Bearer " ++ token) next _ q (ground arith)
        (validate_token-issue_token crypto service jwt later last holder token a.issued fresh)
        (ap (λ (x : Account). x.id) same ∙ ap (λ (x : User). x.id) (sym g.user))
        (ap (λ (x : Account). x.role) same ∙ g.role_same)
