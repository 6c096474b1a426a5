-- ===== src/Iam/Tests/Crypto.antt =====
-- A small instance of the packages that internal/iam/service.go calls: it signs one set of claims.
use flagbase.Prelude.{
  ℕ, String, Bool, true, false, ◌&&◌, ◌≡◌, refl, List, [], ◌∷◌, Option, none, some, arith, eq_iff,
  eqb, ltb, ◌==◌, ◌<◌, Bool-cases, inl, inr, if◌then◌else◌,
}
use flagbase.Text.{codes}
use flagbase.Iam.{Claims, Crypto, IsJwt}

abbrev pub claims : Claims
claims = record {
  user_id = "01";
  email = "ann@x";
  tenant_id = "default";
  role = "user";
  groups = [];
  expires_at = 15;
  issued_at = 5;
}

abbrev pub token : List ℕ
token = codes "eyJ"

abbrev no_groups : List String → Bool
no_groups [] = true
no_groups (g ∷ gs) = false

abbrev same_claims : Claims → Bool
same_claims c =
    c.user_id == "01"
    && c.email == "ann@x"
    && c.tenant_id == "default"
    && c.role == "user"
    && no_groups c.groups
    && eqb c.expires_at 15
    && eqb c.issued_at 5

abbrev is_token : List ℕ → Bool
is_token [] = false
is_token (c ∷ cs) = eqb c b'e'

abbrev parse : (Bool → Option String) → ℕ → List ℕ → Option Claims
parse key_of now t = elim (key_of true) [
  | none ↦ none
  | some k ↦ if is_token t && ltb now 15 then some claims else none
]

abbrev pub crypto : Crypto
crypto = record {
  sum256 = codes;
  sign = λ secret c. if same_claims c then some token else none;
  is_hmac = λ t. true;
  parse = parse;
}

groups_none : (gs : List String) → no_groups gs ≡ true → gs ≡ []
groups_none [] h = refl
groups_none (g ∷ gs) h = absurd (cc)

same_claims-claims : (c : Claims) → same_claims c ≡ true → c ≡ claims
same_claims-claims c h =
    let id : c.user_id ≡ "01" = ground (arith, eq_iff c.user_id "01") in
    let address : c.email ≡ "ann@x" = ground (arith, eq_iff c.email "ann@x") in
    let tenant : c.tenant_id ≡ "default" = ground (arith, eq_iff c.tenant_id "default") in
    let role : c.role ≡ "user" = ground (arith, eq_iff c.role "user") in
    let none_of : no_groups c.groups ≡ true = ground arith in
    let expires : c.expires_at ≡ 15 = ground arith in
    let issued : c.issued_at ≡ 5 = ground arith in
    λ i. record {
      user_id = id i;
      email = address i;
      tenant_id = tenant i;
      role = role i;
      groups = groups_none c.groups none_of i;
      expires_at = expires i;
      issued_at = issued i;
    }

unkeyed :
    (key_of : Bool → Option String) (now : ℕ) (t : List ℕ)
    → key_of true ≡ none
    → parse key_of now t ≡ none
unkeyed key_of now t h = rw (h, parse) refl

pub crypto-IsJwt : IsJwt crypto
crypto-IsJwt = record {
  parse_sign = λ key_of secret c now t signed keyed fresh. go key_of c now t signed keyed fresh;
  parse_unkeyed = λ key_of now t h. unkeyed key_of now t h;
}
  where
    go :
        (key_of : Bool → Option String) {secret : String} (c : Claims) (now : ℕ) (t : List ℕ)
        → (if same_claims c then some token else none) ≡ some t
        → key_of true ≡ some secret
        → now < c.expires_at
        → parse key_of now t ≡ some c
    go key_of c now t signed keyed fresh = elim (Bool-cases (same_claims c)) [
      | inl e ↦
          let same : c ≡ claims = same_claims-claims c e in
          let its : t ≡ token = ground arith in
          let early : ltb now 15 ≡ true = ground arith in
          rw same (rw its (rw (keyed, parse) (rw early refl)))
      | inr e ↦ absurd (ground arith)
    ]
