-- ===== src/Gateway/Tests.antt =====
-- Runs of internal/gateway/handler.go at small inputs.
use flagbase.Prelude.{
  ℕ, ◌+◌, eq_iff, String, true, ◌&&◌, ◌≡◌, ◌≢◌, ◌↔◌, refl, List, [], ◌∷◌, arith, leb, Option, none,
  some, if◌then◌else◌,
}
use flagbase.Text.{Unicode, codes, split, equal_fold, trim_space, trim_prefix}
use flagbase.Feature.{Flag}
use flagbase.Feature.Evaluate.{
  evaluate_bool, evaluate_variant, evaluate_flag, find_rule, applies, match_rule,
  resolve_rule_variant, bool_to_variant_key, variant_key_to_bool,
}
use flagbase.Iam.{Claims}
use flagbase.Gateway.{
  Route, Routes, register_route, remove_route, eval_context, find_route, no_route, proxied,
  serve_route, serve_http,
}
use flagbase.Gateway.Gating.{routed, Invited, serve_http-register_route}

abbrev ascii_lower : ℕ → ℕ
ascii_lower c = if leb b'A' c && leb c b'Z' then c + 32 else c

abbrev ascii : Unicode
ascii = record { lower = ascii_lower; fold = ascii_lower }

abbrev flag : String → Flag
flag status = record {
  id = "f";
  key = "beta";
  name = "Beta";
  description = "";
  status = status;
  enabled = true;
  default_value = true;
  rules = [];
  variants = [];
  overrides =
      record { id = "o"; flag_key = "beta"; user_id = "ann"; variant_key = "true"; created_at = 1 }
      ∷ [];
  created_at = 1;
  updated_at = 1;
}

abbrev flags : String → List (String × Flag)
flags status = ("beta", flag status) ∷ []

abbrev route : Route
route = record { id = "r"; pattern = "/new"; backend_url = "http://new"; flag_key = "beta" }

-- What a run looks into.
running : Unit {0}
unfolding serve_http serve_route register_route remove_route eval_context trim_prefix evaluate_bool
    evaluate_variant evaluate_flag find_rule applies match_rule resolve_rule_variant
    bool_to_variant_key variant_key_to_bool split equal_fold trim_space
running = tt

abbrev routes : Routes
routes = register_route route []

abbrev path : List ℕ
path = codes "/gateway/new"

hit : find_route (routed path) routes ≡ some route
unfolding running
hit = refl

forwarded : serve_http ascii some (flags "ga") routes none path ≡ proxied "http://new"
unfolding running
forwarded = refl

missed : serve_http ascii some (flags "ga") routes none (codes "/old") ≡ no_route
unfolding running
missed = refl

taken_away : remove_route "r" routes ≡ (true, [])
unfolding running
taken_away = refl

named : ◌≢◌ {A = String} "beta" ""
named = ground (arith, eq_iff "beta" "")

here : routed path ≡ codes "/new"
unfolding running
here = refl

abbrev ann : Claims
ann = record {
  user_id = "ann";
  email = "ann@x";
  tenant_id = "default";
  role = "user";
  groups = [];
  expires_at = 9;
  issued_at = 1;
}

let_in : serve_http ascii some (flags "draft") routes (some ann) path ≡ proxied "http://new"
unfolding running
let_in = refl

serve_http-register_route_example :
    (serve_http ascii some (flags "draft") (register_route route routes) (some ann) path
      ≡ proxied "http://new")
    ↔ (Invited ascii some (flag "draft") (some ann)
        × (◌≡◌ {A = Option String} (some "http://new") (some "http://new")))
serve_http-register_route_example =
    serve_http-register_route ascii some (flags "draft") routes (flag "draft") (some ann) path route
      "http://new" here named refl refl refl
