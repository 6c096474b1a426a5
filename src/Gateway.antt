-- ===== src/Gateway.antt =====
-- internal/gateway/handler.go: routes, gated by feature flags.
pub mod Gating
mod Tests
use flagbase.Prelude.{
  ℕ, String, Bool, true, false, not, ◌&&◌, List, [], ◌∷◌, map, first, Option, none, some, ◌==◌,
  if◌then◌else◌,
}
use flagbase.Text.{Unicode, codes, same_codes, trim_prefix}
use flagbase.Feature.{Flag}
use flagbase.Feature.Evaluate.{Context, text, evaluate_bool}
use flagbase.Iam.{Claims}

-- `flag_key` is empty for a route without a flag.
pub record Route : Type 0 where
  pub id : String
  pub pattern : String
  pub backend_url : String
  pub flag_key : String

-- The map of the handler: at most one entry for each pattern.
abbrev pub Routes : Type 0
Routes = List (String × Route)

unfoldable pub register_route : Route → Routes → Routes
register_route r [] = (r.pattern, r) ∷ []
register_route r ((p, q) ∷ m) =
    let rest = register_route r m in if p == r.pattern then (p, r) ∷ m else (p, q) ∷ rest

-- The first route with the identifier that the iteration meets goes; the order is the list's.
unfoldable pub remove_route : String → Routes → Bool × Routes
remove_route id [] = (false, [])
remove_route id ((p, q) ∷ m) =
    let rest = remove_route id m in if q.id == id then (true, m) else (rest.0, (p, q) ∷ rest.1)

abbrev pub list_routes : Routes → List Route
list_routes m = map (λ p. p.1) m

unfoldable pub eval_context : Option Claims → Context
eval_context none = ("userId", text "anonymous") ∷ ("role", text "guest") ∷ []
eval_context (some c) = ("userId", text c.user_id) ∷ ("role", text c.role) ∷ []

-- The path that a request has behind the mount point.
abbrev pub rooted : List ℕ → List ℕ
rooted [] = codes "/"
rooted (c ∷ cs) = c ∷ cs

abbrev pub find_route : List ℕ → Routes → Option Route
find_route path [] = none
find_route path ((p, r) ∷ m) = if same_codes (codes p) path then some r else find_route path m

-- What ServeHTTP does with a request: an error page, or the proxy to a backend.
pub data Served (Url : Type 0) : Type 0 where
  no_route route_disabled invalid_backend : Served Url
  proxied : Url → Served Url

-- `parse` is url.Parse.
module _ (u : Unicode) {Url : Type 0} (parse : String → Option Url) where
  abbrev pub to_backend : Route → Served Url
  to_backend r = elim (parse r.backend_url) [ none ↦ invalid_backend | some url ↦ proxied url ]

  unfoldable pub serve_route : List (String × Flag) → Option Claims → Option Route → Served Url
  unfolding eval_context
  serve_route flags claims none = no_route
  serve_route flags claims (some r) =
      if not (r.flag_key == "") && not (evaluate_bool u flags r.flag_key (eval_context claims))
      then route_disabled
      else to_backend r

  unfoldable pub serve_http : List (String × Flag) → Routes → Option Claims → List ℕ → Served Url
  unfolding serve_route trim_prefix
  serve_http flags routes claims path =
      serve_route flags claims (find_route (rooted (trim_prefix path (codes "/gateway"))) routes)
