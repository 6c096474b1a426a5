-- ===== src/Gateway/Gating.antt =====
-- When the gateway forwards a request.
use flagbase.Prelude.{
  ℕ, String, true, false, ◌≡◌, ◌≢◌, refl, sym, ap, ◌∙◌, subst, Bool-cases, [], ◌∷◌, none, ◌↔◌, inl,
  inr, List, All, lookup, arith, eq_iff, ◌==◌, Option, some, Option-cases,
}
use flagbase.Text.{Unicode, same_codes, codes, trim_prefix}
use flagbase.Feature.{Flag, flag_status_draft}
use flagbase.Feature.Evaluate.{
  user_of, evaluate_bool, evaluate_variant, evaluate_flag, variant_key_to_bool,
}
use flagbase.Feature.Evaluate.Stages.{draft_hidden, draft_pinned}
use flagbase.Iam.{Claims}
use flagbase.Feature.Evaluate.{find_override}
use flagbase.Text.Laws.{same_codes_iff, codes-injective}
use flagbase.Gateway.{
  Route, Routes, eval_context, rooted, find_route, register_route, route_disabled, proxied,
  serve_route, serve_http,
}

-- The path of a request behind the mount point.
abbrev pub routed : List ℕ → List ℕ
routed path = rooted (trim_prefix path (codes "/gateway"))

module _ (u : Unicode) {Url : Type 0} (parse : String → Option Url) where
  flag-draft :
      (flags : List (String × Flag)) (f : Flag) (claims : Option Claims) (r : Route)
      → r.flag_key ≢ ""
      → lookup r.flag_key flags ≡ some f
      → f.status ≡ flag_status_draft
      → All (λ o. o.user_id ≢ user_of (eval_context claims)) f.overrides
      → evaluate_bool u flags r.flag_key (eval_context claims) ≡ false
  unfolding evaluate_bool evaluate_variant variant_key_to_bool
  flag-draft flags f claims r named cached draft others =
      let off : evaluate_flag u (eval_context claims) f ≡ "false" =
        draft_hidden u (eval_context claims) f draft others in
      rw (cached, evaluate_variant) (rw off refl)

  -- A route behind the flag of a draft answers every caller for whom the flag has no override as
  -- disabled, anonymous callers too, whatever the flag's rules and default.
  pub serve_http_dark :
      (flags : List (String × Flag)) (routes : Routes) (f : Flag) (claims : Option Claims)
      (path : List ℕ) (r : Route)
      → find_route (routed path) routes ≡ some r
      → r.flag_key ≢ ""
      → lookup r.flag_key flags ≡ some f
      → f.status ≡ flag_status_draft
      → All (λ o. o.user_id ≢ user_of (eval_context claims)) f.overrides
      → serve_http u parse flags routes claims path ≡ route_disabled
  unfolding serve_http serve_route
  serve_http_dark flags routes f claims path r h named cached draft others =
      let off : evaluate_bool u flags r.flag_key (eval_context claims) ≡ false =
        flag-draft flags f claims r named cached draft others in
      let gated : (r.flag_key == "") ≡ false = ground (arith, eq_iff r.flag_key "") in
      rw h (rw gated (rw off refl))

  -- The caller has logged in, and the flag's overrides pin them to a variant that counts as on.
  abbrev pub Invited : Flag → Option Claims → Type 0
  Invited f claims =
      (c : Claims) × (v : String) × (claims ≡ some c)
      × (c.user_id ≢ "")
      × (c.user_id ≢ "anonymous")
      × (find_override c.user_id f.overrides ≡ some v)
      × (v ≢ "")
      × (v ≢ "false")

  on_iff :
      (flags : List (String × Flag)) (f : Flag) (claims : Option Claims) (key : String)
      → lookup key flags ≡ some f
      → (evaluate_bool u flags key (eval_context claims) ≡ true) ↔ (
          (evaluate_flag u (eval_context claims) f ≢ "")
          × (evaluate_flag u (eval_context claims) f ≢ "false"))
  unfolding evaluate_bool evaluate_variant variant_key_to_bool
  on_iff flags f claims key cached =
      let v = evaluate_flag u (eval_context claims) f in
      rw (cached, evaluate_variant) (ground (arith, eq_iff v "", eq_iff v "false"))

  on-Invited :
      (f : Flag) (claims : Option Claims) (v : String)
      → f.enabled ≡ true
      → f.status ≡ flag_status_draft
      → evaluate_flag u (eval_context claims) f ≡ v
      → v ≢ ""
      → v ≢ "false"
      → Invited f claims
  unfolding eval_context
  on-Invited f none v on draft e n m =
      absurd (((draft_pinned u (eval_context none) f v draft on m).0 e).1 refl)
  on-Invited f (some c) v on draft e n m =
      let k = (draft_pinned u (eval_context (some c)) f v draft on m).0 e in
      (c, v, refl, k.0, k.1, k.2, n, m)

  Invited-on :
      (f : Flag) (claims : Option Claims)
      → f.enabled ≡ true
      → f.status ≡ flag_status_draft
      → Invited f claims
      → (evaluate_flag u (eval_context claims) f ≢ "")
        × (evaluate_flag u (eval_context claims) f ≢ "false")
  unfolding eval_context
  Invited-on f claims on draft (c, v, same, known, named, pin, n, m) =
      let e : evaluate_flag u (eval_context (some c)) f ≡ v =
        (draft_pinned u (eval_context (some c)) f v draft on m).1 (known, named, pin) in
      subst
        (λ x.
          (evaluate_flag u (eval_context x) f ≢ "")
          × (evaluate_flag u (eval_context x) f ≢ "false"))
        (sym same) (λ k. n (sym e ∙ k), λ k. m (sym e ∙ k))

  -- The route that is registered last for a pattern serves its path.
  find_route-register_route :
      (r : Route) (m : Routes) → find_route (codes r.pattern) (register_route r m) ≡ some r
  unfolding register_route
  find_route-register_route r [] =
      ground (arith, same_codes_iff (codes r.pattern) (codes r.pattern))
  find_route-register_route r ((p, q) ∷ m) = elim (Bool-cases (p == r.pattern)) [
    | inl e ↦
        let same : p ≡ r.pattern = ground (arith, eq_iff p r.pattern) in
        rw e (ground (arith, same_codes_iff (codes p) (codes r.pattern), ap codes same))
    | inr e ↦
        let other : same_codes (codes p) (codes r.pattern) ≡ false = ground (
          arith,
          eq_iff p r.pattern,
          same_codes_iff (codes p) (codes r.pattern),
          codes-injective p r.pattern,
        ) in
        rw e (rw other (find_route-register_route r m))
  ]

  -- After a route behind the flag of an enabled draft is registered, whatever routes there were, a
  -- request to its path, with the mount prefix or without, is forwarded exactly if the caller has
  -- logged in and is pinned by an override to a variant that is on, and its backend parses: the URL
  -- is what the text of the new route parses to. No rule and no default opens the route.
  pub serve_http-register_route :
      (flags : List (String × Flag)) (routes : Routes) (f : Flag) (claims : Option Claims)
      (path : List ℕ) (r : Route) (url : Url)
      → routed path ≡ codes r.pattern
      → r.flag_key ≢ ""
      → lookup r.flag_key flags ≡ some f
      → f.enabled ≡ true
      → f.status ≡ flag_status_draft
      → (serve_http u parse flags (register_route r routes) claims path ≡ proxied url)
        ↔ (Invited f claims × (parse r.backend_url ≡ some url))
  unfolding serve_http serve_route
  serve_http-register_route flags routes f claims path r url here named cached on draft =
      let hit : find_route (routed path) (register_route r routes) ≡ some r =
        ap (λ p. find_route p (register_route r routes)) here
        ∙ find_route-register_route r routes in
      let gated : (r.flag_key == "") ≡ false = ground (arith, eq_iff r.flag_key "") in
      let k = on_iff flags f claims r.flag_key cached in
      let g = evaluate_bool u flags r.flag_key (eval_context claims) in
      let i : (g ≡ true) ↔ Invited f claims = (
        λ h. on-Invited f claims _ on draft refl (k.0 h).0 (k.0 h).1,
        λ h. k.1 (Invited-on f claims on draft h),
      ) in
      rw hit (
        rw gated (elim (Option-cases (parse r.backend_url)) [
          | inl e ↦ ground (arith, e, i)
          | inr (v, e) ↦ ground (arith, e, i)
        ]))
