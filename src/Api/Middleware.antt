-- ===== src/Api/Middleware.antt =====
-- internal/api/middleware.go: who a request comes from, and what it may do.
use flagbase.Prelude.{ℕ, String, not, ◌&&◌, List, [], ◌∷◌, Option, none, some, ◌==◌, if◌then◌else◌}
use flagbase.Db.{Result, ok, err, Op, pure, ◌>>=◌}
use flagbase.Tracing.{new_trace_id}
use flagbase.Iam.{Claims, Service, Crypto}
use flagbase.Iam.Accounts.{validate_token}
use flagbase.Api.{RequestContext, Reply, failure}

abbrev pub Handler : Type 0 → Type 0 → Type 0
Handler T B = RequestContext → Op T (Reply B)

-- `header` is the trace header of the request, empty where it has none.
unfoldable pub request_trace_id : {T : Type 0} → String → Op T String
unfolding new_trace_id
request_trace_id header = if header == "" then new_trace_id else pure header

module _ {T B : Type 0} where
  unfoldable pub trace_middleware : String → Handler T B → Handler T B
  unfolding request_trace_id
  trace_middleware header next ctx = do
    id ← request_trace_id header
    next (record ctx { trace_id = id })

  abbrev pub with_claims : Handler T B → RequestContext → Result Claims → Op T (Reply B)
  with_claims next ctx (err e) = pure (failure 401 "unauthorized")
  with_claims next ctx (ok c) = next (record ctx { claims = some c })

  -- `authorization` is the header, as code points; empty where the request has none.
  abbrev pub authorized : (List ℕ → Result Claims) → List ℕ → Handler T B → Handler T B
  authorized validate [] next ctx = next ctx
  authorized validate (c ∷ cs) next ctx = with_claims next ctx (validate (c ∷ cs))

  unfoldable pub iam_context_middleware : Crypto → Service → ℕ → List ℕ → Handler T B → Handler T B
  unfolding validate_token
  iam_context_middleware crypto service now authorization next =
      authorized (validate_token crypto service now) authorization next

  abbrev pub for_role : String → Handler T B → RequestContext → Option Claims → Op T (Reply B)
  for_role role next ctx none = pure (failure 403 "forbidden")
  for_role role next ctx (some c) =
      if not (c.role == role) && not (c.role == "admin")
      then pure (failure 403 "forbidden")
      else next ctx

  unfoldable pub require_role : String → Handler T B → Handler T B
  require_role role next ctx = for_role role next ctx ctx.claims

  -- The chain of server.go before a protected handler: the trace, the claims, the role. The request
  -- identifiers, the log, Recoverer and CORS come before it and are left out: CORS answers OPTIONS
  -- by itself, and a request that it passes on goes through this chain.
  unfoldable pub protected :
      Crypto → Service → ℕ → String → List ℕ → String → Handler T B → Op T (Reply B)
  unfolding trace_middleware iam_context_middleware require_role
  protected crypto service now header authorization role next =
      trace_middleware header
        (iam_context_middleware crypto service now authorization (require_role role next))
        (record { claims = none; trace_id = "" })
