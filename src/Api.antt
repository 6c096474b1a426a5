-- ===== src/Api.antt =====
-- internal/api: the middleware and the handlers that decide who gets to what.
pub mod Middleware
pub mod Auth
pub mod Guard
mod Tests
use flagbase.Prelude.{ℕ, String, List, Option}
use flagbase.Iam.{Claims}

-- What the middleware puts into the context of a request.
pub record RequestContext : Type 0 where
  pub claims : Option Claims
  pub trace_id : String

-- A reply: a status of HTTP with a body or with the message of writeError.
pub data Reply (B : Type 0) : Type 0 where
  failure : ℕ → String → Reply B
  success : ℕ → B → Reply B
