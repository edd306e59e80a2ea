-- ===== src/Correlation.antt =====
-- policyengine_api/request_context.py: the identifier that a request's diagnostics carry. The state
-- is the request's context variable.
use policyengine_api.Base.{String, Option, none, some}
use policyengine_api.Effect.{ok, Exec}

-- What is read from the request and from Python's uuid module: the canonical form of an identifier,
-- the one that the request came with, and a new one.
pub record Identifiers : Type 0 where
  pub normalize : String → Option String
  pub incoming : Option String
  pub generated : String

abbrev or_generate : Option String → String → String
or_generate none generated = generated
or_generate (some x) generated = x

module _ (ids : Identifiers) where
  abbrev pub normalized : Option String → Option String
  normalized none = none
  normalized (some x) = ids.normalize x

  unfoldable pub resolve_observability_id : Option String → String
  resolve_observability_id value = or_generate (normalized value) ids.generated

  abbrev or_else : Option String → Option String → Option String
  or_else none other = other
  or_else (some x) other = some x

  abbrev bound : Option String → String → Exec (Option String) String
  bound (some current) candidate s = (ok current, s)
  bound none candidate s =
      let x = resolve_observability_id (or_else (ids.normalize candidate) ids.incoming) in
      (ok x, some x)

  unfoldable pub start_observability_id : String → Exec (Option String) String
  unfolding resolve_observability_id
  start_observability_id candidate current_id = bound current_id candidate current_id

  abbrev rebound : Option String → Exec (Option String) (Option String)
  rebound none s = (ok s, s)
  rebound (some x) s = (ok (some x), some x)

  unfoldable pub restore_observability_id : Option String → Exec (Option String) (Option String)
  restore_observability_id value = rebound (normalized value)
