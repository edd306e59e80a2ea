-- ===== src/ReformImpacts.antt =====
-- runtime_cache/reform_impacts.py: what identifies a reform impact. The claims of its submission are
-- in StartClaims.
pub mod Keys
pub mod Like
pub mod Records
pub mod Repository
pub mod Sample
pub mod Service
pub mod StartClaims
mod Tests
use policyengine_api.Base.{ℕ, String, Option, none, some}
use policyengine_api.Json.{Json, null, str}

pub record ReformImpactScope : Type 0 where
  pub country_id : String
  pub reform_policy_id : ℕ
  pub baseline_policy_id : ℕ
  pub region : String
  pub dataset : String
  pub time_period : String

pub record ReformImpactIdentity : Type 0 where
  pub scope : ReformImpactScope
  pub api_version : String
  pub options_hash : Option String

-- a string or None, as JSON
abbrev pub or_none : Option String → Json
or_none none = null
or_none (some s) = str s
