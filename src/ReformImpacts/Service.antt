-- ===== src/ReformImpacts/Service.antt =====
-- services/reform_impacts_service.py: `ReformImpactsService`. Its other methods pass their arguments on
-- to the cache's `matching`, `claim_start`, `get_start_claim`, `delete_failure` and `seconds_left`.
pub mod Waits
pub mod Holding
use Prim.Native.Nat.{min}
use policyengine_api.Base.{
  ℕ, ◌+◌, ◌-◌, ◌*◌, ◌/◌, String, Option, none, some, Bool, true, false, if◌then◌else◌, is_some,
}
use policyengine_api.Json.{Json, null, str, Fields}
use policyengine_api.Effect.{
  Error, value_error, coordination_error, handoff_error, Exec, pure, raise, try_except, ◌>>=◌, ◌>>◌,
}
use policyengine_api.Cache.Backend.Commands.{second}
use policyengine_api.Cache.Client.{World}
use policyengine_api.ReformImpacts.{ReformImpactIdentity, or_none}
use policyengine_api.ReformImpacts.Records.{DateTime, naive, instant, CachedReformImpact}
use policyengine_api.ReformImpacts.Repository.{Setting, set_impact, update}
use policyengine_api.ReformImpacts.Repository.Removal.{reform_impact_id}
use policyengine_api.ReformImpacts.StartClaims.{release_start}

pub record ReformImpactExecution : Type 0 where
  pub execution_id : String
  pub start_time : Option DateTime
  pub observability_id : Option String

-- contextlib.suppress(CacheCoordinationError)
abbrev pub suppressed : Error → Exec World (Unit {0})
suppressed (coordination_error m) = pure tt
suppressed (handoff_error m) = pure tt
suppressed error = raise error

unfoldable pub release_reform_impact_start :
    (String → Option String) → String → String → String → Exec World (Unit {0})
unfolding release_start
release_reform_impact_start normalize claim_key claim_token observability_id =
    try_except (release_start normalize claim_key claim_token observability_id >> pure tt)
      suppressed

-- the record of a job that was submitted
unfoldable pub submitted_impact :
    ReformImpactIdentity → ReformImpactExecution → Fields → String → Json → ℕ → CachedReformImpact
submitted_impact identity execution options status result id = record {
  reform_impact_id = id;
  baseline_policy_id = identity.scope.baseline_policy_id;
  reform_policy_id = identity.scope.reform_policy_id;
  country_id = identity.scope.country_id;
  region = identity.scope.region;
  dataset = identity.scope.dataset;
  time_period = identity.scope.time_period;
  options_json = Json.obj options;
  options_hash = or_none identity.options_hash;
  api_version = identity.api_version;
  reform_impact_json = result;
  status = status;
  message = null;
  start_time = execution.start_time;
  end_time = none;
  execution_id = some execution.execution_id;
  error_code = null;
  observability_id = or_none execution.observability_id;
}

module _ (set : Setting) where
  abbrev pub stored_or_raise : CachedReformImpact → Bool → Exec World CachedReformImpact
  stored_or_raise impact true = pure impact
  stored_or_raise impact false =
      raise (handoff_error "submitted reform-impact execution could not be stored")

  abbrev pub with_id : (ℕ → CachedReformImpact) → Option ℕ → Exec World CachedReformImpact
  with_id impact none = raise (value_error "invalid literal for int() with base 16")
  with_id impact (some id) = do
    stored ← set_impact set (impact id) none none false
    stored_or_raise (impact id) stored

  unfoldable pub set_reform_impact :
      ReformImpactIdentity
      → ReformImpactExecution
      → Fields
      → String
      → Json
      → Exec World CachedReformImpact
  unfolding set_impact submitted_impact reform_impact_id
  set_reform_impact identity execution options status result =
      with_id (submitted_impact identity execution options status result)
        (reform_impact_id set.sha256 execution.execution_id)

  -- `now` is the service's clock, a naive UTC datetime
  module _ (now : ℕ) where
    abbrev pub failed : String → Option String → CachedReformImpact → CachedReformImpact
    failed message error_code impact = record impact {
      status = "error";
      message = str message;
      error_code = or_none error_code;
      end_time = some (naive now);
    }

    unfoldable pub set_error_reform_impact :
        String → String → Option String → Option ℕ → Exec World (Option CachedReformImpact)
    unfolding update
    set_error_reform_impact execution_id message error_code keep_seconds =
        update set execution_id (is_some error_code) keep_seconds (failed message error_code)

    abbrev pub completed : Json → CachedReformImpact → CachedReformImpact
    completed result impact = record impact {
      status = "ok";
      message = str "Completed";
      reform_impact_json = result;
      end_time = some (naive now);
    }

    unfoldable pub set_complete_reform_impact :
        String → Json → Exec World (Option CachedReformImpact)
    unfolding update
    set_complete_reform_impact execution_id result =
        update set execution_id false none (completed result)

-- min(seconds, max(0, ceil(seconds - elapsed))), where the time since the end may be negative
abbrev pub seconds_until_end : ℕ → ℕ → ℕ → ℕ
seconds_until_end now seconds end_time =
    min seconds ((seconds * second + end_time - now + 999_999) / second)

unfoldable pub get_reform_impact_seconds_until : ℕ → CachedReformImpact → ℕ → ℕ
get_reform_impact_seconds_until now impact seconds = elim impact.end_time [
  | none ↦ 0
  | some end_time ↦ seconds_until_end now seconds (instant end_time)
]
