-- ===== src/Annual/Request.antt =====
-- The state of one single-year request, what the code outside of it answers, and the results of
-- services/economy_impact_types.py.
use policyengine_api.Base.{ℕ, String, List, Option, none, some}
use policyengine_api.Json.{Json, Fields}
use policyengine_api.Effect.{Error, Result, Exec, within}
use policyengine_api.Cache.Client.{World}
use policyengine_api.Correlation
use policyengine_api.Correlation.{Identifiers}
use policyengine_api.ReformImpacts.Repository.{Setting}
use policyengine_api.Annual.Setup.{SetupOptions}

-- ModalSimulationExecution of policyengine_api/libs/simulation_entrypoint.py
pub record Execution : Type 0 where
  pub job_id : String
  pub status : String
  pub result : Option Fields
  pub error : Option String
  pub policyengine_bundle : Option Fields
  pub resolved_app_name : Option String
  pub run_progress : Option Json

-- What a request meets outside of this code: the cache's setting and identifiers, the two clocks, the
-- policy table, the payload of a simulation, the simulation gateway, the receipt checks of
-- worker_spm.py, and Python's `json.loads` (`none` is a ValueError), `str` and `repr`.
pub record Environment : Type 0 where
  pub setting : Setting
  pub ids : Identifiers
  pub now : ℕ
  pub local_now : ℕ
  pub resolve_app_name : String → Option String → Option String → Result (String × Option String)
  pub get_policy_json : String → ℕ → Result (Option Json)
  pub simulation_payload : SetupOptions → Fields → Fields → Result (Unit {0})
  pub get_spm_capability : String → Option String → String → Result Json
  pub run : Result Execution
  pub refusal_message : Error → String
  pub poll : Option String → Result Execution
  pub certify : Fields → Json → String → Result (Unit {0})
  pub loads : String → Option Json
  pub other_text : Json → String
  pub repr : Json → String

-- `submissions` are the claim tokens of the jobs that the gateway was sent, and `capability_requests` the
-- country, model version and policyengine version of each capability that it was asked for.
pub record Session : Type 0 where
  pub cache : World
  pub setup : SetupOptions
  pub current_id : Option String
  pub submissions : List String
  pub capability_requests : List (String × Option String × String)

abbrev pub on_cache : {A : Type 0} → Exec World A → Exec Session A
on_cache = within (λ s. s.cache) (λ w s. record s { cache = w })

abbrev pub on_current_id : {A : Type 0} → Exec (Option String) A → Exec Session A
on_current_id = within (λ s. s.current_id) (λ x s. record s { current_id = x })

unfoldable pub start_observability_id : Environment → String → Exec Session String
unfolding Correlation.start_observability_id
start_observability_id env candidate =
    on_current_id (Correlation.start_observability_id env.ids candidate)

unfoldable pub restore_observability_id : Environment → Option String → Exec Session (Option String)
unfolding Correlation.restore_observability_id
restore_observability_id env value =
    on_current_id (Correlation.restore_observability_id env.ids value)

pub data ImpactStatus : Type 0 where
  computing ok error : ImpactStatus

pub data ImpactAction : Type 0 where
  completed failed computing create : ImpactAction

pub record EconomicImpactResult : Type 0 where
  pub status : ImpactStatus
  pub data_fields : Option Fields
  pub message : Option String
  pub retry_after_seconds : Option ℕ
  pub delete_after_seconds : Option ℕ
  pub run_progress : Option Json

unfoldable pub completed_result : Fields → EconomicImpactResult
completed_result result = record {
  status = ImpactStatus.ok;
  data_fields = some result;
  message = none;
  retry_after_seconds = none;
  delete_after_seconds = none;
  run_progress = none;
}

unfoldable pub computing_result : Option Json → EconomicImpactResult
computing_result run_progress = record {
  status = ImpactStatus.computing;
  data_fields = none;
  message = none;
  retry_after_seconds = none;
  delete_after_seconds = none;
  run_progress = run_progress;
}

unfoldable pub error_result : String → Option ℕ → Option ℕ → EconomicImpactResult
error_result message retry_after_seconds delete_after_seconds = record {
  status = ImpactStatus.error;
  data_fields = none;
  message = some message;
  retry_after_seconds = retry_after_seconds;
  delete_after_seconds = delete_after_seconds;
  run_progress = none;
}

-- FailedImpactDeletion, without its messages
pub data FailedImpactDeletion : Type 0 where
  deleted : FailedImpactDeletion
  locked : ℕ → FailedImpactDeletion
  not_a_failure : String → FailedImpactDeletion
  not_found : FailedImpactDeletion
