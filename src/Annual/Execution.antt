-- ===== src/Annual/Execution.antt =====
-- services/economy_impact_execution.py: `ImpactExecutionMixin`, how a stored impact and the execution
-- of its job are answered. No record is ever stored without an identifier, so an update without one
-- finds none.
use Prim.Native.Char.{code}
use Prim.Native.String.{◌++◌}
use policyengine_api.Base.{
  ℕ, String, Option, none, some, Bool, true, false, not, ◌&&◌, ◌||◌, ◌==◌, str_eq, is_some,
  if◌then◌else◌,
}
use policyengine_api.Json.{
  Json, null, bool, num, lit, str, arr, obj, nil, cons, Fields, end, field, get,
}
use policyengine_api.Json.Equality.{json_eq}
use policyengine_api.Effect.{
  Error, value_error, spm_error, Exec, pure, raise, gets, lift, try_except, ◌>>=◌, ◌>>◌,
}
use policyengine_api.ReformImpacts.Records.{CachedReformImpact}
use policyengine_api.ReformImpacts.Repository.{nonempty}
use policyengine_api.Annual.Setup.{SetupOptions, has_option}
use policyengine_api.Annual.Bundle.{starts_with, option_dict, with_policyengine_bundle}
use policyengine_api.Annual.Request.{
  Environment, Execution, Session, EconomicImpactResult, completed_result, computing_result,
}
use policyengine_api.Annual.Stored.{
  has_hash, parse_json_object, set_complete, set_error, failure_the_next_request_answers_from,
  stored_failure_result,
}

-- RETRYABLE_FAILURE_SECONDS
abbrev pub retryable_failure_seconds : ℕ
retryable_failure_seconds = 120

abbrev delete_retry_note : String
delete_retry_note = "or 10 seconds after it by first sending DELETE to this URL."

abbrev breakdown_retry_note : String
breakdown_retry_note =
    "A new local-area breakdown can be requested 2 minutes after this failure, "
    ++ delete_retry_note

abbrev us_state_retry_note : String
us_state_retry_note =
    "A new run for this state can be requested 2 minutes after this failure, " ++ delete_retry_note

-- _failure_retry_note
unfoldable pub failure_retry_note : SetupOptions → Option String
unfolding starts_with get
failure_retry_note setup =
    if has_option "breakdown" setup.options
    then some breakdown_retry_note
    else if str_eq setup.country_id "us" && starts_with "state/" setup.region
    then some us_state_retry_note
    else none

-- bool(value)
abbrev truthy : Json → Bool
truthy null = false
truthy (bool b) = b
truthy (num n) = not (n == 0)
truthy (lit t) = true
truthy (str s) = not (str_eq s "")
truthy (arr nil) = false
truthy (arr (cons x rest)) = true
truthy (obj end) = false
truthy (obj (field k v rest)) = true

module _ (env : Environment) where
  -- _breakdown_result_kind_error
  unfoldable pub breakdown_result_kind_error : SetupOptions → Option Fields → Option String
  unfolding json_eq get
  breakdown_result_kind_error setup result =
      let kind = get "kind" (option_dict result) in
      if not (has_option "breakdown" setup.options)
      then none
      else if json_eq kind (str "local_areas")
      then none
      else some (
          "The simulation API returned a result of kind "
          ++ (env.repr kind
              ++ (" for a local-area breakdown request, which needs kind 'local_areas'; "
                  ++ "the result was not stored")))

  -- an update of the impact's own record
  abbrev pub set_own_error :
      Option String → String → Option String → Option ℕ → Exec Session (Option CachedReformImpact)
  set_own_error none message error_code keep_seconds = pure none
  set_own_error (some execution_id) message error_code keep_seconds =
      set_error env message execution_id error_code keep_seconds

  abbrev pub set_own_complete : Option String → Fields → Exec Session (Option CachedReformImpact)
  set_own_complete none result = pure none
  set_own_complete (some execution_id) result = set_complete env execution_id result

  -- the failure that was written, as the caller is told of it
  abbrev pub told : String → Option CachedReformImpact → Exec Session EconomicImpactResult
  told message stored = do
    failure ← failure_the_next_request_answers_from env stored
    stored_failure_result env message failure

  -- _record_retryable_failure
  unfoldable pub record_retryable_failure :
      CachedReformImpact → String → String → Exec Session EconomicImpactResult
  unfolding set_error failure_the_next_request_answers_from stored_failure_result
  record_retryable_failure impact reason retry_note =
      let message = reason ++ (". " ++ retry_note) in
      do
        stored ←
            set_own_error (nonempty impact.execution_id) message none
              (some retryable_failure_seconds)
        told message stored

  abbrev pub finished :
      CachedReformImpact
      → Execution
      → SetupOptions
      → Option String
      → Exec Session EconomicImpactResult
  finished impact execution setup (some kind_error) =
      record_retryable_failure impact kind_error breakdown_retry_note
  finished impact execution setup none =
      let result = with_policyengine_bundle setup (option_dict execution.result) (some execution) in
      do
        lift (env.certify result (get "spm" setup.options) setup.time_period)
        stored ← set_own_complete impact.execution_id result
        pure (completed_result result)

  abbrev failure_message : Option String → String
  failure_message none = "Simulation entrypoint execution failed"
  failure_message (some error) = "Simulation entrypoint execution failed: " ++ error

  abbrev pub broken :
      CachedReformImpact → String → Option String → Exec Session EconomicImpactResult
  broken impact message (some retry_note) = record_retryable_failure impact message retry_note
  broken impact message none = do
    stored ← set_own_error impact.execution_id message none none
    told message stored

  -- _handle_execution_state, of an execution that was polled
  unfoldable pub handle_execution_state :
      String → CachedReformImpact → Execution → Exec Session EconomicImpactResult
  unfolding record_retryable_failure breakdown_result_kind_error with_policyengine_bundle
      set_complete set_error failure_the_next_request_answers_from stored_failure_result
      failure_retry_note completed_result computing_result get
  handle_execution_state state impact execution = do
    setup ← gets (λ s. s.setup)
    if str_eq state "complete"
        then finished impact execution setup (breakdown_result_kind_error setup execution.result)
        else if str_eq state "failed"
        then broken impact (failure_message (nonempty execution.error)) (failure_retry_note setup)
        else if str_eq state "submitted" || str_eq state "running"
        then pure (computing_result execution.run_progress)
        else raise (value_error "Unexpected sim API execution state")

  -- except SPMValidationError: the record becomes a typed failure, and the error is raised again
  abbrev pub record_spm_error : Option String → Error → Exec Session EconomicImpactResult
  record_spm_error execution_id (spm_error code message) =
      set_own_error execution_id message (some code) none >> raise (spm_error code message)
  record_spm_error execution_id error = raise error

  -- _handle_computing_impact
  unfoldable pub handle_computing_impact : CachedReformImpact → Exec Session EconomicImpactResult
  unfolding handle_execution_state set_error
  handle_computing_impact impact =
      try_except
        (do
          execution ← lift (env.poll impact.execution_id)
          handle_execution_state execution.status impact execution)
        (record_spm_error impact.execution_id)

  abbrev env_text : Json → String
  env_text (str s) = s
  env_text j = env.other_text j

  abbrev pub code_or_replay : CachedReformImpact → Bool → Exec Session EconomicImpactResult
  code_or_replay impact true =
      raise (spm_error (env_text impact.error_code) (env_text impact.message))
  code_or_replay impact false =
      stored_failure_result env
        (if truthy impact.message
          then env_text impact.message
          else "Simulation entrypoint execution failed")
        (some impact)

  -- _handle_failed_impact
  unfoldable pub handle_failed_impact : CachedReformImpact → Exec Session EconomicImpactResult
  unfolding stored_failure_result
  handle_failed_impact impact = code_or_replay impact (truthy impact.error_code)

  -- _record_uncertifiable_stored_impact
  unfoldable pub record_uncertifiable :
      CachedReformImpact → String → String → Exec Session (Unit {0})
  unfolding set_error json_eq
  record_uncertifiable impact code message = do
    setup ← gets (λ s. s.setup)
    if is_some (nonempty impact.execution_id) && has_hash setup.options_hash impact
        then try_except (set_own_error impact.execution_id message (some code) none >> pure tt)
            (λ error. pure tt)
        else pure tt

  abbrev pub uncertified : CachedReformImpact → Error → Exec Session (Unit {0})
  uncertified impact (spm_error code message) =
      record_uncertifiable impact code message >> raise (spm_error code message)
  uncertified impact error = raise error

  -- _handle_completed_impact
  unfoldable pub handle_completed_impact : CachedReformImpact → Exec Session EconomicImpactResult
  unfolding parse_json_object record_uncertifiable with_policyengine_bundle completed_result get
  handle_completed_impact impact = do
    result ← lift (parse_json_object env impact.reform_impact_json)
    setup ← gets (λ s. s.setup)
    try_except (lift (env.certify result (get "spm" setup.options) setup.time_period))
        (uncertified impact)
    pure (completed_result (with_policyengine_bundle setup result none))
