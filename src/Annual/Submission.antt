-- ===== src/Annual/Submission.antt =====
-- services/economy_service.py: `EconomyService`, from the setup options of a request on, with the
-- submission of services/economy_impact_execution.py.
pub mod Unsent
pub mod Once
pub mod Left
pub mod Handoff
use policyengine_api.Base.{
  ℕ, zero, suc, String, List, [], ◌∷◌, ◌++◌, Option, none, some, Bool, true, false, ◌&&◌, ◌||◌,
  ◌==◌, if◌then◌else◌, is_some,
}
use policyengine_api.Json.{Json, str, Fields}
use policyengine_api.Effect.{
  Error, value_error, coordination_error, handoff_error, http_status_error, policy_not_found,
  Result, ok, raised, Exec, pure, raise, gets, modify, lift, try_except, attempt, ◌>>=◌, ◌>>◌,
}
use policyengine_api.Correlation.{resolve_observability_id}
use policyengine_api.ReformImpacts.Repository.{Setting, nonempty}
use policyengine_api.ReformImpacts.Records.{CachedReformImpact}
use policyengine_api.ReformImpacts.StartClaims.{
  StartClaim, claim_start, get_start_claim, start_claim_key,
}
use policyengine_api.ReformImpacts.Service.{release_reform_impact_start}
use policyengine_api.Annual.Setup.{SetupOptions, has_option, reform_impact_identity}
use policyengine_api.Annual.Request.{
  Environment, Execution, Session, on_cache, start_observability_id, restore_observability_id,
  ImpactAction, EconomicImpactResult, computing_result, error_result,
}
use policyengine_api.Annual.Stored.{
  parse_json_object, resolve_runtime_bundle, get_reusable_impact, determine_impact_action,
  set_computing,
}
use policyengine_api.Annual.Execution.{
  handle_completed_impact, handle_failed_impact, handle_computing_impact,
}

-- REFORM_IMPACT_START_CLAIM_ATTEMPTS
abbrev pub claim_attempts : ℕ
claim_attempts = 3

abbrev pub is_refusal_code : ℕ → Bool
is_refusal_code code = code == 400 || code == 422

module _ (env : Environment) where
  -- _get_policy_jsons of services/economy_simulation_requests.py
  abbrev both_or_missing : Option Json → Option Json → Result (Json × Json)
  both_or_missing (some baseline) (some reform) = ok (baseline, reform)
  both_or_missing _ _ = raised policy_not_found

  unfoldable pub get_policy_jsons : SetupOptions → Exec Session (Fields × Fields)
  unfolding parse_json_object
  get_policy_jsons setup = do
    baseline ← lift (env.get_policy_json setup.country_id setup.baseline_policy_id)
    reform ← lift (env.get_policy_json setup.country_id setup.reform_policy_id)
    (baseline_json, reform_json) ← lift (both_or_missing baseline reform)
    baseline_fields ← lift (parse_json_object env baseline_json)
    reform_fields ← lift (parse_json_object env reform_json)
    pure (baseline_fields, reform_fields)

  -- self._simulation_gateway.run: the gateway is sent one job
  unfoldable pub run_job : Exec Session Execution
  run_job s =
      (env.run, record s { submissions = s.submissions ++ s.setup.submission_claim_id ∷ [] })

  -- _breakdown_refusal; every other error of `run` is raised again
  unfoldable pub refused : SetupOptions → Error → Exec Session EconomicImpactResult
  unfolding error_result
  refused setup (http_status_error code) =
      if has_option "breakdown" setup.options && is_refusal_code code
      then pure (error_result (env.refusal_message (http_status_error code)) none none)
      else raise (http_status_error code)
  refused setup error = raise error

  -- a handoff error stays one, and any other becomes one
  abbrev pub not_handed_off : Error → Exec Session CachedReformImpact
  not_handed_off (handoff_error message) = raise (handoff_error message)
  not_handed_off error =
      raise
        (handoff_error "simulation was submitted but its execution state could not be handed off")

  abbrev pub hand_off : Execution → Exec Session EconomicImpactResult
  hand_off execution = do
    impact ← try_except (set_computing env execution.job_id) not_handed_off
    pure (computing_result none)

  -- _handle_create_impact
  unfoldable pub handle_create_impact : Fields × Fields → Exec Session EconomicImpactResult
  unfolding run_job refused set_computing computing_result
  handle_create_impact (baseline, reform) = do
    setup ← gets (λ s. s.setup)
    lift (env.simulation_payload setup baseline reform)
    attempt run_job (refused setup) hand_off

  -- the key of the start claim, for which a hash is needed
  abbrev pub claim_key : SetupOptions → Result String
  claim_key setup = elim (nonempty setup.options_hash) [
    | none ↦ raised (value_error "resolved reform-impact options hash is required")
    | some options_hash ↦ ok (
        start_claim_key env.setting.sha256 env.setting.namespace (reform_impact_identity setup)
          setup.target)
  ]

  -- the identifier of a release
  abbrev pub own_id : Option String → Result String
  own_id none = raised (value_error "reform-impact observability identifier is required")
  own_id (some id) = ok id

  -- _claim_reform_impact_start
  unfoldable pub claim_submission_start : String → Exec Session Bool
  unfolding claim_start start_claim_key reform_impact_identity
  claim_submission_start candidate = do
    setup ← gets (λ s. s.setup)
    key ← lift (claim_key setup)
    on_cache (claim_start env.ids.normalize key setup.submission_claim_id candidate)

  -- _get_reform_impact_start_claim
  unfoldable pub read_submission_claim : Exec Session (Option StartClaim)
  unfolding get_start_claim start_claim_key reform_impact_identity
  read_submission_claim = do
    setup ← gets (λ s. s.setup)
    key ← lift (claim_key setup)
    on_cache (get_start_claim env.ids.normalize key)

  -- _release_reform_impact_start
  unfoldable pub release_submission_claim : Exec Session (Unit {0})
  unfolding release_reform_impact_start start_claim_key reform_impact_identity
  release_submission_claim = do
    setup ← gets (λ s. s.setup)
    id ← lift (own_id setup.observability_id)
    key ← lift (claim_key setup)
    on_cache (release_reform_impact_start env.ids.normalize key setup.submission_claim_id id)

  -- setup_options.observability_id = ...
  abbrev pub set_id : Option String → Exec Session (Unit {0})
  set_id id = modify (λ s. record s { setup = record s.setup { observability_id = id } })

  abbrev pub adopt_or_retry :
      Option StartClaim → Exec Session (Option StartClaim) → Exec Session (Option StartClaim)
  adopt_or_retry none retry = retry
  adopt_or_retry (some claim) retry = do
    id ← restore_observability_id env (some claim.observability_id)
    set_id id
    pure (some claim)

  abbrev pub own_or :
      Bool → String → Exec Session (Option StartClaim) → Exec Session (Option StartClaim)
  own_or true candidate other = do
    id ← start_observability_id env candidate
    set_id (some id)
    pure none
  own_or false candidate other = other

  -- the loop of _claim_reform_impact_submission, with the attempts that are left
  unfoldable pub claim_loop : ℕ → String → Exec Session (Option StartClaim)
  unfolding claim_submission_start read_submission_claim start_observability_id
      restore_observability_id
  claim_loop zero candidate =
      raise (coordination_error "reform-impact submission ownership changed repeatedly")
  claim_loop (suc attempts) candidate = do
    claimed ← claim_submission_start candidate
    own_or claimed candidate (do
      existing ← read_submission_claim
      adopt_or_retry existing (claim_loop attempts candidate))

  -- _claim_reform_impact_submission: None when this request owns the submission
  unfoldable pub claim_submission : Exec Session (Option StartClaim)
  unfolding resolve_runtime_bundle claim_loop resolve_observability_id
  claim_submission = do
    resolve_runtime_bundle env
    claim_loop claim_attempts (resolve_observability_id env.ids env.ids.incoming)

  -- a failed handoff keeps the claim until it expires; any other failure frees it
  abbrev pub submission_failed : Error → Exec Session EconomicImpactResult
  submission_failed (handoff_error message) = raise (handoff_error message)
  submission_failed error = release_submission_claim >> raise error

  abbrev pub release_after : EconomicImpactResult → Exec Session EconomicImpactResult
  release_after result = do release_submission_claim; pure result

  abbrev pub submit_unless_claimed :
      Fields × Fields → Option StartClaim → Exec Session EconomicImpactResult
  submit_unless_claimed policies (some claim) = pure (computing_result none)
  submit_unless_claimed policies none =
      attempt (handle_create_impact policies) submission_failed release_after

  -- _create_economic_impact
  unfoldable pub create_economic_impact : Exec Session EconomicImpactResult
  unfolding get_policy_jsons claim_submission handle_create_impact release_submission_claim
      computing_result
  create_economic_impact = do
    setup ← gets (λ s. s.setup)
    policies ← get_policy_jsons setup
    existing_claim ← claim_submission
    submit_unless_claimed policies existing_claim

  abbrev pub text_field : Json → Option String
  text_field (str s) = some s
  text_field j = none

  abbrev pub restore_stored : Option CachedReformImpact → Exec Session (Unit {0})
  restore_stored none = pure tt
  restore_stored (some impact) = do
    id ← restore_observability_id env (text_field impact.observability_id)
    set_id id

  -- _answer_from_stored_impact; only CREATE comes without an impact
  abbrev pub answer_by_action :
      ImpactAction → Option CachedReformImpact → Exec Session EconomicImpactResult
  answer_by_action ImpactAction.create impact = create_economic_impact
  answer_by_action action none = raise (value_error "Unexpected impact action")
  answer_by_action ImpactAction.completed (some impact) = handle_completed_impact env impact
  answer_by_action ImpactAction.failed (some impact) = handle_failed_impact env impact
  answer_by_action ImpactAction.computing (some impact) = handle_computing_impact env impact

  -- _get_or_create_economic_impact
  unfoldable pub get_or_create_economic_impact : Exec Session EconomicImpactResult
  unfolding get_reusable_impact determine_impact_action create_economic_impact
      handle_completed_impact handle_failed_impact handle_computing_impact restore_observability_id
  get_or_create_economic_impact = do
    impact ← get_reusable_impact env false
    action ← lift (determine_impact_action impact)
    restore_stored impact
    answer_by_action action impact
