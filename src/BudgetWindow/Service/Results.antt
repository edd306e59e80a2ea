-- ===== src/BudgetWindow/Service/Results.antt =====
-- services/economy_budget_window_results.py: `BudgetWindowResultsMixin`.
use Prim.Native.String.{◌++◌}
use policyengine_api.Base.{
  String, List, [], ◌∷◌, Option, none, some, Bool, true, false, ◌||◌, str_eq, if◌then◌else◌, length,
}
use policyengine_api.Json.{str, Fields, end, field, lookup}
use policyengine_api.Effect.{
  Error, Result, ok, spm_error, validation_error, value_error, Exec, pure, raise, gets, lift,
  try_except, ◌>>=◌, ◌>>◌,
}
use policyengine_api.BudgetWindow.State.{State, Status, FailureType}
use policyengine_api.BudgetWindow.Store.{
  set_terminal_error, set_completed_result, set_execution_failure,
}
use policyengine_api.BudgetWindow.Impact.{
  Impact, YearProgress, completed_impact, failed_impact, computing_result, model_dump,
  model_validate,
}
use policyengine_api.BudgetWindow.Service.Request.{Batch, Environment, Request, on_cache}

abbrev empty_dict : Option Fields → Bool
empty_dict none = true
empty_dict (some end) = true
empty_dict (some (field k v rest)) = false

abbrev fields_or_empty : Option Fields → Fields
fields_or_empty none = end
fields_or_empty (some f) = f

-- SPMValidationError.to_dict
abbrev spm_dict : String → String → Fields
spm_dict code message = field "code" (str code) (field "message" (str message) end)

abbrev pub queued_only : List String → YearProgress
queued_only years = record { completed_years = []; computing_years = []; queued_years = years }

module _ (env : Environment) (cache_key : String) where
  -- except SPMValidationError: record it as the report's terminal error, and raise it again
  unfoldable pub store_spm_error : {A : Type 0} → Error → Exec Request A
  unfolding set_terminal_error
  store_spm_error (spm_error code message) = do
    observability_id ← gets (λ s. s.observability_id)
    on_cache (set_terminal_error env.randint cache_key (spm_dict code message) observability_id)
    raise (spm_error code message)
  store_spm_error error = raise error

  -- str(cached_error.get(key, default))
  abbrev text_field : String → String → Fields → String
  text_field key default f = elim (lookup key f) [
    | none ↦ default
    | some (str t) ↦ t
    | some j ↦ env.text_of j
  ]

  abbrev validated_replay : Option Impact → Exec Request Impact
  validated_replay none = raise (validation_error "the stored failure is no budget-window result")
  validated_replay (some r) = pure (record r { cache_status = some "failure-hit" })

  -- _replay_budget_window_failure
  unfoldable pub replay_failure : State → Exec Request Impact
  unfolding lookup
  replay_failure s = elim s.failure_type [
    | some FailureType.spm_validation ↦ raise (
        spm_error (text_field "code" "SPM_VALIDATION_ERROR" (fields_or_empty s.error))
          (text_field "message" "Stored budget-window validation failed" (fields_or_empty s.error)))
    | _ ↦ validated_replay (model_validate (fields_or_empty s.error))
  ]

  -- _replay_budget_window_result
  unfoldable pub replay_result : State → List String → Exec Request Impact
  unfolding store_spm_error
  replay_result s years = do
    try_except (lift (env.certify (fields_or_empty s.result) years)) store_spm_error
    pure (completed_impact (fields_or_empty s.result) (some "result-hit"))

  abbrev certified : Batch → List String → Result (Unit {0})
  certified batch years =
      if str_eq batch.status "complete"
      then (if empty_dict batch.result
          then ok tt
          else env.certify (fields_or_empty batch.result) years)
      else ok tt

  abbrev or_all : List String → List String → List String
  or_all [] years = years
  or_all (y ∷ queued) years = y ∷ queued

  abbrev years_of_failure : Batch → List String → YearProgress
  years_of_failure batch years = record {
    completed_years = batch.completed_years;
    computing_years = batch.running_years;
    queued_years = or_all batch.queued_years years;
  }

  unfoldable pub store_failure : Impact → Exec Request Impact
  unfolding set_execution_failure
  store_failure failed = do
    observability_id ← gets (λ s. s.observability_id)
    on_cache (set_execution_failure env.randint cache_key (model_dump failed) observability_id)
    pure failed

  abbrev text_or : Option String → String → String
  text_or none default = default
  text_or (some t) default = if str_eq t "" then default else t

  abbrev finish_batch : Batch → List String → Option String → Exec Request Impact
  finish_batch batch years cache_status =
      if empty_dict batch.result
      then store_failure (
          failed_impact "Budget-window batch completed without a result"
            (years_of_failure batch years) cache_status)
      else do
        observability_id ← gets (λ s. s.observability_id)
        on_cache (
            set_completed_result env.randint cache_key (fields_or_empty batch.result)
              observability_id)
        pure (completed_impact (fields_or_empty batch.result) cache_status)

  -- the report of a batch, by its status
  unfoldable pub report_batch : Batch → List String → Option String → Exec Request Impact
  unfolding store_failure set_completed_result
  report_batch batch years cache_status =
      if str_eq batch.status "complete"
      then finish_batch batch years cache_status
      else if str_eq batch.status "failed"
      then store_failure (
          failed_impact (text_or batch.error "Budget-window batch failed")
            (years_of_failure batch years) cache_status)
      else if str_eq batch.status "submitted" || str_eq batch.status "running"
      then pure (
          computing_result (length years)
            (record {
              completed_years = batch.completed_years;
              computing_years = batch.running_years;
              queued_years = batch.queued_years;
            })
            batch.progress cache_status)
      else raise (value_error ("Unexpected budget-window batch execution state: " ++ batch.status))

  -- _get_budget_window_result_from_batch_job_id
  unfoldable pub poll_batch : String → List String → Option String → Exec Request Impact
  unfolding store_spm_error report_batch
  poll_batch batch_job_id years cache_status = do
    batch ←
        try_except
          (do batch ← lift (env.poll batch_job_id); lift (certified batch years); pure batch)
          store_spm_error
    report_batch batch years cache_status

  abbrev id_or_empty : Option String → String
  id_or_empty none = ""
  id_or_empty (some x) = x

  -- the branches of _budget_window_result_from_state
  unfoldable pub result_by_status : Status → State → List String → Exec Request Impact
  unfolding replay_failure replay_result poll_batch
  result_by_status Status.failed s years = replay_failure s
  result_by_status Status.completed s years = replay_result s years
  result_by_status Status.submitted s years =
      poll_batch (id_or_empty s.batch_job_id) years (some "batch-id-hit")
  result_by_status Status.starting s years =
      pure
        (computing_result (length years) (queued_only years) (some 0) (some "starting-claim-hit"))
