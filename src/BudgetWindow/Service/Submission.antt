-- ===== src/BudgetWindow/Service/Submission.antt =====
-- services/economy_budget_window_submission.py: `BudgetWindowSubmissionMixin`.
use policyengine_api.Base.{
  ℕ, zero, suc, String, List, [], ◌∷◌, ◌++◌, Option, none, some, Bool, true, false, ◌||◌, ◌==◌,
  if◌then◌else◌, length,
}
use policyengine_api.Effect.{
  Error, coordination_error, http_status_error, Exec, pure, raise, gets, lift, modify, attempt,
  ◌>>=◌, ◌>>◌,
}
use policyengine_api.BudgetWindow.State.{State}
use policyengine_api.BudgetWindow.Store.{
  get_state, claim_batch_start, clear_starting_claim, store_submitted,
}
use policyengine_api.BudgetWindow.Impact.{Impact, failed_impact, computing_result}
use policyengine_api.BudgetWindow.Service.Request.{
  Environment, Request, on_cache, resolve_observability_id, start_observability_id,
  restore_report_id,
}
use policyengine_api.BudgetWindow.Service.Results.{queued_only, store_failure, result_by_status}

abbrev pub claim_attempts : ℕ
claim_attempts = 3

-- BUDGET_WINDOW_SUBMISSION_VALIDATION_ERROR_STATUS_CODES
abbrev pub is_refusal : Error → Bool
is_refusal (http_status_error code) = code == 400 || code == 422
is_refusal _ = false

module _ (env : Environment) (cache_key claim_token : String) where
  abbrev pub adopt_or_retry : Option State → Exec Request Bool → Exec Request Bool
  adopt_or_retry none retry = retry
  adopt_or_retry (some s) retry = do restore_report_id env s.observability_id; pure false

  abbrev pub own_or : Bool → String → Exec Request Bool → Exec Request Bool
  own_or true candidate other = do
    started ← start_observability_id env candidate
    modify (λ s. record s { observability_id = some started })
    pure true
  own_or false candidate other = other

  -- _claim_budget_window_start, with the attempts that are left
  unfoldable pub claim_start : ℕ → String → Exec Request Bool
  unfolding claim_batch_start get_state start_observability_id restore_report_id
  claim_start zero candidate =
      raise (coordination_error "budget-window submission ownership changed repeatedly")
  claim_start (suc attempts) candidate = do
    claimed ← on_cache (claim_batch_start cache_key claim_token (some candidate))
    own_or claimed candidate (do
      state ← on_cache (get_state cache_key)
      adopt_or_retry state (claim_start attempts candidate))

  -- _start_budget_window_batch: the gateway is sent the batch's payload
  unfoldable pub start_batch : Exec Request String
  start_batch s = (env.submit, record s { submissions = s.submissions ++ env.batch_payload ∷ [] })

  unfoldable pub release_claim : Exec Request (Unit {0})
  unfolding clear_starting_claim
  release_claim = do
    observability_id ← gets (λ s. s.observability_id)
    on_cache (clear_starting_claim cache_key claim_token observability_id)

  -- the `except` clauses of _submit_claimed_budget_window_batch
  unfoldable pub submission_failed : List String → Error → Exec Request (Option Impact)
  unfolding store_failure release_claim
  submission_failed years error =
      if is_refusal error
      then (do
        failed ←
            store_failure env cache_key
              (failed_impact env.refusal_message (queued_only years) (some "miss"))
        pure (some failed))
      else release_claim >> raise error

  unfoldable pub submit_claimed : List String → Exec Request (Option Impact)
  unfolding start_batch store_submitted submission_failed
  submit_claimed years =
      attempt
        (do
          batch_job_id ← start_batch
          observability_id ← gets (λ s. s.observability_id)
          on_cache (store_submitted cache_key batch_job_id observability_id))
        (submission_failed years) (λ _. pure none)

  abbrev pub queued_result : List String → String → Impact
  queued_result years cache_status =
      computing_result (length years) (queued_only years) (some 0) (some cache_status)

  abbrev pub rejected_or_queued : List String → Option Impact → Exec Request Impact
  rejected_or_queued years none = pure (queued_result years "miss")
  rejected_or_queued years (some rejected) = pure rejected

  abbrev pub when_owned : List String → Bool → Exec Request Impact
  when_owned years true = do rejected ← submit_claimed years; rejected_or_queued years rejected
  when_owned years false = pure (queued_result years "starting-claim-hit")

  -- _submit_budget_window
  unfoldable pub submit_report : List String → Exec Request Impact
  unfolding claim_start submit_claimed resolve_observability_id
  submit_report years = do
    lift env.load_policies
    let candidate = resolve_observability_id env env.incoming_observability_id
    owns_claim ← claim_start claim_attempts candidate
    when_owned years owns_claim

  abbrev pub answer_state : List String → Option State → Exec Request Impact
  answer_state years none = submit_report years
  answer_state years (some s) = do
    restore_report_id env s.observability_id
    result_by_status env cache_key s.status s years

  -- get_budget_window_economic_impact, from the cache key on; every status of a state is answered
  -- by `result_by_status`
  unfoldable pub answer : List String → Exec Request Impact
  unfolding get_state submit_report restore_report_id result_by_status
  answer years = do state ← on_cache (get_state cache_key); answer_state years state
