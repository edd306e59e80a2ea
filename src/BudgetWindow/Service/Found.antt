-- ===== src/BudgetWindow/Service/Found.antt =====
-- services/economy_budget_window_results.py: invariants of the cache and of the submissions, on the
-- path of a request that finds a state.
use policyengine_api.Base.{◌≡◌, refl, String, List, Option, arith}
use policyengine_api.Json.{Fields}
use policyengine_api.Effect.{Error, ok, spm_error, Exec}
use policyengine_api.Effect.Keeps.{Keeps, keeps_rules}
use policyengine_api.Cache.Client.{World}
use policyengine_api.BudgetWindow.State.{State, Status, FailureType, validated}
use policyengine_api.BudgetWindow.Store.{
  failed_state, completed_state, set_recoverable_state, set_terminal_error, set_completed_result,
  set_execution_failure,
}
use policyengine_api.BudgetWindow.Impact.{Impact}
use policyengine_api.BudgetWindow.Service.Request.{
  Batch, Environment, Request, on_cache, start_observability_id, restore_report_id,
}
use policyengine_api.BudgetWindow.Service.Results.{
  store_spm_error, store_failure, replay_failure, replay_result, poll_batch, report_batch,
  result_by_status,
}

-- an invariant of the cache and of the submissions
abbrev pub Upheld : (World → List Fields → Type 0) → Request → Type 0
Upheld P q = P q.cache q.submissions

module _ (P : World → List Fields → Type 0) where
  untouched-Keeps :
      {A : Type 0} (m : Exec Request A)
      → ((q : Request) → ((m q).1.cache ≡ q.cache) × ((m q).1.submissions ≡ q.submissions))
      → Keeps (Upheld P) m
  untouched-Keeps m same = record { at = λ q h. rw ((same q).0, (same q).1) h }

  pub start-Keeps :
      (env : Environment) (x : String) → Keeps (Upheld P) (start_observability_id env x)
  unfolding start_observability_id
  start-Keeps env x = untouched-Keeps _ (λ q. (ground arith, ground arith))

  pub restore-Keeps :
      (env : Environment) (x : Option String) → Keeps (Upheld P) (restore_report_id env x)
  unfolding restore_report_id
  restore-Keeps env x = untouched-Keeps _ (λ q. (ground arith, ground arith))

  pub on_cache-Keeps :
      {A : Type 0} (m : Exec World A)
      → ((sent : List Fields) → Keeps (λ w. P w sent) m)
      → Keeps (Upheld P) (on_cache m)
  on_cache-Keeps m k = record { at = λ q h. (k q.submissions).at q.cache h }

module _ (P : World → List Fields → Type 0) (env : Environment) (cache_key : String)
    (stores : (s : State) (operation : String) (sent : List Fields)
      → validated s ≡ ok s
      → Keeps (λ w. P w sent) (set_recoverable_state env.randint cache_key s operation)) where
  set_terminal_error-Keeps :
      (error : Fields) (id : Option String) (sent : List Fields)
      → Keeps (λ w. P w sent) (set_terminal_error env.randint cache_key error id)
  unfolding set_terminal_error validated
  set_terminal_error-Keeps error id sent =
      stores (failed_state FailureType.spm_validation error id) "write-spm-failure-state" sent refl

  set_completed_result-Keeps :
      (result : Fields) (id : Option String) (sent : List Fields)
      → Keeps (λ w. P w sent) (set_completed_result env.randint cache_key result id)
  unfolding set_completed_result validated
  set_completed_result-Keeps result id sent =
      stores (completed_state result id) "write-completed-state" sent refl

  set_execution_failure-Keeps :
      (result : Fields) (id : Option String) (sent : List Fields)
      → Keeps (λ w. P w sent) (set_execution_failure env.randint cache_key result id)
  unfolding set_execution_failure validated
  set_execution_failure-Keeps result id sent =
      stores (failed_state FailureType.execution result id) "write-execution-failure-state" sent
        refl

  ruleset writes = (
    on_cache-Keeps, set_terminal_error-Keeps, set_completed_result-Keeps,
    set_execution_failure-Keeps,
  )

  store_spm_error-Keeps :
      {A : Type 0} (e : Error) → Keeps (Upheld P) (store_spm_error env cache_key {A = A} e)
  unfolding store_spm_error
  store_spm_error-Keeps (spm_error code message) = search (keeps_rules, writes)
  store_spm_error-Keeps _ = search keeps_rules

  pub store_failure-Keeps : (r : Impact) → Keeps (Upheld P) (store_failure env cache_key r)
  unfolding store_failure
  store_failure-Keeps r = search (keeps_rules, writes)

  replay_failure-Keeps : (s : State) → Keeps (Upheld P) (replay_failure env cache_key s)
  unfolding replay_failure
  replay_failure-Keeps s = untouched-Keeps P _ (λ q. (ground arith, ground arith))

  replay_result-Keeps :
      (s : State) (years : List String) → Keeps (Upheld P) (replay_result env cache_key s years)
  unfolding replay_result
  replay_result-Keeps s years = search (keeps_rules, store_spm_error-Keeps)

  report_batch-Keeps :
      (b : Batch) (years : List String) (c : Option String)
      → Keeps (Upheld P) (report_batch env cache_key b years c)
  unfolding report_batch
  report_batch-Keeps b years c = search (keeps_rules, writes, store_failure-Keeps) depth 9

  poll_batch-Keeps :
      (id : String) (years : List String) (c : Option String)
      → Keeps (Upheld P) (poll_batch env cache_key id years c)
  unfolding poll_batch
  poll_batch-Keeps id years c = search (keeps_rules, store_spm_error-Keeps, report_batch-Keeps)

  pub result_by_status-Keeps :
      (x : Status) (s : State) (years : List String)
      → Keeps (Upheld P) (result_by_status env cache_key x s years)
  unfolding result_by_status
  result_by_status-Keeps Status.failed s years = replay_failure-Keeps s
  result_by_status-Keeps Status.completed s years = replay_result-Keeps s years
  result_by_status-Keeps Status.submitted s years = poll_batch-Keeps _ years _
  result_by_status-Keeps Status.starting s years = search keeps_rules
