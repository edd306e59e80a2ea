-- ===== src/Annual/Quiet.antt =====
-- services/economy_stored_impacts.py, economy_impact_execution.py: the methods of a request that send
-- the simulation gateway no job.
use policyengine_api.Base.{ℕ, String, List, Option, none, some, Bool, true, false, ◌≡◌, ◌∙◌}
use policyengine_api.Json.{Fields}
use policyengine_api.Effect.{Error, Result, ok, raised, Exec, modify, lift}
use policyengine_api.Effect.Keeps.{Keeps, keeps_rules, Keeps-pure, Keeps-bind, Keeps-lift}
use policyengine_api.Cache.Client.{World}
use policyengine_api.ReformImpacts.Records.{CachedReformImpact}
use policyengine_api.Annual.Setup.{SetupOptions}
use policyengine_api.Annual.Request.{Environment, Execution, Session, on_cache, on_current_id}
use policyengine_api.Annual.Stored.{
  resolved_setup, resolution, refreshed, should_refresh_cached_impact, resolve_unnamed,
  resolve_runtime_bundle, previous, get_most_recent_impact, exact_only, reselect, reuse,
  get_reusable_impact, set_computing, set_complete, set_error,
  failure_the_next_request_answers_from, stored_failure_result,
}
use policyengine_api.Annual.Execution.{
  set_own_error, set_own_complete, told, record_retryable_failure, finished, broken,
  handle_execution_state, record_spm_error, handle_computing_impact, code_or_replay,
  handle_failed_impact, record_uncertifiable, uncertified, handle_completed_impact,
}

-- The jobs sent so far are these, and the request's claim token is this one.
abbrev pub Sent : List String → String → Session → Type 0
Sent sent token s = (s.submissions ≡ sent) × (s.setup.submission_claim_id ≡ token)

module _ (sent : List String) (token : String) where
  -- The method sends no job, and keeps the token.
  abbrev pub Quiet : {A : Type 0} → Exec Session A → Type 0
  Quiet m = Keeps (Sent sent token) m

  pub on_cache-Quiet : {A : Type 0} (m : Exec World A) → Quiet (on_cache m)
  on_cache-Quiet m = record { at = λ s h. h }

  pub on_current_id-Quiet : {A : Type 0} (m : Exec (Option String) A) → Quiet (on_current_id m)
  on_current_id-Quiet m = record { at = λ s h. h }

  pub change-Quiet :
      (change : SetupOptions → SetupOptions)
      → ((setup : SetupOptions) → (change setup).submission_claim_id ≡ setup.submission_claim_id)
      → Quiet (modify (λ s. record s { setup = change s.setup }))
  change-Quiet change same = record { at = λ s h. (h.0, same s.setup ∙ h.1) }

  module _ (env : Environment) where
    refreshed-Quiet :
        (cached : Fields) (r : Result (String × Option String)) → Quiet (refreshed env cached r)
    unfolding resolved_setup
    refreshed-Quiet cached (raised e) = search keeps_rules
    refreshed-Quiet cached (ok (app_name, version)) = record { at = λ s h. h }

    should_refresh-Quiet :
        (impact : CachedReformImpact) → Quiet (should_refresh_cached_impact env impact)
    unfolding should_refresh_cached_impact
    should_refresh-Quiet impact = search (keeps_rules, refreshed-Quiet)

    resolve_unnamed-Quiet :
        (app_name : Option String) (setup : SetupOptions)
        → Quiet (resolve_unnamed env app_name setup)
    unfolding resolved_setup
    resolve_unnamed-Quiet none setup =
        Keeps-bind {A = String × Option String} (lift (resolution env setup)) _ (Keeps-lift _)
          (λ named. record { at = λ s h. h })
    resolve_unnamed-Quiet (some app_name) setup = record { at = λ s h. h }

    pub resolve_runtime_bundle-Quiet : Quiet (resolve_runtime_bundle env)
    unfolding resolve_runtime_bundle
    resolve_runtime_bundle-Quiet = search (keeps_rules, resolve_unnamed-Quiet)

    module _ (fail_closed : Bool) where
      previous-Quiet :
          (setup : SetupOptions) (options_hash : Option String)
          → Quiet (previous env fail_closed setup options_hash)
      previous-Quiet setup none = search keeps_rules
      previous-Quiet setup (some options_hash) = on_cache-Quiet _

      get_most_recent_impact-Quiet : Quiet (get_most_recent_impact env fail_closed)
      unfolding get_most_recent_impact
      get_most_recent_impact-Quiet = search (keeps_rules, previous-Quiet)

      exact_only-Quiet :
          (impact : Option CachedReformImpact) → Quiet (exact_only env fail_closed impact)
      exact_only-Quiet none = search keeps_rules
      exact_only-Quiet (some impact) = search keeps_rules

      reselect-Quiet :
          (impact : CachedReformImpact) (refresh : Bool)
          → Quiet (reselect env fail_closed impact refresh)
      reselect-Quiet impact false = search keeps_rules
      reselect-Quiet impact true =
          search (keeps_rules, get_most_recent_impact-Quiet, exact_only-Quiet)

      reuse-Quiet : (impact : Option CachedReformImpact) → Quiet (reuse env fail_closed impact)
      reuse-Quiet none = search keeps_rules
      reuse-Quiet (some impact) = search (keeps_rules, should_refresh-Quiet, reselect-Quiet)

      pub get_reusable_impact-Quiet : Quiet (get_reusable_impact env fail_closed)
      unfolding get_reusable_impact
      get_reusable_impact-Quiet = search (keeps_rules, get_most_recent_impact-Quiet, reuse-Quiet)

    pub set_computing-Quiet : (execution_id : String) → Quiet (set_computing env execution_id)
    unfolding set_computing
    set_computing-Quiet execution_id = record { at = λ s h. h }

    set_own_error-Quiet :
        (id : Option String) (message : String) (code : Option String) (keep : Option ℕ)
        → Quiet (set_own_error env id message code keep)
    unfolding set_error
    set_own_error-Quiet none message code keep = search keeps_rules
    set_own_error-Quiet (some id) message code keep = on_cache-Quiet _

    set_own_complete-Quiet :
        (id : Option String) (result : Fields) → Quiet (set_own_complete env id result)
    unfolding set_complete
    set_own_complete-Quiet none result = search keeps_rules
    set_own_complete-Quiet (some id) result = on_cache-Quiet _

    failure_the_next-Quiet :
        (stored : Option CachedReformImpact)
        → Quiet (failure_the_next_request_answers_from env stored)
    unfolding failure_the_next_request_answers_from
    failure_the_next-Quiet none = search keeps_rules
    failure_the_next-Quiet (some failure) =
        let selected = get_most_recent_impact-Quiet false in search (keeps_rules, selected)

    stored_failure_result-Quiet :
        (message : String) (stored : Option CachedReformImpact)
        → Quiet (stored_failure_result env message stored)
    unfolding stored_failure_result
    stored_failure_result-Quiet message none = search keeps_rules
    stored_failure_result-Quiet message (some failure) =
        Keeps-bind _ _ (on_cache-Quiet _) (λ seconds. Keeps-pure _)

    told-Quiet :
        (message : String) (stored : Option CachedReformImpact) → Quiet (told env message stored)
    told-Quiet message stored =
        search (keeps_rules, failure_the_next-Quiet, stored_failure_result-Quiet)

    record_retryable-Quiet :
        (impact : CachedReformImpact) (reason note : String)
        → Quiet (record_retryable_failure env impact reason note)
    unfolding record_retryable_failure
    record_retryable-Quiet impact reason note =
        search (keeps_rules, set_own_error-Quiet, told-Quiet)

    finished-Quiet :
        (impact : CachedReformImpact) (execution : Execution) (setup : SetupOptions)
        (kind_error : Option String)
        → Quiet (finished env impact execution setup kind_error)
    finished-Quiet impact execution setup none = Keeps-bind _ _ (Keeps-lift _) (λ _.
        Keeps-bind _ _ (set_own_complete-Quiet impact.execution_id _) (λ stored. Keeps-pure _))
    finished-Quiet impact execution setup (some kind_error) = record_retryable-Quiet impact _ _

    broken-Quiet :
        (impact : CachedReformImpact) (message : String) (note : Option String)
        → Quiet (broken env impact message note)
    broken-Quiet impact message none = search (keeps_rules, set_own_error-Quiet, told-Quiet)
    broken-Quiet impact message (some note) = record_retryable-Quiet impact message note

    handle_execution_state-Quiet :
        (state : String) (impact : CachedReformImpact) (execution : Execution)
        → Quiet (handle_execution_state env state impact execution)
    unfolding handle_execution_state
    handle_execution_state-Quiet state impact execution =
        search (keeps_rules, finished-Quiet, broken-Quiet) depth 9

    record_spm_error-Quiet : (id : Option String) (e : Error) → Quiet (record_spm_error env id e)
    record_spm_error-Quiet id (Error.spm_error code message) =
        search (keeps_rules, set_own_error-Quiet)
    record_spm_error-Quiet id _ = search keeps_rules

    pub handle_computing-Quiet :
        (impact : CachedReformImpact) → Quiet (handle_computing_impact env impact)
    unfolding handle_computing_impact
    handle_computing-Quiet impact =
        search (keeps_rules, handle_execution_state-Quiet, record_spm_error-Quiet)

    code_or_replay-Quiet :
        (impact : CachedReformImpact) (typed : Bool) → Quiet (code_or_replay env impact typed)
    code_or_replay-Quiet impact true = search keeps_rules
    code_or_replay-Quiet impact false = stored_failure_result-Quiet _ _

    pub handle_failed-Quiet :
        (impact : CachedReformImpact) → Quiet (handle_failed_impact env impact)
    unfolding handle_failed_impact
    handle_failed-Quiet impact = code_or_replay-Quiet impact _

    record_uncertifiable-Quiet :
        (impact : CachedReformImpact) (code message : String)
        → Quiet (record_uncertifiable env impact code message)
    unfolding record_uncertifiable
    record_uncertifiable-Quiet impact code message =
        search (keeps_rules, set_own_error-Quiet) depth 9

    uncertified-Quiet : (impact : CachedReformImpact) (e : Error) → Quiet (uncertified env impact e)
    uncertified-Quiet impact (Error.spm_error code message) =
        search (keeps_rules, record_uncertifiable-Quiet)
    uncertified-Quiet impact _ = search keeps_rules

    pub handle_completed-Quiet :
        (impact : CachedReformImpact) → Quiet (handle_completed_impact env impact)
    unfolding handle_completed_impact
    handle_completed-Quiet impact = search (keeps_rules, uncertified-Quiet) depth 9
