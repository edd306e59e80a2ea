-- ===== src/Annual/Submission/Unsent.antt =====
-- services/economy_service.py: the steps of a submission that send no job.
use policyengine_api.Base.{ℕ, zero, suc, String, List, Option, none, some, Bool, true, false}
use policyengine_api.Effect.{Error, Exec}
use policyengine_api.Effect.Keeps.{keeps_rules, Keeps-bind}
use policyengine_api.Correlation.{resolve_observability_id}
use policyengine_api.ReformImpacts.Records.{CachedReformImpact}
use policyengine_api.ReformImpacts.StartClaims.{StartClaim}
use policyengine_api.Annual.Setup.{SetupOptions}
use policyengine_api.Annual.Request.{
  Environment, Execution, Session, start_observability_id, restore_observability_id,
  EconomicImpactResult,
}
use policyengine_api.Annual.Quiet.{
  Quiet, on_cache-Quiet, on_current_id-Quiet, resolve_runtime_bundle-Quiet, set_computing-Quiet,
}
use policyengine_api.Annual.Submission.{
  get_policy_jsons, refused, not_handed_off, hand_off, claim_submission_start,
  read_submission_claim, release_submission_claim, set_id, adopt_or_retry, own_or, claim_attempts,
  claim_loop, claim_submission, submission_failed, release_after, restore_stored,
}

module _ (env : Environment) (sent : List String) (token : String) where
  pub claim_start-Quiet :
      (candidate : String) → Quiet sent token (claim_submission_start env candidate)
  unfolding claim_submission_start
  claim_start-Quiet candidate = search (keeps_rules, on_cache-Quiet)

  pub read_claim-Quiet : Quiet sent token (read_submission_claim env)
  unfolding read_submission_claim
  read_claim-Quiet = search (keeps_rules, on_cache-Quiet)

  pub release_claim-Quiet : Quiet sent token (release_submission_claim env)
  unfolding release_submission_claim
  release_claim-Quiet = search (keeps_rules, on_cache-Quiet)

  pub set_id-Quiet : (id : Option String) → Quiet sent token (set_id env id)
  set_id-Quiet id = record { at = λ s h. h }

  pub start_id-Quiet :
      (candidate : String) → Quiet sent token (start_observability_id env candidate)
  unfolding start_observability_id
  start_id-Quiet candidate = on_current_id-Quiet sent token _

  pub restore_id-Quiet : (id : Option String) → Quiet sent token (restore_observability_id env id)
  unfolding restore_observability_id
  restore_id-Quiet id = on_current_id-Quiet sent token _

  pub adopt_or_retry-Quiet :
      (existing : Option StartClaim) (retry : Exec Session (Option StartClaim))
      → Quiet sent token retry
      → Quiet sent token (adopt_or_retry env existing retry)
  adopt_or_retry-Quiet none retry k = k
  adopt_or_retry-Quiet (some claim) retry k = search (keeps_rules, restore_id-Quiet, set_id-Quiet)

  pub own_or-Quiet :
      (claimed : Bool) (candidate : String) (other : Exec Session (Option StartClaim))
      → Quiet sent token other
      → Quiet sent token (own_or env claimed candidate other)
  own_or-Quiet true candidate other k = search (keeps_rules, start_id-Quiet, set_id-Quiet)
  own_or-Quiet false candidate other k = k

  pub claim_loop-Quiet :
      (attempts : ℕ) (candidate : String) → Quiet sent token (claim_loop env attempts candidate)
  unfolding claim_loop
  claim_loop-Quiet zero candidate = search keeps_rules
  claim_loop-Quiet (suc attempts) candidate =
      let again = claim_loop-Quiet attempts candidate in
      Keeps-bind _ _ (claim_start-Quiet candidate) (λ claimed.
        own_or-Quiet claimed candidate _
          (Keeps-bind _ _ read_claim-Quiet (λ existing. adopt_or_retry-Quiet existing _ again)))

  pub claim_submission-Quiet : Quiet sent token (claim_submission env)
  unfolding claim_submission
  claim_submission-Quiet =
      Keeps-bind _ _ (resolve_runtime_bundle-Quiet sent token env)
        (λ _. claim_loop-Quiet claim_attempts (resolve_observability_id env.ids env.ids.incoming))

  pub get_policy_jsons-Quiet :
      (setup : SetupOptions) → Quiet sent token (get_policy_jsons env setup)
  unfolding get_policy_jsons
  get_policy_jsons-Quiet setup = search keeps_rules depth 9

  pub restore_stored-Quiet :
      (impact : Option CachedReformImpact) → Quiet sent token (restore_stored env impact)
  restore_stored-Quiet none = search keeps_rules
  restore_stored-Quiet (some impact) = search (keeps_rules, restore_id-Quiet, set_id-Quiet)

  pub refused-Quiet : (setup : SetupOptions) (e : Error) → Quiet sent token (refused env setup e)
  unfolding refused
  refused-Quiet setup (Error.http_status_error code) = search keeps_rules
  refused-Quiet setup _ = search keeps_rules

  pub not_handed_off-Quiet : (e : Error) → Quiet sent token (not_handed_off env e)
  not_handed_off-Quiet (Error.handoff_error message) = search keeps_rules
  not_handed_off-Quiet _ = search keeps_rules

  pub hand_off-Quiet : (execution : Execution) → Quiet sent token (hand_off env execution)
  hand_off-Quiet execution =
      let stored = set_computing-Quiet sent token env in
      search (keeps_rules, stored, not_handed_off-Quiet)

  pub submission_failed-Quiet : (e : Error) → Quiet sent token (submission_failed env e)
  submission_failed-Quiet (Error.handoff_error message) = search keeps_rules
  submission_failed-Quiet _ = search (keeps_rules, release_claim-Quiet)

  pub release_after-Quiet :
      (result : EconomicImpactResult) → Quiet sent token (release_after env result)
  release_after-Quiet result = search (keeps_rules, release_claim-Quiet)
