-- ===== src/Annual/Submission/Left.antt =====
-- services/economy_service.py, economy_impact_execution.py: what a submission leaves of its start claim.
use policyengine_api.Base.{
  String, [], ◌∷◌, ◌++◌, Option, none, some, ◌&&◌, inl, inr, Bool-cases, ◌≡◌, refl,
}
use policyengine_api.Json.{CacheText, Fields}
use policyengine_api.Effect.{
  handoff_error, http_status_error, Result, ok, raised, pure, lift, try_except, attempt, ◌>>=◌,
}
use policyengine_api.ReformImpacts.Records.{CachedReformImpact}
use policyengine_api.Annual.Setup.{SetupOptions, has_option}
use policyengine_api.Annual.Request.{
  Environment, Execution, Session, EconomicImpactResult, computing_result,
}
use policyengine_api.Annual.Stored.{set_computing}
use policyengine_api.Annual.Submission.{
  is_refusal_code, run_job, refused, not_handed_off, hand_off, handle_create_impact,
}

-- What is left of a claim once the rest of the submission has ended this way.
abbrev pub ended : Result EconomicImpactResult → CacheText → Option CacheText
ended (raised (handoff_error message)) text = some text
ended _ text = none

-- what is left of the claim of a job that was accepted, by whether its record was stored
abbrev kept_unless_stored : Result CachedReformImpact → CacheText → Option CacheText
kept_unless_stored (ok impact) text = none
kept_unless_stored (raised e) text = some text

-- What is left of a claim, by what became of the payload, of the job at the gateway, and of the record
-- that is stored for the gateway's identifier of the job.
abbrev pub left_claim :
    Result (Unit {0})
    → Result Execution
    → (String → Result CachedReformImpact)
    → CacheText
    → Option CacheText
left_claim (ok built) (ok execution) stored text = kept_unless_stored (stored execution.job_id) text
left_claim (ok built) (raised e) stored text = none
left_claim (raised e) accepted stored text = none

-- It is no handoff error.
abbrev pub IsForeign : {A : Type 0} → Result A → Type 0
IsForeign {A} r = (message : String) → ¬ (r ≡ raised (handoff_error message))

module _ (env : Environment) (setup : SetupOptions) (text : CacheText) where
  handed :
      (r : Result CachedReformImpact) (t : Session)
      → ended
          (◌>>=◌
            (try_except (lift r) (not_handed_off env))
            (λ impact. pure (computing_result none))
            t).0
          text
        ≡ kept_unless_stored r text
  handed (ok impact) t = refl
  handed (raised (handoff_error message)) t = refl
  handed (raised e) t = refl

  ran :
      (r : Result Execution) (t : Session)
      → IsForeign r
      → ended (attempt (lift r) (refused env setup) (hand_off env) t).0 text
        ≡ left_claim (ok tt) r (λ job_id. (set_computing env job_id t).0) text
  unfolding refused
  ran (ok execution) t foreign = let (r, t') = set_computing env execution.job_id t in handed r t'
  ran (raised (handoff_error message)) t foreign = absurd (foreign message refl)
  ran (raised (http_status_error code)) t foreign =
      elim (Bool-cases (has_option "breakdown" setup.options && is_refusal_code code)) [
        | inl shown ↦ rw shown refl
        | inr other ↦ rw other refl
      ]
  ran (raised e) t foreign = refl

  built :
      (r : Result (Unit {0})) (s : Session)
      → IsForeign r
      → IsForeign env.run
      → ended
          (◌>>=◌ (lift r) (λ _. attempt (run_job env) (refused env setup) (hand_off env)) s).0
          text
        ≡ left_claim r env.run (λ job_id. (set_computing env job_id (run_job env s).1).0) text
  unfolding run_job
  built (ok u) s ours theirs =
      ran env.run (record s { submissions = s.submissions ++ s.setup.submission_claim_id ∷ [] })
        theirs
  built (raised (handoff_error message)) s ours theirs = absurd (ours message refl)
  built (raised e) s ours theirs = refl

pub handle_create_impact-left_claim :
    (env : Environment) (baseline reform : Fields) (s : Session) (text : CacheText)
    → let payload = env.simulation_payload s.setup baseline reform in
      IsForeign payload
      → IsForeign env.run
      → ended (handle_create_impact env (baseline, reform) s).0 text
        ≡ left_claim payload env.run (λ job_id. (set_computing env job_id (run_job env s).1).0) text
unfolding handle_create_impact
handle_create_impact-left_claim env baseline reform s text ours theirs =
    built env s.setup text (env.simulation_payload s.setup baseline reform) s ours theirs
