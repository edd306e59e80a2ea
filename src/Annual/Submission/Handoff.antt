-- ===== src/Annual/Submission/Handoff.antt =====
-- services/economy_service.py: the start claim of a request that owns the submission, after it.
use policyengine_api.Base.{ℕ, String, none, some, Bool, false, ◌≡◌, refl, ◌∙◌, str_eq, eq_refl}
use policyengine_api.Json.{Json, CacheText, Fields}
use policyengine_api.Json.Equality.{text_eq_self}
use policyengine_api.Effect.{
  Error, handoff_error, http_status_error, Result, ok, raised, Exec, pure, raise, lift, attempt,
  >>=-ok,
}
use policyengine_api.Effect.Keeps.{Keeps, keeps_rules}
use policyengine_api.Cache.Backend.Expiry.{view}
use policyengine_api.Cache.Client.{World, IsCalm}
use policyengine_api.Cache.Claims.Methods.{release}
use policyengine_api.Cache.Claims.Replies.{release_lem}
use policyengine_api.Cache.Core.{completed_result_ttl}
use policyengine_api.ReformImpacts.{ReformImpactIdentity}
use policyengine_api.ReformImpacts.StartClaims.{family, encoded_start_claim, start_claim_key}
use policyengine_api.ReformImpacts.StartClaims.Lifecycle.{claim, release_start-release}
use policyengine_api.ReformImpacts.Repository.{ttl_seconds, nonempty}
use policyengine_api.ReformImpacts.Service.Holding.{Holds, set_reform_impact-HoldsClaim}
use policyengine_api.ReformImpacts.Service.{
  ReformImpactExecution, set_reform_impact, release_reform_impact_start,
}
use policyengine_api.Annual.Setup.{SetupOptions, reform_impact_identity}
use policyengine_api.Annual.Request.{
  Environment, Execution, Session, on_cache, EconomicImpactResult,
}
use policyengine_api.Annual.Stored.{set_computing}
use policyengine_api.Annual.Submission.{
  run_job, refused, not_handed_off, hand_off, handle_create_impact, claim_key,
  release_submission_claim, submission_failed, release_after, submit_unless_claimed,
}
use policyengine_api.Annual.Submission.Left.{
  ended, left_claim, IsForeign, handle_create_impact-left_claim,
}

-- the key of the claim of a request with these options
abbrev pub own_key : Environment → SetupOptions → String
own_key env setup =
    start_claim_key env.setting.sha256 env.setting.namespace (reform_impact_identity setup)
      setup.target

module _ (env : Environment) (ttl : ℕ)
    (chosen : completed_result_ttl ttl_seconds env.setting.choose_reduction ≡ ok ttl)
    (setup : SetupOptions) (text : CacheText) where
  abbrev key : String
  key = own_key env setup

  -- The request has these options, and its claim is in the cache, where no command fails.
  abbrev Owned : Session → Type 0
  Owned s = (s.setup ≡ setup) × Holds text key s.cache

  on_cache-Owned :
      {A : Type 0} (m : Exec World A) → Keeps (Holds text key) m → Keeps Owned (on_cache m)
  on_cache-Owned m km = record { at = λ s (e, h). (e, km.at s.cache h) }

  set_reform_impact-Owned :
      (written : ReformImpactIdentity) (execution : ReformImpactExecution) (options : Fields)
      (status : String) (result : Json)
      → Keeps Owned
          (on_cache (set_reform_impact env.setting written execution options status result))
  set_reform_impact-Owned written execution options status result = on_cache-Owned _ (
      set_reform_impact-HoldsClaim env.setting ttl chosen (reform_impact_identity setup)
        setup.target text written execution options status result)

  set_computing-Owned : (execution_id : String) → Keeps Owned (set_computing env execution_id)
  unfolding set_computing
  set_computing-Owned execution_id = search (keeps_rules, set_reform_impact-Owned)

  not_handed_off-Owned : (e : Error) → Keeps Owned (not_handed_off env e)
  not_handed_off-Owned (handoff_error message) = search keeps_rules
  not_handed_off-Owned _ = search keeps_rules

  hand_off-Owned : (execution : Execution) → Keeps Owned (hand_off env execution)
  hand_off-Owned execution = search (keeps_rules, set_computing-Owned, not_handed_off-Owned)

  refused-Owned : (options : SetupOptions) (e : Error) → Keeps Owned (refused env options e)
  unfolding refused
  refused-Owned options (http_status_error code) = search keeps_rules
  refused-Owned options _ = search keeps_rules

  run_job-Owned : Keeps Owned (run_job env)
  unfolding run_job
  run_job-Owned = record { at = λ s h. h }

  handle_create_impact-Owned :
      (policies : Fields × Fields) → Keeps Owned (handle_create_impact env policies)
  unfolding handle_create_impact
  handle_create_impact-Owned (baseline, reform) =
      search (keeps_rules, run_job-Owned, refused-Owned, hand_off-Owned)

  module _ (id : String) (named : setup.observability_id ≡ some id)
      (normal : env.ids.normalize id ≡ some id)
      (filled : str_eq setup.submission_claim_id "" ≡ false)
      (mine : text ≡ encoded_start_claim (claim setup.submission_claim_id id))
      (keyed : claim_key env setup ≡ ok key) where
    release-Holds :
        (w : World)
        → Holds text key w
        → let done =
            release_reform_impact_start env.ids.normalize key setup.submission_claim_id id w in
          (done.0 ≡ ok tt) × (view done.1.backend key ≡ none)
    unfolding release_reform_impact_start
    release-Holds w (calm, held) =
        let r = release_lem family key text w calm key in
        let same =
          release_start-release env.ids.normalize setup.submission_claim_id id filled normal key id
            normal in
        let m : Exec World Bool = release family key text in
        rw same (
          rw (← mine) (
            rw (>>=-ok m (λ removed. pure tt) w _ r.0)
              (refl, r.1 ∙ rw held (rw (text_eq_self text, eq_refl key) refl))))

    release-Owned :
        (s : Session)
        → Owned s
        → let done = release_submission_claim env s in
          (done.0 ≡ ok tt) × (view done.1.cache.backend key ≡ none)
    unfolding release_submission_claim
    release-Owned s (e, holding) =
        let r = release-Holds s.cache holding in rw e (rw named (rw keyed r))

    -- the rest of the submission, from what became of the job
    settled :
        (r : Result EconomicImpactResult) (s : Session)
        → Owned s
        → let done = attempt (lift r) (submission_failed env) (release_after env) s in
          (done.0 ≡ r) × (view done.1.cache.backend key ≡ ended r text)
    settled (ok result) s owned =
        let (returned, freed) = release-Owned s owned in
        let m = release_submission_claim env in
        rw (>>=-ok m (λ x. pure result) s tt returned) (refl, freed)
    settled (raised (handoff_error message)) s owned = (refl, owned.1.1)
    settled (raised e) s owned =
        let (returned, freed) = release-Owned s owned in
        let m = release_submission_claim env in
        rw (>>=-ok m (λ x. raise {A = EconomicImpactResult} e) s tt returned) (refl, freed)

-- Of a request that owns a submission: its claim stays in the cache exactly where the gateway accepted
-- the job and the job's record was not stored, so that no other worker sends the job again. It is gone
-- after every other end: a payload that cannot be built, a job that the gateway refuses, and a job
-- whose record is stored. The request ends as its job's submission does. No command fails, the claim is
-- in the cache under its key with a canonical identifier, the token and the options hash are not
-- empty, and neither the payload nor the gateway raises a handoff error of its own.
pub submission_settles_claim :
    (env : Environment) (ttl : ℕ) (baseline reform : Fields) (id options_hash : String)
    (s : Session)
    → completed_result_ttl ttl_seconds env.setting.choose_reduction ≡ ok ttl
    → s.setup.observability_id ≡ some id
    → env.ids.normalize id ≡ some id
    → str_eq s.setup.submission_claim_id "" ≡ false
    → nonempty s.setup.options_hash ≡ some options_hash
    → IsForeign (env.simulation_payload s.setup baseline reform)
    → IsForeign env.run
    → IsCalm s.cache
    → let k = own_key env s.setup in
      let text = encoded_start_claim (claim s.setup.submission_claim_id id) in
      view s.cache.backend k ≡ some text
      → let done = submit_unless_claimed env (baseline, reform) none s in
        let sent = (run_job env s).1 in
        (done.0 ≡ (handle_create_impact env (baseline, reform) s).0)
        × (view done.1.cache.backend k
            ≡ left_claim
                (env.simulation_payload s.setup baseline reform)
                env.run
                (λ job_id. (set_computing env job_id sent).0)
                text)
submission_settles_claim env ttl baseline reform id options_hash s chosen named normal filled hashed
      ours theirs calm held =
    let text = encoded_start_claim (claim s.setup.submission_claim_id id) in
    let policies : Fields × Fields = (baseline, reform) in
    let submitted = handle_create_impact env policies s in
    let owned =
      (handle_create_impact-Owned env ttl chosen s.setup text policies).at s (refl, (calm, held)) in
    let (returned, left) =
      settled env ttl chosen s.setup text id named normal filled refl (rw (claim_key, hashed) refl)
        submitted.0 submitted.1 owned in
    (returned, left ∙ handle_create_impact-left_claim env baseline reform s text ours theirs)
