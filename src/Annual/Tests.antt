-- ===== src/Annual/Tests.antt =====
-- The theorems on a single-year request at concrete inputs, and runs of the code.
use policyengine_api.Base.{◌≡◌, refl, String, [], ◌∷◌, none, some, ◌⊎◌, ◌∙◌, eq_refl, arith}
use policyengine_api.Json.{CacheText, obj, end}
use policyengine_api.Effect.{ok, raised, handoff_error, other_error}
use policyengine_api.Cache.Client.{Outcome}
use policyengine_api.Cache.Core.{jittered_ttl}
use policyengine_api.ReformImpacts.Sample.{world, setting}
use policyengine_api.Annual.Setup.{SetupOptions}
use policyengine_api.Annual.Request.{Environment, Execution, Session, computing_result}
use policyengine_api.Annual.Submission.{
  get_or_create_economic_impact, run_job, handle_create_impact, submit_unless_claimed,
}
use policyengine_api.Annual.Submission.Handoff.{own_key, submission_settles_claim}
use policyengine_api.Annual.Submission.Left.{left_claim}
use policyengine_api.Annual.Stored.{set_computing}
use policyengine_api.ReformImpacts.StartClaims.{encoded_start_claim}
use policyengine_api.ReformImpacts.StartClaims.Lifecycle.{claim}
use policyengine_api.Cache.Backend.Commands
use policyengine_api.Cache.Backend.Commands.{empty}
use policyengine_api.Cache.Backend.Expiry.{view, view-set}
use policyengine_api.Cache.Claims.Methods.{claim_options}
use policyengine_api.Annual.Submission.Once.{get_or_create_sends_at_most_once}
use policyengine_api.Annual.Deletion.{delete_failed_economic_impact}
use policyengine_api.Annual.Deletion.Locked.{IsDeletable, delete_failed_removes_only_old_failures}
use policyengine_api.ReformImpacts.Repository.OneGone.{OneRemoved}

abbrev execution : Execution
execution = record {
  job_id = "7a1";
  status = "submitted";
  result = none;
  error = none;
  policyengine_bundle = none;
  resolved_app_name = none;
  run_progress = none;
}

abbrev setup_hash : String
setup_hash = "[dataset=default&model_version=None&runtime_app_name=app]"

abbrev setup : SetupOptions
setup = record {
  submission_claim_id = "worker-1";
  observability_id = none;
  country_id = "us";
  reform_policy_id = 2;
  baseline_policy_id = 1;
  region = "ny";
  dataset = "default";
  time_period = "2026";
  options = end;
  api_version = "1";
  target = "general";
  model_version = none;
  policyengine_version = none;
  data_version = none;
  runtime_app_name = some "app";
  options_hash = some setup_hash;
}

abbrev env : Environment
env = record {
  setting = setting;
  ids = record { normalize = λ s. some s; incoming = none; generated = "6f1c" };
  now = 20_000_000;
  local_now = 20_000_000;
  resolve_app_name = λ country version bundle. ok ("app", none);
  get_policy_json = λ country id. ok (some (obj end));
  simulation_payload = λ setup baseline reform. ok tt;
  get_spm_capability = λ country version bundle. raised (other_error "unused");
  run = ok execution;
  refusal_message = λ e. "refused";
  poll = λ id. ok execution;
  certify = λ result spm period. ok tt;
  loads = λ s. none;
  other_text = λ j. "";
  repr = λ j. "";
}

abbrev session : Session
session = record {
  cache = world;
  setup = setup;
  current_id = none;
  submissions = [];
  capability_requests = [];
}

-- the reply of the second command, which stores the record, is lost
abbrev lossy : Session
lossy = record session {
  cache = record world { outcomes = Outcome.answered ∷ Outcome.reply_lost ∷ [] };
}

get_or_create_sends_at_most_once_example :
    let now = (get_or_create_economic_impact env lossy).1.submissions in
    (now ≡ []) ⊎ (now ≡ "worker-1" ∷ [])
get_or_create_sends_at_most_once_example = get_or_create_sends_at_most_once env lossy

-- a first request sends a job and tells that it is computed
abbrev first : Session
first = (get_or_create_economic_impact env session).1

first_request :
    ((get_or_create_economic_impact env session).0 ≡ ok (computing_result none))
    × (first.submissions ≡ "worker-1" ∷ [])
unfolding get_or_create_economic_impact jittered_ttl
first_request = (refl, refl)

-- the same worker's next request finds the job and sends none
next_request :
    let again = get_or_create_economic_impact env (record first { submissions = [] }) in
    (again.0 ≡ ok (computing_result none)) × (again.1.submissions ≡ [])
unfolding get_or_create_economic_impact jittered_ttl
next_request = (refl, refl)

-- The job fails, and its record becomes a failure.
abbrev failing : Environment
failing = record env { poll = λ id. ok (record execution { status = "failed" }) }

abbrev after_failure : Session
after_failure = (get_or_create_economic_impact failing first).1

-- ten seconds later
abbrev later : Environment
later = record env { now = 30_000_000 }

delete_failed_removes_only_old_failures_example :
    OneRemoved
      (IsDeletable later)
      after_failure.cache.backend
      (delete_failed_economic_impact later setup after_failure).1.cache.backend
delete_failed_removes_only_old_failures_example =
    delete_failed_removes_only_old_failures later setup after_failure

-- A request that owns the submission, whose job's record cannot be stored since the gateway named the
-- job by no hexadecimal identifier.
abbrev unnamed : Environment
unnamed = record env { run = ok (record execution { job_id = "?" }) }

abbrev owned_setup : SetupOptions
owned_setup = record setup { observability_id = some "6f1c" }

abbrev own_claim : CacheText
own_claim = encoded_start_claim (claim "worker-1" "6f1c")

abbrev owning : Session
owning = record session {
  setup = owned_setup;
  cache = record world {
    backend = (Commands.set (own_key unnamed owned_setup) own_claim (claim_options 300) empty).1;
  };
}

owning-Holds : view owning.cache.backend (own_key unnamed owned_setup) ≡ some own_claim
owning-Holds =
    let k = own_key unnamed owned_setup in
    view-set empty k own_claim (claim_options 300) k (λ e. grind (arith, e))
    ∙ unfold view in rw (eq_refl k) refl

submission_settles_claim_example :
    let k = own_key unnamed owned_setup in
    let done = submit_unless_claimed unnamed (end, end) none owning in
    let sent = (run_job unnamed owning).1 in
    (done.0 ≡ (handle_create_impact unnamed (end, end) owning).0)
    × (view done.1.cache.backend k
        ≡ left_claim
            (ok tt)
            unnamed.run
            (λ job_id. (set_computing unnamed job_id sent).0)
            own_claim)
unfolding Commands.set
submission_settles_claim_example =
    submission_settles_claim unnamed 2_592_000 end end "6f1c" setup_hash owning
      (unfold jittered_ttl in refl) refl refl refl refl (λ message never. absurd (cc never))
      (λ message never. absurd (cc never))
      (record { enabled = refl; faultless = refl; internal = refl }) owning-Holds

-- The job was sent and its record not stored, so the claim stays.
claim_kept :
    let sent = (run_job unnamed owning).1 in
    left_claim (ok tt) unnamed.run (λ job_id. (set_computing unnamed job_id sent).0) own_claim
    ≡ some own_claim
unfolding run_job set_computing
claim_kept = refl

handoff_failed :
    (handle_create_impact unnamed (end, end) owning).0
    ≡ raised
        (handoff_error "simulation was submitted but its execution state could not be handed off")
unfolding handle_create_impact
handoff_failed = refl
