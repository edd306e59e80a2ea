-- ===== src/BudgetWindow/Tests.antt =====
-- The theorems on budget-window reports at concrete inputs, and runs of the request handler.
use mathlib.Core.Option
use Prim.Native.String.{◌++◌}
use policyengine_api.Base.{
  ◌||◌, Option, ◌≡◌, refl, arith, All, String, List, [], ◌∷◌, none, some, false, ◌⊎◌, if◌then◌else◌,
  str_eq, ◌&&◌,
}
use policyengine_api.Base.Int.{ℤ, pos}
use policyengine_api.BudgetWindow.Setup.{
  BudgetWindowRequestSetup, str_of, build_budget_window_request_setup,
}
use policyengine_api.BudgetWindow.Setup.Years.{
  IsWindow, setup-IsWindow, build_budget_window_request_setup_lem, IsAllowed,
}
use policyengine_api.Base.Decimal.{decimal}
use policyengine_api.Json.{str, end, field, get, lookup}
use policyengine_api.Json.Canonical.{canonical_fields, dumps}
use policyengine_api.Effect.{Error, ok, raised, client_error, coordination_error, http_status_error}
use policyengine_api.Cache.Backend.Commands.{empty}
use policyengine_api.Cache.Backend.Expiry.{view}
use policyengine_api.Cache.Client.{World, Outcome, IsCalm, client_get}
use policyengine_api.BudgetWindow.State.{State, FailureType, validated, read_state, sorted}
use policyengine_api.BudgetWindow.Store.{
  state_key, encoded_state, decode_state, get_state, store_submitted, submitted_state, failed_state,
  report_read, set_recoverable_state, send_state,
}
use policyengine_api.BudgetWindow.Store.Reads.{
  read_view, unreadable, get_state_lem, get_state-IsCalm, decode_state-encoded_state,
}
use policyengine_api.BudgetWindow.Impact.{
  Impact, model_dump, model_validate, validate_impact, computing_result, failed_impact,
}
use policyengine_api.Cache.Core.{jittered_ttl}
use policyengine_api.BudgetWindow.Impact.RoundTrip.{with_sorted_data, model_validate-model_dump}
use policyengine_api.BudgetWindow.Service.Request.{
  Batch, Environment, begin, resolve_observability_id,
}
use policyengine_api.BudgetWindow.Service.Submission.{answer, queued_result}
use policyengine_api.BudgetWindow.Service.Fresh.Outcomes.{
  answer_stores_job, answer_releases_claim, refusal_replayed,
}
use policyengine_api.BudgetWindow.Service.Owned.{Claimed}
use policyengine_api.BudgetWindow.Service.Live.{Visit, attend, submitted_once_a_day}
use policyengine_api.BudgetWindow.Service.Results.{queued_only}
use policyengine_api.BudgetWindow.Service.Once.{answer_submits_once, answer_found_submits_nothing}

abbrev world : World
world = record { backend = empty; disabled = false; outcomes = []; events = [] }

world-IsCalm : IsCalm world
world-IsCalm = record { enabled = refl; faultless = refl; internal = refl }

abbrev running : Batch
running = record {
  status = "running";
  progress = some 50;
  completed_years = "2026" ∷ [];
  running_years = "2027" ∷ [];
  queued_years = [];
  result = none;
  error = none;
}

abbrev env : Environment
env = record {
  load_policies = ok tt;
  batch_payload = field "start_year" (str "2026") end;
  submit = ok "batch-7";
  refusal_message = "refused";
  poll = λ id. ok running;
  certify = λ result years. ok tt;
  incoming_observability_id = none;
  generated_observability_id = "obs-1";
  normalize = λ x. some x;
  randint = λ low high. pos 0;
  text_of = λ j. "?";
}

abbrev refusing : Environment
refusing = record env { submit = raised (http_status_error 422) }

abbrev years : List String
years = "2026" ∷ "2027" ∷ []

abbrev waiting : World
unfolding store_submitted
waiting = (store_submitted "report" "batch-7" (some "obs-1") world).1

answer_submits_once_example :
    let sent = (answer env "report" "worker-1" years (begin world)).1.submissions in
    let (state, after) = get_state "report" world in
    (sent ≡ [])
    ⊎ ((sent ≡ env.batch_payload ∷ [])
        × (state ≡ ok none)
        × Claimed "report" "worker-1" (resolve_observability_id env none) 3 after)
answer_submits_once_example = answer_submits_once env "report" "worker-1" years world

answer_found_submits_nothing_example :
    (answer env "report" "worker-2" years (begin waiting)).1.submissions ≡ []
answer_found_submits_nothing_example =
    answer_found_submits_nothing env "report" "worker-2" years waiting
      (submitted_state "batch-7" (some "obs-1"))
      (unfold waiting get_state client_get report_read decode_state dumps read_state in refl)

get_state_lem_example :
    (get_state "report" (record world { outcomes = Outcome.refused ∷ [] })).0
    ≡ elim (client_get (state_key "report") (record world { outcomes = Outcome.refused ∷ [] })).0 [
      | ok value ↦ ok (read_view value)
      | raised e ↦ raised (coordination_error "budget-window coordination state is unavailable")
    ]
get_state_lem_example = get_state_lem "report" (record world { outcomes = Outcome.refused ∷ [] })

get_state-IsCalm_example :
    ((get_state "report" world).0 ≡ ok (read_view (view world.backend (state_key "report"))))
    × (view (get_state "report" world).1.backend "other" ≡ (
        if unreadable (view world.backend (state_key "report"))
          && str_eq (state_key "report") "other"
        then none
        else view world.backend "other"))
    × IsCalm (get_state "report" world).1
get_state-IsCalm_example = get_state-IsCalm "report" world "other" world-IsCalm

abbrev refused : State
refused = failed_state FailureType.execution (field "status" (str "error") end) none

decode_state-encoded_state_example : decode_state (encoded_state refused) ≡ some (sorted refused)
decode_state-encoded_state_example = decode_state-encoded_state refused (unfold validated in refl)

abbrev failure : Impact
unfolding failed_impact
failure =
    failed_impact "refused"
      (record { completed_years = []; computing_years = []; queued_years = years }) (some "miss")

model_validate-model_dump_example :
    model_validate (canonical_fields (model_dump failure)) ≡ some (with_sorted_data failure)
model_validate-model_dump_example = model_validate-model_dump failure

abbrev unreachable : Environment
unreachable = record env { submit = raised client_error }

obs_1 : resolve_observability_id env none ≡ "obs-1"
unfolding resolve_observability_id
obs_1 = refl

free : view world.backend (state_key "report") ≡ none
unfolding view
free = refl

answer_stores_job_example :
    let r = answer env "report" "worker-1" years (begin world) in
    (r.0 ≡ ok (queued_result env "report" "worker-1" years "miss"))
    × (view r.1.cache.backend (state_key "report")
        ≡ some (encoded_state (submitted_state "batch-7" (some "obs-1"))))
    × IsCalm r.1.cache
answer_stores_job_example =
    answer_stores_job env "report" "worker-1" refl "obs-1" obs_1 refl refl world world-IsCalm free
      years "batch-7" refl refl

answer_releases_claim_example :
    let r = answer unreachable "report" "worker-1" years (begin world) in
    (r.0 ≡ raised client_error)
    × (view r.1.cache.backend (state_key "report") ≡ none)
    × IsCalm r.1.cache
answer_releases_claim_example =
    answer_releases_claim unreachable "report" "worker-1" refl "obs-1"
      (unfold resolve_observability_id in refl) refl refl world world-IsCalm free years client_error
      refl refl

refusal_replayed_example :
    let first = answer refusing "report" "worker-1" years (begin world) in
    let refusal = failed_impact "refused" (queued_only years) (some "miss") in
    (first.0 ≡ ok refusal)
    × ((answer env "report" "worker-2" years (begin first.1.cache)).0
        ≡ ok (record refusal { cache_status = some "failure-hit" }))
refusal_replayed_example =
    refusal_replayed refusing "report" "worker-1" refl "obs-1"
      (unfold resolve_observability_id in refl) refl refl world world-IsCalm free years
      (http_status_error 422) 0 env "worker-2" years refl refl refl (omega arith)

abbrev failing_batch : Batch
failing_batch = record running { status = "failed"; error = some "out of memory" }

abbrev visits : List Visit
visits =
    record { pause = 60_000_000; environment = env; claim_token = "worker-2"; years = years }
    ∷ record {
      pause = 40_000_000_000;
      environment = record env { poll = λ id. ok failing_batch };
      claim_token = "worker-3";
      years = years;
    }
    ∷ record { pause = 40_000_000_000; environment = env; claim_token = "worker-4"; years = years }
    ∷ []

submitted_once_a_day_example : All (λ sent. sent ≡ []) (attend "report" visits waiting)
unfolding waiting
submitted_once_a_day_example =
    submitted_once_a_day "report" "batch-7" (some "obs-1") visits world world-IsCalm
      (unfold store_submitted client_get dumps in refl) (omega arith)

-- The first request submits, and the second one sees the batch at work.
first_submits :
    (answer env "report" "worker-1" years (begin world)).1.submissions ≡ env.batch_payload ∷ []
unfolding answer client_get report_read dumps
first_submits = refl

second_polls :
    let (reply, after) = answer env "report" "worker-2" years (begin waiting) in
    ((elim reply [ ok r ↦ r.message | raised e ↦ none ]) ≡ some "Scoring 2027 (1 of 2 complete)...")
    × (after.submissions ≡ [])
unfolding waiting answer client_get report_read decode_state dumps read_state computing_result
second_polls = (refl, refl)

-- A refusal is stored and replayed to the next request, which submits nothing.
refusal_seen_again :
    let (first, after) = answer refusing "report" "worker-1" years (begin world) in
    let (second, last) = answer env "report" "worker-2" years (begin after.cache) in
    ((elim second [ ok r ↦ r.cache_status | raised e ↦ none ]) ≡ some "failure-hit")
    × ((elim second [ ok r ↦ r.error | raised e ↦ none ]) ≡ some "refused")
    × (last.submissions ≡ [])
unfolding answer client_get report_read dumps set_recoverable_state send_state jittered_ttl
    decode_state read_state model_validate validate_impact model_dump failed_impact
refusal_seen_again = (refl, refl, refl)

abbrev int_of : String → Option ℤ
int_of text = if str_eq text "2026" || str_eq text " 2026" then some (pos 2026) else none

abbrev window : BudgetWindowRequestSetup
window = record {
  start_year = "2026";
  window_size = 2;
  years = "2026" ∷ "2027" ∷ [];
  time_period = "budget_window:2026:2";
}

window_accepted : build_budget_window_request_setup int_of " 2026" (pos 2) "general" ≡ ok window
unfolding build_budget_window_request_setup
window_accepted = refl

setup-IsWindow_example : IsWindow (pos 2026) (pos 2) window
setup-IsWindow_example =
    setup-IsWindow int_of " 2026" "general" (pos 2026) (pos 2) window refl (unfold str_of in refl)
      window_accepted

build_budget_window_request_setup_lem_example :
    (IsAllowed (pos 2026) (pos 74) "general"
      × (s : BudgetWindowRequestSetup) × (build_budget_window_request_setup int_of "2026"
            (pos 74)
            "general"
          ≡ ok s)
      × (s.time_period ≡ "budget_window:" ++ (str_of (pos 2026) ++ (":" ++ decimal s.window_size))))
    ⊎ (¬ IsAllowed (pos 2026) (pos 74) "general"
        × (e : Error) × (build_budget_window_request_setup int_of "2026" (pos 74) "general"
            ≡ raised e))
build_budget_window_request_setup_lem_example =
    build_budget_window_request_setup_lem int_of "2026" (pos 2026) refl (unfold str_of in refl)
      "general" (pos 74)

-- a document without lists of years, as an older version may have stored it
without_years :
    (Option.map
      (λ (r : Impact). r.queued_years)
      (model_validate (field "status" (str "computing") end)))
    ≡ some []
unfolding model_validate validate_impact get lookup
without_years = refl
