-- ===== src/BudgetWindow/Store.antt =====
-- services/budget_window_cache.py: `BudgetWindowCache`, the state of a report and
-- the coordination of its submission.
pub mod Reads
pub mod Lifetime
pub mod Writes
use Prim.Native.String.{◌++◌}
use policyengine_api.Base.{
  ℕ, String, [], ◌∷◌, Option, none, some, Bool, true, false, if◌then◌else◌, is_some,
}
use policyengine_api.Base.Int.{ℤ}
use policyengine_api.Json.{Json, null, num, str, obj, Fields, end, field, CacheText, doc}
use policyengine_api.Effect.{
  Error, coordination_error, Exec, pure, raise, lift, try_except, attempt, ◌>>=◌, ◌>>◌,
}
use policyengine_api.Cache.Backend.Commands.{SetOptions}
use policyengine_api.Cache.Client.{World, record_cache_event, client_get, client_set, truthy}
use policyengine_api.Cache.Claims.Methods.{acquire, release}
use policyengine_api.Cache.Core.{
  CacheNamespace, key, encode_envelope, decode_envelope, completed_result_ttl,
}
use policyengine_api.ReformImpacts.{ReformImpactScope, or_none}
use policyengine_api.BudgetWindow.State.{
  State, Status, FailureType, validated, to_payload, from_payload,
}

abbrev pub family : String
family = "budget-window"

abbrev pub schema_version : ℕ
schema_version = 4

abbrev pub starting_ttl_seconds : ℕ
starting_ttl_seconds = 300

abbrev pub batch_ttl_seconds : ℕ
batch_ttl_seconds = 86_400

abbrev pub result_ttl_seconds : ℕ
result_ttl_seconds = 2_592_000

unfoldable pub build_key :
    (CacheText → String) → CacheNamespace → ReformImpactScope → Option String → String → String
unfolding key
build_key sha256 ns scope options_hash api_version = key sha256 ns family schema_version (
    field "api_version" (str api_version) (
      field "baseline_policy_id" (num scope.baseline_policy_id) (
        field "country_id" (str scope.country_id) (
          field "dataset" (str scope.dataset) (
            field "options_hash" (or_none options_hash) (
              field "reform_policy_id" (num scope.reform_policy_id) (
                field "region" (str scope.region)
                  (field "time_period" (str scope.time_period) end))))))))

unfoldable pub state_key : String → String
state_key cache_key = cache_key ++ ":state"

unfoldable pub encoded_state : State → CacheText
unfolding encode_envelope to_payload
encoded_state s = encode_envelope family schema_version (obj (to_payload s))

handle_cache_error : String → String → Exec World (Unit {0})
unfolding record_cache_event
handle_cache_error operation event = record_cache_event family event (some operation) "WARNING"

-- the claim store's errors are swallowed, no others
abbrev swallow_coordination_error : Error → Exec World (Unit {0})
swallow_coordination_error (coordination_error m) = pure tt
swallow_coordination_error e = raise e

-- _clear_invalid_state
clear_invalid_state : String → CacheText → Exec World (Unit {0})
unfolding release
clear_invalid_state stored_key encoded =
    try_except (release family stored_key encoded >> pure tt) swallow_coordination_error

abbrev unavailable : {A : Type 0} → String → Error → Exec World A
unavailable operation error =
    handle_cache_error operation "coordination-failed"
    >> raise (coordination_error "budget-window coordination state is unavailable")

-- the state of a decoded payload, the text being one that was found
report_state : String → CacheText → Option State → Exec World (Option State)
unfolding handle_cache_error clear_invalid_state record_cache_event
report_state cache_key encoded none = do
  handle_cache_error "decode-state" "decode-failed"
  clear_invalid_state (state_key cache_key) encoded
  pure none
report_state cache_key encoded (some s) = do
  record_cache_event family "hit" (some "read-state") "INFO"
  pure (some s)

unfoldable pub decode_state : CacheText → Option State
unfolding decode_envelope from_payload
decode_state encoded = from_payload (decode_envelope (some encoded) family schema_version)

-- what was read, a miss being no error
unfoldable pub report_read : String → Option CacheText → Exec World (Option State)
unfolding report_state record_cache_event
report_read cache_key none = do
  record_cache_event family "miss" (some "read-state") "INFO"
  pure none
report_read cache_key (some encoded) = report_state cache_key encoded (decode_state encoded)

unfoldable pub get_state : String → Exec World (Option State)
unfolding handle_cache_error
get_state cache_key =
    attempt (client_get (state_key cache_key)) (unavailable "read-state") (report_read cache_key)

abbrev pub starting_state : String → Option String → State
starting_state claim_token observability_id = record {
  status = Status.starting;
  observability_id = observability_id;
  submission_claim_id = some claim_token;
  batch_job_id = none;
  result = none;
  failure_type = none;
  error = none;
}

abbrev pub submitted_state : String → Option String → State
submitted_state batch_job_id observability_id = record {
  status = Status.submitted;
  observability_id = observability_id;
  submission_claim_id = none;
  batch_job_id = some batch_job_id;
  result = none;
  failure_type = none;
  error = none;
}

abbrev pub completed_state : Fields → Option String → State
completed_state result observability_id = record {
  status = Status.completed;
  observability_id = observability_id;
  submission_claim_id = none;
  batch_job_id = none;
  result = some result;
  failure_type = none;
  error = none;
}

abbrev pub failed_state : FailureType → Fields → Option String → State
failed_state failure_type error observability_id = record {
  status = Status.failed;
  observability_id = observability_id;
  submission_claim_id = none;
  batch_job_id = none;
  result = none;
  failure_type = some failure_type;
  error = some error;
}

unfoldable pub claim_batch_start : String → String → Option String → Exec World Bool
unfolding validated acquire encoded_state state_key
claim_batch_start cache_key claim_token observability_id = do
  state ← lift (validated (starting_state claim_token observability_id))
  acquire family (state_key cache_key) (encoded_state state) starting_ttl_seconds

unfoldable pub clear_starting_claim : String → String → Option String → Exec World (Unit {0})
unfolding validated release encoded_state state_key
clear_starting_claim cache_key claim_token observability_id = do
  state ← lift (validated (starting_state claim_token observability_id))
  try_except (release family (state_key cache_key) (encoded_state state) >> pure tt)
      swallow_coordination_error

abbrev expiring : ℕ → SetOptions
expiring seconds = record { ex = some seconds; nx = false; xx = false }

abbrev submitted_reply : Bool → Exec World (Unit {0})
submitted_reply true =
    record_cache_event family "coordination-write" (some "write-submitted-state") "INFO"
submitted_reply false =
    handle_cache_error "write-submitted-state" "coordination-failed"
    >> raise (coordination_error "budget-window submitted state could not be stored")

unfoldable pub store_submitted : String → String → Option String → Exec World (Unit {0})
unfolding validated client_set encoded_state state_key handle_cache_error record_cache_event
store_submitted cache_key batch_job_id observability_id = do
  state ← lift (validated (submitted_state batch_job_id observability_id))
  attempt (client_set (state_key cache_key) (encoded_state state) (expiring batch_ttl_seconds))
      (unavailable "write-submitted-state") (λ reply. submitted_reply (truthy reply))

module _ (randint : ℕ → ℕ → ℤ) where
  -- the encoding and the TTL are computed inside the `try`
  unfoldable pub send_state : String → State → Exec World (Option Bool)
  unfolding client_set encoded_state state_key
  send_state cache_key state = do
    ttl ← lift (completed_result_ttl result_ttl_seconds randint)
    client_set (state_key cache_key) (encoded_state state) (expiring ttl)

  unfoldable pub set_recoverable_state : String → State → String → Exec World Bool
  unfolding handle_cache_error record_cache_event
  set_recoverable_state cache_key state operation =
      attempt (send_state cache_key state)
        (λ error. handle_cache_error operation "write-failed" >> pure false)
        (λ reply. record_cache_event family "write" (some operation) "INFO" >> pure (truthy reply))

  unfoldable pub set_completed_result : String → Fields → Option String → Exec World Bool
  unfolding validated
  set_completed_result cache_key result observability_id = do
    state ← lift (validated (completed_state result observability_id))
    set_recoverable_state cache_key state "write-completed-state"

  unfoldable pub set_terminal_error : String → Fields → Option String → Exec World Bool
  unfolding validated
  set_terminal_error cache_key error observability_id = do
    state ← lift (validated (failed_state FailureType.spm_validation error observability_id))
    set_recoverable_state cache_key state "write-spm-failure-state"

  unfoldable pub set_execution_failure : String → Fields → Option String → Exec World Bool
  unfolding validated
  set_execution_failure cache_key result observability_id = do
    state ← lift (validated (failed_state FailureType.execution result observability_id))
    set_recoverable_state cache_key state "write-execution-failure-state"
