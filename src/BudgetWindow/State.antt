-- ===== src/BudgetWindow/State.antt =====
-- services/budget_window_cache.py: `BudgetWindowCacheState`, one cache document for a report.
pub mod RoundTrip
use mathlib.Core.Option
use policyengine_api.Base.{
  String, ◌≡◌, refl, Option, none, some, Bool, false, ◌&&◌, ◌||◌, is_some, str_eq, if◌then◌else◌,
  arith, ap, ◌∙◌,
}
use policyengine_api.Base.Maybe.{◌>>=◌}
use policyengine_api.Json.{Json, null, str, obj, Fields, end, field, get}
use policyengine_api.Json.Canonical.{canonical, canonical_fields, get-canonical_fields}
use policyengine_api.Effect.{Result, ok, raised, validation_error}

pub data Status : Type 0 where
  starting submitted completed failed : Status

pub data FailureType : Type 0 where
  spm_validation execution : FailureType

pub record State : Type 0 where
  pub status : Status
  pub observability_id : Option String
  pub submission_claim_id : Option String
  pub batch_job_id : Option String
  pub result : Option Fields
  pub failure_type : Option FailureType
  pub error : Option Fields

-- `_required_fields`: each field that the status depends on is set
abbrev pub has_required_fields : Status → State → Bool
has_required_fields starting s = is_some s.submission_claim_id
has_required_fields submitted s = is_some s.batch_job_id
has_required_fields completed s = is_some s.result
has_required_fields failed s = is_some s.failure_type && is_some s.error

-- Field(min_length=1)
abbrev empty_field : Option String → Bool
empty_field none = false
empty_field (some t) = str_eq t ""

-- The model's validation: the field lengths, and then `require_fields_for_status`.
unfoldable pub validated : State → Result State
validated s =
    if empty_field s.submission_claim_id || empty_field s.batch_job_id
    then raised (validation_error "String should have at least 1 character")
    else if has_required_fields s.status s
    then ok s
    else raised (validation_error "the state lacks a field that its status requires")

abbrev status_text : Status → String
status_text starting = "starting"
status_text submitted = "submitted"
status_text completed = "completed"
status_text failed = "failed"

abbrev failure_text : FailureType → String
failure_text spm_validation = "spm_validation"
failure_text execution = "execution"

-- exclude_none=True
optional : String → Option Json → Fields → Fields
optional k none rest = rest
optional k (some j) rest = field k j rest

-- model_dump(exclude_none=True), in the order of the fields
unfoldable pub to_payload : State → Fields
unfolding optional
to_payload s = field "status" (str (status_text s.status)) (
    optional "observability_id" (Option.map str s.observability_id) (
      optional "submission_claim_id" (Option.map str s.submission_claim_id) (
        optional "batch_job_id" (Option.map str s.batch_job_id) (
          optional "result" (Option.map obj s.result) (
            optional "failure_type" (Option.map (λ f. str (failure_text f)) s.failure_type)
              (optional "error" (Option.map obj s.error) end))))))

-- The strict parsing of each field's type; a missing field reads as null.
abbrev read_status : Json → Option Status
read_status (str t) =
    if str_eq t "starting"
    then some starting
    else if str_eq t "submitted"
    then some submitted
    else if str_eq t "completed"
    then some completed
    else if str_eq t "failed"
    then some failed
    else none
read_status _ = none

abbrev read_text : Json → Option (Option String)
read_text null = some none
read_text (str t) = some (some t)
read_text _ = none

abbrev read_dict : Json → Option (Option Fields)
read_dict null = some none
read_dict (obj f) = some (some f)
read_dict _ = none

abbrev read_failure : Json → Option (Option FailureType)
read_failure null = some none
read_failure (str t) =
    if str_eq t "spm_validation"
    then some (some spm_validation)
    else if str_eq t "execution"
    then some (some execution)
    else none
read_failure _ = none

abbrev when_valid : Result State → Option State
when_valid (ok s) = some s
when_valid (raised e) = none

unfoldable pub read_state : Json → Json → Json → Json → Json → Json → Json → Option State
unfolding validated
read_state status observability_id claim_id job_id result failure_type error = do
  status' ← read_status status
  observability_id' ← read_text observability_id
  claim_id' ← read_text claim_id
  job_id' ← read_text job_id
  result' ← read_dict result
  failure_type' ← read_failure failure_type
  error' ← read_dict error
  when_valid (
      validated (record {
        status = status';
        observability_id = observability_id';
        submission_claim_id = claim_id';
        batch_job_id = job_id';
        result = result';
        failure_type = failure_type';
        error = error';
      }))

-- `from_payload`: fields that the model does not have are ignored
unfoldable pub from_payload : Json → Option State
from_payload (obj f) =
    read_state (get "status" f) (get "observability_id" f) (get "submission_claim_id" f)
      (get "batch_job_id" f) (get "result" f) (get "failure_type" f) (get "error" f)
from_payload j = none

-- What a stored state reads as: its dicts with their keys in order.
abbrev pub sorted : State → State
sorted s = record s {
  result = Option.map canonical_fields s.result;
  error = Option.map canonical_fields s.error;
}
