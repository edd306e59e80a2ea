-- ===== src/BudgetWindow/State/RoundTrip.antt =====
-- services/budget_window_cache.py: the wire form of `BudgetWindowCacheState`, written and read back.
use mathlib.Core.Option
use policyengine_api.Base.{
  String, ◌≡◌, refl, Option, none, some, ◌&&◌, is_some, str_eq, if◌then◌else◌, arith, ap, ◌∙◌,
}
use policyengine_api.Json.{Json, null, str, obj, Fields, get}
use policyengine_api.Json.Canonical.{canonical, canonical_fields, get-canonical_fields}
use policyengine_api.Effect.{ok}
use policyengine_api.BudgetWindow.State.{
  Status, starting, submitted, completed, failed, FailureType, spm_validation, execution, State,
  validated, status_text, failure_text, optional, to_payload, read_status, read_text, read_failure,
  read_dict, read_state, when_valid, from_payload, sorted,
}

abbrev or_null : Option Json → Json
or_null none = null
or_null (some j) = j

get-optional :
    (i k : String) (o : Option Json) (f : Fields)
    → get i (optional k o f) ≡ (if str_eq k i && is_some o then or_null o else get i f)
unfolding get optional
get-optional i k o f = ground arith

read_status-text : (x : Status) → read_status (str (status_text x)) ≡ some x
read_status-text starting = refl
read_status-text submitted = refl
read_status-text completed = refl
read_status-text failed = refl

read_text-map : (o : Option String) → read_text (or_null (Option.map str o)) ≡ some o
read_text-map none = refl
read_text-map (some t) = refl

read_failure-map :
    (o : Option FailureType)
    → read_failure (or_null (Option.map (λ f. str (failure_text f)) o)) ≡ some o
read_failure-map none = refl
read_failure-map (some spm_validation) = refl
read_failure-map (some execution) = refl

read_dict-map :
    (o : Option Fields)
    → read_dict (canonical (or_null (Option.map obj o))) ≡ some (Option.map canonical_fields o)
unfolding canonical
read_dict-map none = refl
read_dict-map (some f) = refl

validated-sorted : (s : State) → validated s ≡ ok s → validated (sorted s) ≡ ok (sorted s)
unfolding validated
validated-sorted s valid = ground arith

read_state-valid :
    (s : State)
    → validated s ≡ ok s
    → read_state
        (str (status_text s.status))
        (or_null (Option.map str s.observability_id))
        (or_null (Option.map str s.submission_claim_id))
        (or_null (Option.map str s.batch_job_id))
        (canonical (or_null (Option.map obj s.result)))
        (or_null (Option.map (λ f. str (failure_text f)) s.failure_type))
        (canonical (or_null (Option.map obj s.error)))
      ≡ some (sorted s)
unfolding read_state
read_state-valid s valid =
    rw
      (
        read_status-text s.status,
        read_text-map s.observability_id,
        read_text-map s.submission_claim_id,
        read_text-map s.batch_job_id,
        read_dict-map s.result,
        read_failure-map s.failure_type,
        read_dict-map s.error,
      )
      (ap when_valid (validated-sorted s valid))

-- The texts that are written for a state's plain fields have no keys to sort.
canonical-text :
    (o : Option String) → canonical (or_null (Option.map str o)) ≡ or_null (Option.map str o)
unfolding canonical
canonical-text none = refl
canonical-text (some t) = refl

canonical-failure :
    (o : Option FailureType)
    → canonical (or_null (Option.map (λ f. str (failure_text f)) o))
      ≡ or_null (Option.map (λ f. str (failure_text f)) o)
unfolding canonical
canonical-failure none = refl
canonical-failure (some x) = refl

module _ (s : State) where
  get-payload :
      (get "status" (to_payload s) ≡ str (status_text s.status))
      × (get "observability_id" (to_payload s) ≡ or_null (Option.map str s.observability_id))
      × (get "submission_claim_id" (to_payload s) ≡ or_null (Option.map str s.submission_claim_id))
      × (get "batch_job_id" (to_payload s) ≡ or_null (Option.map str s.batch_job_id))
      × (get "result" (to_payload s) ≡ or_null (Option.map obj s.result))
      × (get "failure_type" (to_payload s)
          ≡ or_null (Option.map (λ f. str (failure_text f)) s.failure_type))
      × (get "error" (to_payload s) ≡ or_null (Option.map obj s.error))
  unfolding to_payload get
  get-payload = (
    refl,
    simp get-optional (ground arith),
    simp get-optional (ground arith),
    simp get-optional (ground arith),
    simp get-optional (ground arith),
    simp get-optional (ground arith),
    simp get-optional (ground arith),
  )

-- The payload of a valid state reads back as that state.
pub from_payload-to_payload :
    (s : State)
    → validated s ≡ ok s
    → from_payload (canonical (obj (to_payload s))) ≡ some (sorted s)
unfolding from_payload
from_payload-to_payload s valid =
    let g = get-payload s in
    let read = λ (i : String). get-canonical_fields i (to_payload s) in
    unfold canonical in
    rw
      (
        read "status" ∙ ap canonical g.0,
        read "observability_id" ∙ ap canonical g.1 ∙ canonical-text s.observability_id,
        read "submission_claim_id" ∙ ap canonical g.2 ∙ canonical-text s.submission_claim_id,
        read "batch_job_id" ∙ ap canonical g.3 ∙ canonical-text s.batch_job_id,
        read "result" ∙ ap canonical g.4,
        read "failure_type" ∙ ap canonical g.5 ∙ canonical-failure s.failure_type,
        read "error" ∙ ap canonical g.6,
      )
      (read_state-valid s valid)
