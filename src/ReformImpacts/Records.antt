-- ===== src/ReformImpacts/Records.antt =====
-- runtime_cache/reform_impacts.py: `CachedReformImpact` and its form in the cache. An instant counts
-- microseconds from the start of year 1 in UTC.
pub mod RoundTrip
use mathlib.Core.Bool.{false≢true}
use mathlib.Core.Option
use policyengine_api.Base.{
  ℕ, String, Option, none, some, Bool, true, false, ◌&&◌, ◌==◌, str_eq, if◌then◌else◌, ◌≡◌, inl,
  inr, Bool-cases, &&-eq_true, eq_iff,
}
use policyengine_api.Base.Maybe.{◌>>=◌}
use policyengine_api.Json.{Json, null, bool, num, str, obj, Fields, end, field, lookup}
use policyengine_api.Json.Equality.{json_eq}
use policyengine_api.ReformImpacts.{or_none}

-- datetime.datetime: without a time zone, or an instant in some zone
pub data DateTime : Type 0 where
  naive : ℕ → DateTime
  aware : ℕ → DateTime

-- The type of a field that is read back unchecked is Json.
pub record CachedReformImpact : Type 0 where
  pub reform_impact_id : ℕ
  pub baseline_policy_id : ℕ
  pub reform_policy_id : ℕ
  pub country_id : String
  pub region : String
  pub dataset : String
  pub time_period : String
  pub options_json : Json
  pub options_hash : Json
  pub api_version : String
  pub reform_impact_json : Json
  pub status : String
  pub message : Json
  pub start_time : Option DateTime
  pub end_time : Option DateTime
  pub execution_id : Option String
  pub error_code : Json
  pub observability_id : Json

-- Python's conversions, on what is neither a natural number nor a string where those are meant:
-- `int` and `str` of a JSON value, and the ISO form of an instant in UTC and its parser.
pub record Conversions : Type 0 where
  pub other_int : Json → Option ℕ
  pub other_str : Json → String
  pub isoformat : ℕ → String
  pub fromisoformat : String → Option DateTime

-- the instant, where a datetime without a zone is in UTC
abbrev pub instant : DateTime → ℕ
instant (naive t) = t
instant (aware t) = t

-- .astimezone(UTC).replace(tzinfo=None), or unchanged without a zone
abbrev pub naive_utc : DateTime → DateTime
naive_utc d = naive (instant d)

module _ (py : Conversions) where
  unfoldable pub datetime_to_wire : Option DateTime → Json
  datetime_to_wire none = null
  datetime_to_wire (some value) = str (py.isoformat (instant value))

  -- `none` is a TypeError or a ValueError
  unfoldable pub datetime_from_wire : Json → Option (Option DateTime)
  datetime_from_wire null = some none
  datetime_from_wire (str value) = do
    parsed ← py.fromisoformat value
    some (some (naive_utc parsed))
  datetime_from_wire _ = none

  unfoldable pub impact_to_wire : CachedReformImpact → Fields
  unfolding datetime_to_wire
  impact_to_wire impact = field "reform_impact_id" (num impact.reform_impact_id) (
      field "baseline_policy_id" (num impact.baseline_policy_id) (
        field "reform_policy_id" (num impact.reform_policy_id) (
          field "country_id" (str impact.country_id) (
            field "region" (str impact.region) (
              field "dataset" (str impact.dataset) (
                field "time_period" (str impact.time_period) (
                  field "options_json" impact.options_json (
                    field "options_hash" impact.options_hash (
                      field "api_version" (str impact.api_version) (
                        field "reform_impact_json" impact.reform_impact_json (
                          field "status" (str impact.status) (
                            field "message" impact.message (
                              field "start_time" (datetime_to_wire impact.start_time) (
                                field "end_time" (datetime_to_wire impact.end_time) (
                                  field "execution_id" (or_none impact.execution_id) (
                                    field "error_code" impact.error_code (
                                      field "observability_id" impact.observability_id
                                        end)))))))))))))))))

  abbrev pub int : Json → Option ℕ
  int (num n) = some n
  int (bool true) = some 1
  int (bool false) = some 0
  int j = py.other_int j

  abbrev pub text : Json → String
  text (str s) = s
  text j = py.other_str j

  -- str(value) if value is not None else None
  abbrev pub text_or_none : Json → Option String
  text_or_none null = none
  text_or_none j = some (text j)

  -- The fields that the payload is found to have; `none` where a key is missing, a number is none,
  -- or a datetime is invalid.
  unfoldable pub impact_of : (String → Option Json) → Option CachedReformImpact
  unfolding datetime_from_wire
  impact_of found = do
    let value : (String → Json) = λ k. Option.get_or (found k) null
    id ← found "reform_impact_id" >>= int
    baseline ← found "baseline_policy_id" >>= int
    reform ← found "reform_policy_id" >>= int
    country ← found "country_id"
    region ← found "region"
    dataset ← found "dataset"
    period ← found "time_period"
    version ← found "api_version"
    result ← found "reform_impact_json"
    status ← found "status"
    start ← datetime_from_wire (value "start_time")
    end_time ← datetime_from_wire (value "end_time")
    execution ← found "execution_id"
    some (record {
      reform_impact_id = id;
      baseline_policy_id = baseline;
      reform_policy_id = reform;
      country_id = text country;
      region = text region;
      dataset = text dataset;
      time_period = text period;
      options_json = value "options_json";
      options_hash = value "options_hash";
      api_version = text version;
      reform_impact_json = result;
      status = text status;
      message = value "message";
      start_time = start;
      end_time = end_time;
      execution_id = text_or_none execution;
      error_code = value "error_code";
      observability_id = value "observability_id";
    })

  unfoldable pub impact_from_wire : Json → Option CachedReformImpact
  unfolding lookup impact_of
  impact_from_wire (obj payload) = impact_of (λ k. lookup k payload)
  impact_from_wire _ = none

-- Two datetimes are equal if both have a zone, or neither has, and the instants agree.
abbrev pub time_eq : Option DateTime → Option DateTime → Bool
time_eq none none = true
time_eq (some (naive a)) (some (naive b)) = a == b
time_eq (some (aware a)) (some (aware b)) = a == b
time_eq _ _ = false

abbrev same_identity : CachedReformImpact → CachedReformImpact → Bool
same_identity a b =
    a.reform_impact_id == b.reform_impact_id
    && a.baseline_policy_id == b.baseline_policy_id
    && a.reform_policy_id == b.reform_policy_id
    && str_eq a.country_id b.country_id
    && str_eq a.region b.region
    && str_eq a.dataset b.dataset
    && str_eq a.time_period b.time_period
    && json_eq a.options_json b.options_json
    && json_eq a.options_hash b.options_hash
    && str_eq a.api_version b.api_version

abbrev same_notes : CachedReformImpact → CachedReformImpact → Bool
same_notes a b =
    json_eq a.reform_impact_json b.reform_impact_json
    && json_eq a.message b.message
    && time_eq a.start_time b.start_time
    && json_eq (or_none a.execution_id) (or_none b.execution_id)
    && json_eq a.error_code b.error_code
    && json_eq a.observability_id b.observability_id

-- the dataclass's `==`
unfoldable pub impact_eq : CachedReformImpact → CachedReformImpact → Bool
unfolding json_eq
impact_eq a b =
    if same_identity a b && same_notes a b
    then str_eq a.status b.status && time_eq a.end_time b.end_time
    else false

-- what two equal impacts share
pub impact_eq-parts :
    (a b : CachedReformImpact)
    → impact_eq a b ≡ true
    → (a.status ≡ b.status) × (time_eq a.end_time b.end_time ≡ true)
unfolding impact_eq
impact_eq-parts a b h = elim (Bool-cases (same_identity a b && same_notes a b)) [
  | inr other ↦ absurd (false≢true (rw other at h))
  | inl same ↦
      let (status, end_time) =
        &&-eq_true (str_eq a.status b.status) (time_eq a.end_time b.end_time) (rw same at h) in
      ((eq_iff a.status b.status).0 status, end_time)
]
