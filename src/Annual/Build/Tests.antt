-- ===== src/Annual/Build/Tests.antt =====
-- The answerable requests at concrete inputs, and the checks' runs.
use policyengine_api.Base.{
  ◌≡◌, ◌≢◌, refl, String, [], Option, none, some, ◌⊎◌, inr, str_eq, if◌then◌else◌, eq_iff, arith,
}
use policyengine_api.Json.{Json, str, end, field, get}
use policyengine_api.Effect.{ok, raised, spm_error, value_error, Error}
use policyengine_api.ReformImpacts.Sample.{world, setting}
use policyengine_api.Annual.Request.{Environment, Session}
use policyengine_api.Annual.Tables.{EconomicImpactRequest, Tables}
use policyengine_api.Annual.Build.{normalize_us_region, with_normalized_region, get_economic_impact}
use policyengine_api.Annual.Build.Checked.{IsValid, Answer, get_economic_impact_lem}
use policyengine_api.Annual.Build.Sound.{spm_of}
use policyengine_api.Annual.Spm.{normalize_spm_selection}
use policyengine_api.Base.{◌∷◌, []}

abbrev tables : Tables
tables = record {
  number =
      λ s. if str_eq s "2030" then some 2_030 else if str_eq s "2050" then some 2_050 else none;
  is_state_code = λ s. str_eq s "ny";
  is_uk_region = λ s. str_eq s "country/wales";
  accepted_uk_regions = "country/wales";
  repr = λ j. "";
  lower = λ s. s;
  certified_selection = λ spm. ok (some (str "certified"));
  check_worker_capability = λ capability resolved. ok tt;
  error_message = λ e. "";
  package_version = λ country. some "1.0.0";
  policyengine_version = "4.0.0";
  cache_version = λ country version. "e1";
  submission_claim_id = "worker-1";
}

abbrev welsh : EconomicImpactRequest
welsh = record {
  country_id = "uk";
  policy_id = 2;
  baseline_policy_id = 1;
  region = "country/wales";
  dataset = "default";
  options = field "breakdown" (str "local_areas") end;
  api_version = none;
  target = "general";
}

abbrev offline : Environment
offline = record {
  setting = setting;
  ids = record { normalize = λ s. some s; incoming = none; generated = "6f1c" };
  now = 0;
  local_now = 0;
  resolve_app_name = λ country version bundle. raised (value_error "offline");
  get_policy_json = λ country id. ok none;
  simulation_payload = λ setup baseline reform. ok tt;
  get_spm_capability = λ country version bundle. ok (str "capability");
  run = raised (value_error "offline");
  refusal_message = λ e. "refused";
  poll = λ id. raised (value_error "offline");
  certify = λ result spm period. ok tt;
  loads = λ s. none;
  other_text = λ j. "";
  repr = λ j. "";
}

abbrev session : Session
session = record {
  cache = world;
  setup = record {
    submission_claim_id = "";
    observability_id = none;
    country_id = "";
    reform_policy_id = 0;
    baseline_policy_id = 0;
    region = "";
    dataset = "";
    time_period = "";
    options = end;
    api_version = "";
    target = "general";
    model_version = none;
    policyengine_version = none;
    data_version = none;
    runtime_app_name = none;
    options_hash = none;
  };
  current_id = none;
  submissions = [];
  capability_requests = [];
}

general≢cliff : ◌≢◌ {A = String} "general" "cliff"
general≢cliff e = grind (arith, (eq_iff "general" "cliff").1 e)

welsh-IsValid : IsValid tables offline "2030" welsh
unfolding get normalize_spm_selection
welsh-IsValid = (
  (2_030, refl, (omega arith, inr (refl, omega arith))),
  (refl, inr (refl, refl, refl, general≢cliff), λ uk. refl, (none, refl)),
)

abbrev american : EconomicImpactRequest
american = record welsh { country_id = "us"; region = "us"; options = end }

get_economic_impact_lem_example :
    (¬ IsValid tables offline "2030" american
      × (e : Error) × (get_economic_impact tables offline american "2030" session
          ≡ (raised e, session)))
    ⊎ (IsValid tables offline "2030" american
        × (spm : Option Json) × (spm_of tables offline "2030"
              (with_normalized_region tables american)
            ≡ ok spm)
        × Answer tables offline "2030" american spm session)
get_economic_impact_lem_example = get_economic_impact_lem tables offline "2030" american session

-- The worker is asked once for a US request, and a worker that lacks the options ends the request.
lacking :
    let uncertified = record tables {
      check_worker_capability = λ capability resolved. raised (value_error "no capability");
    } in
    let (reply, after) = get_economic_impact uncertified offline american "2030" session in
    (reply ≡ raised (spm_error "SPM_CONFIGURATION_UNAVAILABLE" ""))
    × (after.capability_requests ≡ ("us", some "1.0.0", "4.0.0") ∷ [])
    × (after.submissions ≡ [])
unfolding get_economic_impact
lacking = (refl, refl, refl)

-- no question is asked for a UK request
unasked : (get_economic_impact tables offline welsh "2030" session).1.capability_requests ≡ []
unfolding get_economic_impact
unasked = refl

-- a year that is not offered
late :
    (get_economic_impact tables offline welsh "2050" session).0
    ≡ raised (
        spm_error "DATASET_YEAR_UNAVAILABLE"
          "UK results are available for 2024 to 2032. 2050 is outside the years the current UK model and data cover.")
unfolding get_economic_impact
late = refl

-- a bare state code, which is normalized once
bare_state :
    (normalize_us_region tables "ny" ≡ "state/ny")
    × (normalize_us_region tables "state/ny" ≡ "state/ny")
unfolding normalize_us_region
bare_state = (refl, refl)
