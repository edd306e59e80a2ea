-- ===== src/Annual/Build.antt =====
-- services/economy_service.py: `get_economic_impact` with the checks of services/economy_simulation_requests.py
-- and the building of the setup options, and `delete_failed_economic_impact` as it is called.
pub mod Years
pub mod Regions
pub mod Sound
pub mod Checked
mod Tests
use Prim.Native.String.{◌++◌}
use Prim.Native.Nat.{min, max}
use policyengine_api.Base.Decimal.{decimal}
use policyengine_api.Base.{
  ℕ, String, List, [], ◌∷◌, Option, none, some, Bool, true, false, not, ◌||◌, ◌==◌, str_eq,
  if◌then◌else◌,
}
use policyengine_api.Json.{Json, null, str, Fields, get}
use policyengine_api.Json.Equality.{json_eq}
use policyengine_api.Effect.{
  Error, value_error, spm_error, other_error, Result, ok, raised, Exec, pure, lift, modify, ◌>>=◌,
  ◌>>◌,
}
use policyengine_api.Annual.Setup.{SetupOptions, RuntimeBundleIdentity, build_options_hash}
use policyengine_api.Annual.Request.{
  Environment, Session, EconomicImpactResult, FailedImpactDeletion,
}
use policyengine_api.Annual.Bundle.{starts_with, assign}
use policyengine_api.Annual.Spm.{validate_worker_spm}
use policyengine_api.Annual.Submission.{get_or_create_economic_impact}
use policyengine_api.Annual.Deletion.{delete_failed_economic_impact}
use policyengine_api.Annual.Tables.{
  EconomicImpactRequest, Tables, years_from, economy_years, breakdown_regions, is_year, is_listed,
  dataset_year_unavailable_message, comma_joined,
}

abbrev pub valid : Result (Unit {0})
valid = ok tt

-- policyengine_version if country_id in {"us", "uk"} else None
abbrev bundle_version : String → String → Option String
bundle_version country_id version =
    if str_eq country_id "us" || str_eq country_id "uk" then some version else none

abbrev pub with_spm : Option Json → Fields → Fields
with_spm none options = options
with_spm (some spm) options = assign "spm" spm options

module _ (tables : Tables) where
  abbrev unavailable : String → String → List ℕ → Result (Unit {0})
  unavailable country_id year years = raised (
      spm_error "DATASET_YEAR_UNAVAILABLE" (dataset_year_unavailable_message country_id year years))

  abbrev pub check_year : String → String → Option ℕ → Option (List ℕ) → Result (Unit {0})
  check_year country_id year number none = raised (other_error "KeyError")
  check_year country_id year none (some years) = unavailable country_id year years
  check_year country_id year (some n) (some years) =
      if is_year n years then valid else unavailable country_id year years

  -- _validate_economy_year
  unfoldable pub validate_economy_year : String → String → Result (Unit {0})
  unfolding economy_years dataset_year_unavailable_message
  validate_economy_year country_id year =
      check_year country_id year (tables.number year) (economy_years country_id)

  -- normalize_us_region of data/congressional_districts.py
  unfoldable pub normalize_us_region : String → String
  unfolding starts_with
  normalize_us_region region =
      if starts_with "state/" region
        || (starts_with "place/" region || starts_with "congressional_district/" region)
      then region
      else if str_eq region "us"
      then region
      else if tables.is_state_code region
      then "state/" ++ region
      else region

  -- _with_normalized_region
  unfoldable pub with_normalized_region : EconomicImpactRequest → EconomicImpactRequest
  unfolding normalize_us_region
  with_normalized_region request =
      if not (str_eq request.country_id "us")
      then request
      else record request { region = normalize_us_region request.region }

  abbrev pub check_breakdown : EconomicImpactRequest → Json → Result (Unit {0})
  check_breakdown request null = valid
  check_breakdown request breakdown =
      if not (json_eq breakdown (str "local_areas"))
      then raised (value_error ("Unknown breakdown: " ++ tables.repr breakdown))
      else if not (str_eq request.country_id "uk")
      then raised
          (value_error "breakdown=local_areas is only available for UK economy calculations")
      else if not (is_listed request.region breakdown_regions)
      then raised (
          value_error (
            "breakdown=local_areas needs region uk or a UK country, one of "
            ++ (comma_joined breakdown_regions ++ ("; not " ++ tables.repr (str request.region)))))
      else if str_eq request.target "cliff"
      then raised (value_error "breakdown=local_areas cannot be combined with target=cliff")
      else valid

  -- _validate_breakdown
  unfoldable pub validate_breakdown : EconomicImpactRequest → Result (Unit {0})
  unfolding json_eq get
  validate_breakdown request = check_breakdown request (get "breakdown" request.options)

  -- _validate_uk_region
  unfoldable pub validate_uk_region : EconomicImpactRequest → Result (Unit {0})
  validate_uk_region request =
      if not (str_eq request.country_id "uk") || tables.is_uk_region request.region
      then valid
      else raised (
          value_error (
            "Unknown UK region "
            ++ (tables.repr (str request.region)
                ++ (". Accepted regions: " ++ (tables.accepted_uk_regions ++ ".")))))

  abbrev pub check_dataset : EconomicImpactRequest → Result (Unit {0})
  check_dataset request =
      if str_eq request.dataset "default"
      then valid
      else raised (value_error "Custom datasets are not supported for economy calculations")

  -- the options of a request that passed, with the SPM options that were resolved
  unfoldable pub setup_of : Environment → EconomicImpactRequest → String → Fields → SetupOptions
  unfolding build_options_hash
  setup_of env request time_period options =
      let model_version = tables.package_version request.country_id in
      let policyengine_version = bundle_version request.country_id tables.policyengine_version in
      record {
        submission_claim_id = tables.submission_claim_id;
        observability_id = none;
        country_id = request.country_id;
        reform_policy_id = request.policy_id;
        baseline_policy_id = request.baseline_policy_id;
        region = request.region;
        dataset = "default";
        time_period = time_period;
        options = options;
        api_version = tables.cache_version request.country_id request.api_version;
        target = request.target;
        model_version = model_version;
        policyengine_version = policyengine_version;
        data_version = none;
        runtime_app_name = none;
        options_hash = some (
            build_options_hash env.other_text options (record {
              dataset = "default";
              model_version = model_version;
              policyengine_version = policyengine_version;
              data_version = none;
              runtime_app_name = none;
            }));
      }

  -- _build_economic_impact_setup_options
  unfoldable pub build_setup_options :
      Environment → EconomicImpactRequest → String → Exec Session SetupOptions
  unfolding validate_breakdown validate_uk_region validate_worker_spm setup_of get
  build_setup_options env request time_period = do
    lift (check_dataset request)
    lift (validate_breakdown request)
    lift (validate_uk_region request)
    resolved_spm ←
        validate_worker_spm tables env request.country_id (get "spm" request.options)
          (tables.package_version request.country_id)
    pure (setup_of env request time_period (with_spm resolved_spm request.options))

  -- the checks that a request and a deletion have in common
  unfoldable pub checked_setup :
      Environment → EconomicImpactRequest → String → Exec Session SetupOptions
  unfolding validate_economy_year with_normalized_region build_setup_options
  checked_setup env request time_period = do
    lift (validate_economy_year request.country_id time_period)
    build_setup_options env (with_normalized_region request) time_period

  -- get_economic_impact
  unfoldable pub get_economic_impact :
      Environment → EconomicImpactRequest → String → Exec Session EconomicImpactResult
  unfolding checked_setup get_or_create_economic_impact
  get_economic_impact env request time_period = do
    setup ← checked_setup env request time_period
    modify (λ s. record s { setup = setup })
    get_or_create_economic_impact env

  -- delete_failed_economic_impact
  unfoldable pub request_deletion :
      Environment → EconomicImpactRequest → String → Exec Session FailedImpactDeletion
  unfolding checked_setup delete_failed_economic_impact
  request_deletion env request time_period = do
    setup ← checked_setup env request time_period
    delete_failed_economic_impact env setup
