-- ===== src/Annual/Tables.antt =====
-- services/economic_impact_request.py, economy_years.py: the requests of the economy routes, and what they are
-- checked against.
use Prim.Native.String.{◌++◌}
use Prim.Native.Nat.{min, max}
use policyengine_api.Base.Decimal.{decimal}
use policyengine_api.Base.{
  ℕ, String, List, [], ◌∷◌, Option, none, some, Bool, false, ◌||◌, ◌==◌, str_eq, if◌then◌else◌,
}
use policyengine_api.Json.{Json, Fields}
use policyengine_api.Effect.{Error, Result}

-- services/economic_impact_request.py
pub record EconomicImpactRequest : Type 0 where
  pub country_id : String
  pub policy_id : ℕ
  pub baseline_policy_id : ℕ
  pub region : String
  pub dataset : String
  pub options : Fields
  pub api_version : Option String
  pub target : String

-- What the checks take from outside: `int` of a text of digits, Python's `repr`, the region tables of
-- policyengine_api/data, `str.lower`, the SPM
-- configuration that the installed bundle certifies with its comparison to a worker's, the installed
-- versions and a new UUID.
pub record Tables : Type 0 where
  pub number : String → Option ℕ
  pub is_state_code : String → Bool
  pub is_uk_region : String → Bool
  pub accepted_uk_regions : String
  pub repr : Json → String
  pub lower : String → String
  pub certified_selection : Json → Result (Option Json)
  pub check_worker_capability : Json → Json → Result (Unit {0})
  pub error_message : Error → String
  pub package_version : String → Option String
  pub policyengine_version : String
  pub cache_version : String → Option String → String
  pub submission_claim_id : String

-- range(first, first + n)
abbrev pub years_from : ℕ → ℕ → List ℕ
years_from first ℕ.zero = []
years_from first (ℕ.suc n) = first ∷ years_from (ℕ.suc first) n

-- ECONOMY_YEARS of economy_years.py; the order in which years are listed has no part in the checks
unfoldable pub economy_years : String → Option (List ℕ)
economy_years country_id =
    if str_eq country_id "us"
    then some (years_from 2_024 12)
    else if str_eq country_id "uk"
    then some (years_from 2_024 9)
    else none

-- LOCAL_AREA_BREAKDOWN_REGIONS
abbrev pub breakdown_regions : List String
breakdown_regions =
    "uk" ∷ "country/england" ∷ "country/scotland" ∷ "country/wales" ∷ "country/northern_ireland"
    ∷ []

abbrev pub is_year : ℕ → List ℕ → Bool
is_year year [] = false
is_year year (y ∷ rest) = (year == y) || is_year year rest

abbrev pub is_listed : String → List String → Bool
is_listed s [] = false
is_listed s (t ∷ rest) = str_eq s t || is_listed s rest

abbrev comma_rest : List String → String
comma_rest [] = ""
comma_rest (s ∷ rest) = ", " ++ (s ++ comma_rest rest)

-- ", ".join(texts)
abbrev pub comma_joined : List String → String
comma_joined [] = ""
comma_joined (s ∷ rest) = s ++ comma_rest rest

-- min(years) and max(years); no country's list is empty
abbrev first_and_last : List ℕ → ℕ × ℕ
first_and_last [] = (0, 0)
first_and_last (y ∷ []) = (y, y)
first_and_last (y ∷ rest) = let (first, last) = first_and_last rest in (min y first, max y last)

-- dataset_year_unavailable_message of economy_years.py; the two countries with years are upper-cased
unfoldable pub dataset_year_unavailable_message : String → String → List ℕ → String
unfolding decimal
dataset_year_unavailable_message country_id year years =
    let (first, last) = first_and_last years in
    let country = if str_eq country_id "us" then "US" else "UK" in
    country
    ++ (" results are available for "
        ++ (decimal first
            ++ (" to "
                ++ (decimal last
                    ++ (". "
                        ++ (year
                            ++ (" is outside the years the current "
                                ++ (country ++ " model and data cover."))))))))
