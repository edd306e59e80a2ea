-- ===== src/BudgetWindow/Setup.antt =====
-- utils/budget_window.py: the validation of a budget-window request and the list of its years.
pub mod Years
use Prim.Native.String.{◌++◌}
use policyengine_api.Base.{
  ℕ, zero, suc, ◌+◌, ◌-◌, ◌≤◌, ◌<◌, ◌≡◌, refl, ◌∙◌, String, List, [], ◌∷◌, map, Option, none, some,
  Bool, true, false, not, ◌&&◌, ltb, leb, str_eq, if◌then◌else◌, length, get_elem?, arith,
}
use policyengine_api.Base.Int.{ℤ, pos, negsuc}
use policyengine_api.Base.Decimal.{decimal}
use policyengine_api.Effect.{Result, ok, raised, value_error}

abbrev pub max_years : ℕ
max_years = 75

abbrev pub max_end_year : ℕ
max_end_year = 2099

pub record BudgetWindowRequestSetup : Type 0 where
  pub start_year : String
  pub window_size : ℕ
  pub years : List String
  pub time_period : String

-- integers: str(z), z + n and z > n
unfoldable pub str_of : ℤ → String
unfolding decimal
str_of (pos n) = decimal n
str_of (negsuc n) = "-" ++ decimal (suc n)

unfoldable pub plus : ℤ → ℕ → ℤ
plus (pos m) n = pos (m + n)
plus (negsuc m) n = if leb n m then negsuc (m - n) else pos (n - suc m)

abbrev pub exceeds : ℤ → ℕ → Bool
exceeds (pos m) n = ltb n m
exceeds (negsuc m) n = false

-- range(first, first + n)
abbrev pub counting : ℕ → ℕ → List ℕ
counting first zero = []
counting first (suc n) = first ∷ counting (suc first) n

unfoldable pub build_budget_window_time_period : String → ℕ → String
unfolding decimal
build_budget_window_time_period start_year window_size =
    "budget_window:" ++ (start_year ++ (":" ++ decimal window_size))

-- `int_of` is Python's int of a string, which may raise ValueError
module _ (int_of : String → Option ℤ) where
  abbrev pub parsed : {A : Type 0} → String → (ℤ → Result A) → Result A
  parsed text use_year = elim (int_of text) [
    | none ↦ raised (value_error "invalid literal for int()")
    | some z ↦ use_year z
  ]

  unfoldable pub build_budget_window_years : String → ℕ → Result (List String)
  unfolding str_of plus
  build_budget_window_years start_year window_size =
      parsed start_year
        (λ start. ok (map (λ index. str_of (plus start index)) (counting 0 window_size)))

  abbrev with_years : String → ℕ → Result (List String) → Result BudgetWindowRequestSetup
  with_years start_year window_size (raised e) = raised e
  with_years start_year window_size (ok years) = ok (record {
    start_year = start_year;
    window_size = window_size;
    years = years;
    time_period = build_budget_window_time_period start_year window_size;
  })

  -- the tests on a size and its first year; `window_size - 1` is added as Python's integers are
  abbrev pub sized : ℤ → ℤ → Result BudgetWindowRequestSetup
  sized start (pos (suc before_end)) =
      if not (leb (suc before_end) max_years)
      then raised (value_error "window_size must be between 1 and 75")
      else if exceeds (plus start before_end) max_end_year
      then raised (value_error "budget-window end_year must be 2099 or earlier")
      else with_years (str_of start) (suc before_end)
          (build_budget_window_years (str_of start) (suc before_end))
  sized start size = raised (value_error "window_size must be between 1 and 75")

  unfoldable pub build_budget_window_request_setup :
      String → ℤ → String → Result BudgetWindowRequestSetup
  unfolding build_budget_window_years build_budget_window_time_period str_of plus
  build_budget_window_request_setup start_year window_size target =
      if not (str_eq target "general")
      then raised (value_error "Budget-window calculations only support target='general'")
      else parsed start_year (λ start. sized start window_size)
