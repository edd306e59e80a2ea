-- ===== src/BudgetWindow/Impact.antt =====
-- services/economy_impact_types.py: `BudgetWindowEconomicImpactResult`, its wire form, and the
-- progress report of services/economy_budget_window_results.py.
pub mod RoundTrip
use Prim.Native.String.{◌++◌}
use policyengine_api.Base.{
  ℕ, zero, suc, ◌+◌, ◌-◌, ◌*◌, ◌/◌, ◌%◌, ◌≡◌, refl, String, List, [], ◌∷◌, Option, none, some, Bool,
  true, false, ltb, ◌==◌, str_eq, if◌then◌else◌, length, take,
}
use policyengine_api.Base.Decimal.{decimal}
use policyengine_api.Base.Maybe.{◌>>=◌}
use policyengine_api.Json.{
  Json, null, num, str, arr, obj, Items, nil, cons, Fields, end, field, lookup, get,
}

pub data ImpactStatus : Type 0 where
  computing ok error : ImpactStatus

pub record Impact : Type 0 where
  pub status : ImpactStatus
  pub data_fields : Option Fields
  pub progress : Option ℕ
  pub completed_years : List String
  pub computing_years : List String
  pub queued_years : List String
  pub message : Option String
  pub error : Option String
  pub cache_status : Option String

pub record YearProgress : Type 0 where
  pub completed_years : List String
  pub computing_years : List String
  pub queued_years : List String

unfoldable pub completed_impact : Fields → Option String → Impact
completed_impact result cache_status = record {
  status = ImpactStatus.ok;
  data_fields = some result;
  progress = some 100;
  completed_years = [];
  computing_years = [];
  queued_years = [];
  message = none;
  error = none;
  cache_status = cache_status;
}

unfoldable pub computing_impact : ℕ → YearProgress → String → Option String → Impact
computing_impact progress years message cache_status = record {
  status = ImpactStatus.computing;
  data_fields = none;
  progress = some progress;
  completed_years = years.completed_years;
  computing_years = years.computing_years;
  queued_years = years.queued_years;
  message = some message;
  error = none;
  cache_status = cache_status;
}

unfoldable pub failed_impact : String → YearProgress → Option String → Impact
failed_impact message years cache_status = record {
  status = ImpactStatus.error;
  data_fields = none;
  progress = none;
  completed_years = years.completed_years;
  computing_years = years.computing_years;
  queued_years = years.queued_years;
  message = some message;
  error = some message;
  cache_status = cache_status;
}

-- model_dump(mode="json")
abbrev pub status_value : ImpactStatus → String
status_value ImpactStatus.computing = "computing"
status_value ImpactStatus.ok = "ok"
status_value ImpactStatus.error = "error"

abbrev pub items_of : List String → Items
items_of [] = nil
items_of (s ∷ rest) = cons (str s) (items_of rest)

abbrev pub dict_or_null : Option Fields → Json
dict_or_null none = null
dict_or_null (some f) = obj f

abbrev pub number_or_null : Option ℕ → Json
number_or_null none = null
number_or_null (some n) = num n

abbrev pub text_or_null : Option String → Json
text_or_null none = null
text_or_null (some s) = str s

unfoldable pub model_dump : Impact → Fields
model_dump r = field "status" (str (status_value r.status)) (
    field "data" (dict_or_null r.data_fields) (
      field "progress" (number_or_null r.progress) (
        field "completed_years" (arr (items_of r.completed_years)) (
          field "computing_years" (arr (items_of r.computing_years)) (
            field "queued_years" (arr (items_of r.queued_years)) (
              field "message" (text_or_null r.message) (
                field "error" (text_or_null r.error)
                  (field "cache_status" (text_or_null r.cache_status) end))))))))

-- The reading of the class's fields, on the JSON types that model_dump writes: a missing field has the
-- class's default, None or the empty list, and `status` has none.
abbrev pub read_impact_status : Json → Option ImpactStatus
read_impact_status (str t) =
    if str_eq t "computing"
    then some ImpactStatus.computing
    else if str_eq t "ok"
    then some ImpactStatus.ok
    else if str_eq t "error"
    then some ImpactStatus.error
    else none
read_impact_status _ = none

abbrev pub read_number : Json → Option (Option ℕ)
read_number null = some none
read_number (num n) = some (some n)
read_number _ = none

abbrev pub read_words : Json → Option (Option String)
read_words null = some none
read_words (str t) = some (some t)
read_words _ = none

abbrev pub read_object : Json → Option (Option Fields)
read_object null = some none
read_object (obj f) = some (some f)
read_object _ = none

unfoldable pub read_items : Items → Option (List String)
read_items nil = some []
read_items (cons (str s) rest) = do tail ← read_items rest; some (s ∷ tail)
read_items (cons _ rest) = none

-- a missing list is the empty one
abbrev pub read_years : Option Json → Option (List String)
read_years none = some []
read_years (some (arr items)) = read_items items
read_years (some _) = none

unfoldable pub validate_impact :
    Json
    → Json
    → Json
    → Option Json
    → Option Json
    → Option Json
    → Json
    → Json
    → Json
    → Option Impact
unfolding read_items
validate_impact status result progress done active queued message problem cache_status = do
  status' ← read_impact_status status
  result' ← read_object result
  progress' ← read_number progress
  done' ← read_years done
  active' ← read_years active
  queued' ← read_years queued
  message' ← read_words message
  problem' ← read_words problem
  cache_status' ← read_words cache_status
  some (record {
    status = status';
    data_fields = result';
    progress = progress';
    completed_years = done';
    computing_years = active';
    queued_years = queued';
    message = message';
    error = problem';
    cache_status = cache_status';
  })

unfoldable pub model_validate : Fields → Option Impact
model_validate f =
    validate_impact (get "status" f) (get "data" f) (get "progress" f) (lookup "completed_years" f)
      (lookup "computing_years" f) (lookup "queued_years" f) (get "message" f) (get "error" f)
      (get "cache_status" f)

-- round(a / b) of Python: to the nearest, a tie to the even number
unfoldable pub round_quotient : ℕ → ℕ → ℕ
round_quotient a b =
    let q = a / b in
    let twice = 2 * (a % b) in
    if ltb twice b then q else if ltb b twice then q + 1 else if q % 2 == 0 then q else q + 1

-- ", ".join
join_years : List String → String
join_years [] = ""
join_years (y ∷ []) = y
join_years (y ∷ (z ∷ rest)) = y ++ (", " ++ join_years (z ∷ rest))

abbrev listed_computing_years : ℕ
listed_computing_years = 2

abbrev counts : ℕ → ℕ → String
counts completed total =
    "(" ++ (decimal completed ++ (" of " ++ (decimal total ++ " complete)...")))

abbrev active_text : List String → String
active_text years =
    let listed = join_years (take listed_computing_years years) in
    if ltb listed_computing_years (length years)
    then listed ++ (" + " ++ (decimal (length years - listed_computing_years) ++ " more"))
    else listed

unfoldable pub progress_message : List String → ℕ → List String → List String → String
unfolding join_years decimal
progress_message done total (y ∷ active) queued =
    "Scoring " ++ (active_text (y ∷ active) ++ (" " ++ counts (length done) total))
progress_message done total [] (y ∷ queued) =
    "Queued " ++ (y ++ (" " ++ counts (length done) total))
progress_message done total [] [] = "Scoring budget window " ++ counts (length done) total

unfoldable pub computing_result : ℕ → YearProgress → Option ℕ → Option String → Impact
unfolding computing_impact round_quotient progress_message
computing_result total years progress cache_status =
    let shown : ℕ = elim progress [
      | some p ↦ p
      | none ↦ round_quotient (100 * length years.completed_years) total
    ] in
    computing_impact shown years
      (progress_message years.completed_years total years.computing_years years.queued_years)
      cache_status
