-- ===== src/PolicyData/Entries.antt =====
-- utils/policy_data_validation.py: the entries of a policy's data that simulations cannot read.
pub mod Readable
use Prim.Native.String.{◌++◌, count}
use policyengine_api.Base.{
  ℕ, String, List, [], ◌∷◌, ◌++◌ as append, Option, none, some, Bool, true, false, not, ◌||◌, leb,
  str_eq, if◌then◌else◌,
}
use policyengine_api.Json.{Json, null, bool, num, lit, str, arr, obj, Fields, end, field}
use policyengine_api.Json.Canonical.{insert_key}
use policyengine_api.PolicyData.Dates.{is_readable_period_key}

-- `input_type` policy_period and policy_value
pub data InputType : Type 0 where
  policy_period policy_value : InputType

pub record InvalidPolicyEntry : Type 0 where
  pub input_type : InputType
  pub parameter_path : String
  pub path : String
  pub period_key : Option String
  pub received : Option String

abbrev period_key_requirement : String
period_key_requirement =
    "a date (YYYY-MM-DD) or an inclusive date range (YYYY-MM-DD.YYYY-MM-DD) of real calendar dates whose start is no later than its end"

abbrev value_requirement : String
value_requirement =
    "a finite number, a boolean, null, a list, or the string \"Infinity\" or \"-Infinity\""

abbrev period_object_requirement : String
period_object_requirement =
    "an object of period keys and values, such as {\"2026-01-01.2026-12-31\": 1}"

-- an f-string's text of an optional string
abbrev text_of : Option String → String
text_of none = "None"
text_of (some t) = t

unfoldable pub message : InvalidPolicyEntry → String
message e = elim e.input_type [
  | policy_value ↦
      "Value at `"
      ++ (e.path
          ++ ("` must be "
              ++ (value_requirement ++ (", but it is " ++ (text_of e.received ++ ".")))))
  | policy_period ↦ (elim e.period_key [
    | none ↦
        "`"
        ++ (e.path
            ++ ("` must be "
                ++ (period_object_requirement ++ (", but it is " ++ (text_of e.received ++ ".")))))
    | some key ↦
        "Period key `"
        ++ (key ++ ("` at `" ++ (e.path ++ ("` must be " ++ (period_key_requirement ++ ".")))))
  ])
]

abbrev type_text : InputType → String
type_text policy_period = "policy_period"
type_text policy_value = "policy_value"

unfoldable pub to_dict : InvalidPolicyEntry → Fields
unfolding message
to_dict e = field "type" (str (type_text e.input_type)) (
    field "name" (str e.parameter_path)
      (field "path" (str e.path) (field "message" (str (message e)) end)))

-- the parameters of sorted(policy_data)
unfoldable pub sorted_parameters : Fields → Fields
unfolding insert_key
sorted_parameters end = end
sorted_parameters (field k v rest) = insert_key k v (sorted_parameters rest)

-- `finite` is math.isfinite of a number that is no natural number, by its text; `written` is
-- json.dumps of a value
module _ (finite : String → Bool) (written : Json → String) where
  unfoldable pub is_readable_value : Json → Bool
  is_readable_value null = true
  is_readable_value (bool b) = true
  is_readable_value (num n) = true
  is_readable_value (arr items) = true
  is_readable_value (lit t) = finite t
  is_readable_value (str t) = str_eq t "Infinity" || str_eq t "-Infinity"
  is_readable_value (obj f) = false

  abbrev by_type : Json → String
  by_type (obj f) = "an object"
  by_type (arr items) = "a list"
  by_type (str t) = "a string"
  by_type _ = "a number"

  unfoldable pub describe_value : Json → String
  describe_value value = if leb (count (written value)) 40 then written value else by_type value

  abbrev entry_when : Bool → InvalidPolicyEntry → List InvalidPolicyEntry → List InvalidPolicyEntry
  entry_when unreadable e rest = if unreadable then e ∷ rest else rest

  unfoldable pub invalid_periods : String → Fields → List InvalidPolicyEntry
  unfolding is_readable_period_key is_readable_value describe_value
  invalid_periods parameter_path end = []
  invalid_periods parameter_path (field period_key value rest) =
      let later = invalid_periods parameter_path rest in
      let entry_path = "data." ++ (parameter_path ++ ("." ++ period_key)) in
      entry_when (not (is_readable_period_key period_key))
        (record {
          input_type = InputType.policy_period;
          parameter_path = parameter_path;
          path = entry_path;
          period_key = some period_key;
          received = none;
        })
        (entry_when (not (is_readable_value value))
          (record {
            input_type = InputType.policy_value;
            parameter_path = parameter_path;
            path = entry_path;
            period_key = some period_key;
            received = some (describe_value value);
          })
          later)

  -- _invalid_entries_for_parameter
  unfoldable pub invalid_entries_for_parameter : String → Json → List InvalidPolicyEntry
  unfolding invalid_periods describe_value
  invalid_entries_for_parameter parameter_path (obj period_values) =
      invalid_periods parameter_path period_values
  invalid_entries_for_parameter parameter_path period_values =
      record {
        input_type = InputType.policy_period;
        parameter_path = parameter_path;
        path = "data." ++ parameter_path;
        period_key = none;
        received = some (describe_value period_values);
      }
      ∷ []

  unfoldable pub invalid_entries : Fields → List InvalidPolicyEntry
  unfolding invalid_entries_for_parameter
  invalid_entries end = []
  invalid_entries (field parameter_path period_values rest) =
      append (invalid_entries_for_parameter parameter_path period_values) (invalid_entries rest)

  unfoldable pub find_invalid_periods_and_values : Fields → List InvalidPolicyEntry
  unfolding invalid_entries sorted_parameters
  find_invalid_periods_and_values policy_data = invalid_entries (sorted_parameters policy_data)
