-- ===== src/PolicyData/Entries/Readable.antt =====
-- utils/policy_data_validation.py: the policies in which no entry is found.
use policyengine_api.Base.{
  String, List, [], ◌∷◌, ◌++◌, ◌≡◌, refl, Bool, true, false, ◌&&◌, ◌↔◌, arith, ◌∙◌,
}
use policyengine_api.Json.{Json, obj, Fields, end, field}
use policyengine_api.Json.Canonical.{insert_key}
use policyengine_api.PolicyData.Dates.{is_readable_period_key}
use policyengine_api.PolicyData.Entries.{
  InvalidPolicyEntry, is_readable_value, invalid_periods, invalid_entries_for_parameter,
  invalid_entries, sorted_parameters, find_invalid_periods_and_values,
}

abbrev none_found : List InvalidPolicyEntry → Bool
none_found [] = true
none_found (e ∷ rest) = false

none_found-++ :
    (a b : List InvalidPolicyEntry) → none_found (a ++ b) ≡ (none_found a && none_found b)
none_found-++ [] b = refl
none_found-++ (e ∷ a) b = refl

module _ (finite : String → Bool) (written : Json → String) where
  -- The specification, which reads the policy in its own order.
  abbrev pub readable_periods : Fields → Bool
  readable_periods end = true
  readable_periods (field period_key value rest) =
      is_readable_period_key period_key
      && is_readable_value finite written value
      && readable_periods rest

  abbrev pub readable_parameter : Json → Bool
  readable_parameter (obj periods) = readable_periods periods
  readable_parameter _ = false

  abbrev pub readable_policy : Fields → Bool
  readable_policy end = true
  readable_policy (field parameter_path periods rest) =
      readable_parameter periods && readable_policy rest

  invalid_periods-readable :
      (path : String) (f : Fields)
      → none_found (invalid_periods finite written path f) ≡ readable_periods f
  unfolding invalid_periods
  invalid_periods-readable path end = refl
  invalid_periods-readable path (field k v rest) =
      ground (arith, invalid_periods-readable path rest)

  parameter-readable :
      (path : String) (j : Json)
      → none_found (invalid_entries_for_parameter finite written path j) ≡ readable_parameter j
  unfolding invalid_entries_for_parameter
  parameter-readable path (obj f) = invalid_periods-readable path f
  parameter-readable path _ = refl

  entries-readable :
      (f : Fields) → none_found (invalid_entries finite written f) ≡ readable_policy f
  unfolding invalid_entries
  entries-readable end = refl
  entries-readable (field k v rest) =
      none_found-++ (invalid_entries_for_parameter finite written k v)
        (invalid_entries finite written rest)
      ∙ rw (parameter-readable k v, entries-readable rest) refl

  readable-insert_key :
      (k : String) (v : Json) (f : Fields)
      → readable_policy (insert_key k v f) ≡ (readable_parameter v && readable_policy f)
  unfolding insert_key
  readable-insert_key k v end = refl
  readable-insert_key k v (field j w rest) = ground (arith, readable-insert_key k v rest)

  readable-sorted : (f : Fields) → readable_policy (sorted_parameters f) ≡ readable_policy f
  unfolding sorted_parameters
  readable-sorted end = refl
  readable-sorted (field k v rest) =
      readable-insert_key k v (sorted_parameters rest) ∙ rw (readable-sorted rest) refl

  -- No entry is found exactly when each parameter is an object, all of its period keys are readable
  -- and all of its values are.
  pub find_invalid-readable :
      (policy_data : Fields)
      → (find_invalid_periods_and_values finite written policy_data ≡ [])
        ↔ (readable_policy policy_data ≡ true)
  unfolding find_invalid_periods_and_values
  find_invalid-readable policy_data =
      ground (arith, entries-readable (sorted_parameters policy_data), readable-sorted policy_data)
