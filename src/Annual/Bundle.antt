-- ===== src/Annual/Bundle.antt =====
-- services/economy_impact_execution.py: what a result says of the worker that computed it.
use Prim.Native.Char.{code}
use policyengine_api.Base.{
  String, Option, none, some, Bool, true, false, not, ◌&&◌, ◌||◌, ◌==◌, str_eq, is_some,
  if◌then◌else◌,
}
use policyengine_api.Json.{Json, null, str, obj, Fields, end, field, get}
use policyengine_api.ReformImpacts.Repository.{nonempty}
use policyengine_api.Annual.Setup.{SetupOptions}
use policyengine_api.Annual.Request.{Execution}

-- text.startswith(prefix)
unfoldable pub starts_with : String → String → Bool
starts_with String.[] text = true
starts_with (String.◌∷◌ c prefix) String.[] = false
starts_with (String.◌∷◌ c prefix) (String.◌∷◌ d text) = code c == code d && starts_with prefix text

-- d[key] = value
unfoldable pub assign : String → Json → Fields → Fields
assign k v end = field k v end
assign k v (field j w rest) =
    let later = assign k v rest in if str_eq j k then field k v rest else field j w later

-- d.update({key: value for ... if value is not None})
unfoldable pub update_given : Fields → Fields → Fields
unfolding assign
update_given end bundle = bundle
update_given (field k null rest) bundle = update_given rest bundle
update_given (field k v rest) bundle = update_given rest (assign k v bundle)

abbrev given_dict : Json → Fields
given_dict (obj f) = f
given_dict j = end

abbrev pub option_dict : Option Fields → Fields
option_dict none = end
option_dict (some f) = f

abbrev text_or_null : Option String → Json
text_or_null none = null
text_or_null (some s) = str s

abbrev is_text : Json → Bool
is_text (str s) = not (str_eq s "")
is_text j = false

-- the bundle and the application that an execution reports
abbrev execution_bundle : Option Execution → Fields
execution_bundle none = end
execution_bundle (some execution) = option_dict execution.policyengine_bundle

abbrev execution_app : Option Execution → Option String
execution_app none = none
execution_app (some execution) = nonempty execution.resolved_app_name

abbrev with_app : Option String → Option String → Fields → Fields
with_app (some app_name) other response = assign "resolved_app_name" (str app_name) response
with_app none other response = elim (nonempty other) [
  | none ↦ response
  | some app_name ↦ assign "resolved_app_name" (str app_name) response
]

-- _with_policyengine_bundle; a result that is no dict is an empty one
unfoldable pub with_policyengine_bundle : SetupOptions → Fields → Option Execution → Fields
unfolding update_given get
with_policyengine_bundle setup result execution =
    let known = is_some execution || is_text (get "resolved_app_name" result) in
    let version = λ (v : Option String). if known then text_or_null v else null in
    let bundle = field "model_version" (version setup.model_version) (
      field "policyengine_version" (version setup.policyengine_version) (
        field "data_version" (text_or_null setup.data_version)
          (field "dataset" (str setup.dataset) end))) in
    let reported = update_given (given_dict (get "policyengine_bundle" result)) bundle in
    let full = update_given (execution_bundle execution) reported in
    with_app (execution_app execution) setup.runtime_app_name
      (assign "policyengine_bundle" (obj full) result)
