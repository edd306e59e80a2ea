-- ===== src/Annual/Setup.antt =====
-- services/economy_impact_types.py: `EconomicImpactSetupOptions`, and services/economy_stored_impacts.py:
-- what identifies the impact that they describe.
use Prim.Native.Char.{code}
use Prim.Native.String.{◌++◌ as text_append}
use policyengine_api.Base.{
  ℕ, String, List, [], ◌∷◌, ◌++◌, Option, none, some, Bool, true, false, ◌==◌, str_eq,
  if◌then◌else◌,
}
use policyengine_api.Json.{Json, null, str, Fields, end, field, get}
use policyengine_api.Json.Canonical.{insert_key}
use policyengine_api.ReformImpacts.{ReformImpactScope, ReformImpactIdentity}

pub record SetupOptions : Type 0 where
  pub submission_claim_id : String
  pub observability_id : Option String
  pub country_id : String
  pub reform_policy_id : ℕ
  pub baseline_policy_id : ℕ
  pub region : String
  pub dataset : String
  pub time_period : String
  pub options : Fields
  pub api_version : String
  pub target : String
  pub model_version : Option String
  pub policyengine_version : Option String
  pub data_version : Option String
  pub runtime_app_name : Option String
  pub options_hash : Option String

-- `options.get(key) is not None`
abbrev is_given : Json → Bool
is_given null = false
is_given j = true

abbrev pub has_option : String → Fields → Bool
has_option key options = is_given (get key options)

pub record RuntimeBundleIdentity : Type 0 where
  pub dataset : String
  pub model_version : Option String
  pub policyengine_version : Option String
  pub data_version : Option String
  pub runtime_app_name : Option String

-- _runtime_bundle
abbrev pub runtime_bundle : SetupOptions → RuntimeBundleIdentity
runtime_bundle setup = record {
  dataset = setup.dataset;
  model_version = setup.model_version;
  policyengine_version = setup.policyengine_version;
  data_version = setup.data_version;
  runtime_app_name = setup.runtime_app_name;
}

-- _reform_impact_scope
unfoldable pub reform_impact_scope : SetupOptions → ReformImpactScope
reform_impact_scope setup = record {
  country_id = setup.country_id;
  reform_policy_id = setup.reform_policy_id;
  baseline_policy_id = setup.baseline_policy_id;
  region = setup.region;
  dataset = setup.dataset;
  time_period = setup.time_period;
}

-- _reform_impact_identity
unfoldable pub reform_impact_identity : SetupOptions → ReformImpactIdentity
unfolding reform_impact_scope
reform_impact_identity setup = record {
  scope = reform_impact_scope setup;
  api_version = setup.api_version;
  options_hash = setup.options_hash;
}

-- sorted(options), with the values
unfoldable pub sorted_fields : Fields → Fields
unfolding insert_key
sorted_fields end = end
sorted_fields (field k v rest) = insert_key k v (sorted_fields rest)

abbrev joined_rest : List String → String
joined_rest [] = ""
joined_rest (s ∷ rest) = text_append "&" (text_append s (joined_rest rest))

-- "&".join(parts)
abbrev pub joined : List String → String
joined [] = ""
joined (s ∷ rest) = text_append s (joined_rest rest)

-- text.lstrip("&")
unfoldable pub lstrip : String → String
lstrip String.[] = ""
lstrip (String.◌∷◌ c s) = let later = lstrip s in if code c == b'&' then later else String.◌∷◌ c s

-- text.rstrip("&"): a tail of `&` only is dropped
unfoldable pub rstrip : String → String
rstrip String.[] = ""
rstrip (String.◌∷◌ c s) =
    let later = rstrip s in
    if code c == b'&'
    then (if str_eq later "" then "" else String.◌∷◌ c later)
    else String.◌∷◌ c later

-- text.strip("&")
abbrev pub strip : String → String
strip s = rstrip (lstrip s)

-- a part that is left out for None and for an empty text
abbrev part : String → Option String → List String
part name none = []
part name (some s) = if str_eq s "" then [] else text_append name s ∷ []

abbrev part_if : Bool → String → List String
part_if true s = s ∷ []
part_if false s = []

-- `other_text` is Python's str of a JSON value that is no text
module _ (other_text : Json → String) where
  abbrev text_of : Json → String
  text_of (str s) = s
  text_of j = other_text j

  option_pairs : Fields → List String
  option_pairs end = []
  option_pairs (field k v rest) = text_append k (text_append "=" (text_of v)) ∷ option_pairs rest

  abbrev or_none_text : Option String → String
  or_none_text none = "None"
  or_none_text (some s) = s

  -- _build_options_hash
  unfoldable pub build_options_hash : Fields → RuntimeBundleIdentity → String
  unfolding sorted_fields option_pairs lstrip rstrip get
  build_options_hash options bundle =
      let pairs = joined (option_pairs (sorted_fields options)) in
      let parts =
        text_append "dataset=" bundle.dataset
          ∷ text_append "model_version=" (or_none_text bundle.model_version)
          ∷ part "data_version=" bundle.data_version
        ++ part "policyengine_version=" bundle.policyengine_version
        ++ part_if (has_option "spm" options) "spm_provenance_schema=canonical-spm-comparison-v2"
        ++ part_if (has_option "breakdown" options) "breakdown_schema=2"
        ++ part "runtime_app_name=" bundle.runtime_app_name in
      text_append "[" (text_append (strip (joined (pairs ∷ parts))) "]")
