-- ===== src/Households.antt =====
-- runtime_cache/household_calculations.py: the cache of calculated households.
pub mod Receipts
pub mod RoundTrip
mod Tests
use policyengine_api.Base.{
  ℕ, String, List, [], ◌∷◌, Option, none, some, Bool, true, false, not, is_some, if◌then◌else◌,
}
use policyengine_api.Base.Int.{ℤ}
use policyengine_api.Base.Maybe.{◌>>=◌}
use policyengine_api.Json.{
  Json, null, num, str, arr, obj, Items, nil, cons, Fields, end, field, CacheText, get, lookup,
}
use policyengine_api.Json.Canonical.{canonical}
use policyengine_api.Json.Equality.{json_eq}
use policyengine_api.Effect
use policyengine_api.Effect.{Result, Exec, pure}
use policyengine_api.Cache.Client.{World}
use policyengine_api.Cache.Core.{CacheNamespace}
use policyengine_api.Cache.Core.Recoverable.{RecoverableJsonCache, read, write}

pub record HouseholdCalculationIdentity : Type 0 where
  pub country_id : String
  pub household_id : ℕ
  pub policy_id : ℕ
  pub household_hash : String
  pub policy_hash : String
  pub country_package_version : String
  pub policyengine_version : String
  pub spm : Option Fields

pub record CachedHouseholdCalculation : Type 0 where
  pub household : Fields
  pub warnings : List String
  pub spm_provenance : Option Fields

abbrev pub dict_or_null : Option Fields → Json
dict_or_null none = null
dict_or_null (some f) = obj f

-- asdict(identity)
unfoldable pub inputs : HouseholdCalculationIdentity → Fields
inputs i = field "country_id" (str i.country_id) (
    field "household_id" (num i.household_id) (
      field "policy_id" (num i.policy_id) (
        field "household_hash" (str i.household_hash) (
          field "policy_hash" (str i.policy_hash) (
            field "country_package_version" (str i.country_package_version) (
              field "policyengine_version" (str i.policyengine_version)
                (field "spm" (dict_or_null i.spm) end)))))))

abbrev pub items_of : List String → Items
items_of [] = nil
items_of (s ∷ rest) = cons (str s) (items_of rest)

-- asdict(value)
unfoldable pub payload_of : CachedHouseholdCalculation → Fields
payload_of v = field "household" (obj v.household) (
    field "warnings" (arr (items_of v.warnings))
      (field "spm_provenance" (dict_or_null v.spm_provenance) end))

unfoldable pub read_warnings : Items → Option (List String)
read_warnings nil = some []
read_warnings (cons (str s) rest) = do tail ← read_warnings rest; some (s ∷ tail)
read_warnings (cons _ rest) = none

abbrev pub read_list : Json → Option (List String)
read_list (arr items) = read_warnings items
read_list _ = none

abbrev pub read_dict : Json → Option Fields
read_dict (obj f) = some f
read_dict _ = none

abbrev pub read_receipt : Json → Option (Option Fields)
read_receipt null = some none
read_receipt (obj f) = some (some f)
read_receipt _ = none

-- an entry without the legacy field
abbrev pub current_entry :
    Option Json → CachedHouseholdCalculation → Option CachedHouseholdCalculation
current_entry none entry = some entry
current_entry (some legacy) entry = none

-- _is_well_formed_entry, with the parts of an entry that is
unfoldable pub well_formed_entry : Json → Option CachedHouseholdCalculation
unfolding get lookup read_warnings
well_formed_entry (obj payload) = do
  household ← read_dict (get "household" payload)
  warnings ← read_list (get "warnings" payload)
  receipt ← read_receipt (get "spm_provenance" payload)
  current_entry (lookup "spm_config" payload)
      (record { household = household; warnings = warnings; spm_provenance = receipt })
well_formed_entry _ = none

-- a receipt in canonical form, and the SPM configuration that it resolves to
pub record Receipt : Type 0 where
  pub document : Fields
  pub configuration : Fields

-- `==` of two dicts, whatever the order of their keys
abbrev pub same_dict : Fields → Fields → Bool
same_dict a b = json_eq (canonical (obj a)) (canonical (obj b))

abbrev pub cache_family : CacheNamespace → RecoverableJsonCache
cache_family ns = record {
  namespace = ns;
  family = "household-calculation";
  schema_version = 4;
  ttl_seconds = 86_400;
}

-- `validate` is validate_spm_calculation_provenance of spm.py: none where it raises
module _ (validate : Option Fields → Option Receipt) where
  abbrev certified_as : Fields → Option Receipt → Option Fields
  certified_as expected none = none
  certified_as expected (some receipt) =
      if not (same_dict receipt.configuration expected) then none else some receipt.document

  -- _certified_receipt
  unfoldable pub certified_receipt : Option Fields → Fields → Option Fields
  unfolding json_eq canonical
  certified_receipt spm_provenance expected = certified_as expected (validate spm_provenance)

  -- the value of an identity with the given SPM configuration, its receipt in canonical form, or
  -- none where the receipt does not fit: what `get` makes of an entry, and what `set` stores
  unfoldable pub fitted :
      Option Fields → CachedHouseholdCalculation → Option CachedHouseholdCalculation
  unfolding certified_receipt
  fitted none entry = if is_some entry.spm_provenance then none else some entry
  fitted (some spm) entry = do
    receipt ← certified_receipt entry.spm_provenance spm
    some (record entry { spm_provenance = some receipt })

  module _ (sha256 : CacheText → String) (randint : ℕ → ℕ → ℤ) (ns : CacheNamespace) where
    unfoldable pub get_calculation :
        HouseholdCalculationIdentity → Exec World (Option CachedHouseholdCalculation)
    unfolding read inputs well_formed_entry fitted
    get_calculation identity =
        Effect.◌>>=◌ (read sha256 randint (cache_family ns) (inputs identity))
          (λ payload. pure (do entry ← well_formed_entry payload; fitted identity.spm entry))

    abbrev store :
        HouseholdCalculationIdentity → Option CachedHouseholdCalculation → Exec World Bool
    store identity none = pure false
    store identity (some value) =
        write sha256 randint (cache_family ns) (inputs identity) (obj (payload_of value))

    unfoldable pub set_calculation :
        HouseholdCalculationIdentity → CachedHouseholdCalculation → Exec World Bool
    unfolding fitted write inputs payload_of
    set_calculation identity value = store identity (fitted identity.spm value)
