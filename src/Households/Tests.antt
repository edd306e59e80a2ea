-- ===== src/Households/Tests.antt =====
-- The theorems on calculated households at concrete inputs.
use policyengine_api.Base.{
  ℕ, ◌-◌, ◌*◌, ◌/◌, ◌≡◌, refl, String, [], ◌∷◌, Option, none, some, false, ltb, if◌then◌else◌,
  arith,
}
use policyengine_api.Base.Int.{ℤ, pos}
use policyengine_api.Json.{Fields, end, field, num, str, CacheText}
use policyengine_api.Effect.{ok}
use policyengine_api.Cache.Backend.Commands.{empty, second}
use policyengine_api.Cache.Client.{World, pass}
use policyengine_api.Cache.Core.{
  CacheNamespace, jittered_ttl, decode_envelope, key, encode_envelope,
}
use policyengine_api.Cache.Core.Recoverable.{send}
use policyengine_api.Json.Canonical.{insert_key}
use policyengine_api.Households.{
  HouseholdCalculationIdentity, CachedHouseholdCalculation, Receipt, get_calculation,
  set_calculation,
}
use policyengine_api.Households.Receipts.{IsCertified, get_calculation-IsCertified}
use policyengine_api.Households.RoundTrip.{with_sorted_household, get_calculation-set_calculation}

abbrev world : World
world = record { backend = empty; disabled = false; outcomes = []; events = [] }

abbrev namespace : CacheNamespace
namespace = record { environment = "production"; service = "api" }

abbrev plain_identity : HouseholdCalculationIdentity
plain_identity = record {
  country_id = "us";
  household_id = 7;
  policy_id = 2;
  household_hash = "h";
  policy_hash = "p";
  country_package_version = "1.0.0";
  policyengine_version = "2.0.0";
  spm = none;
}

abbrev asked : Fields
asked = field "tenure" (str "renter") end

abbrev spm_identity : HouseholdCalculationIdentity
spm_identity = record plain_identity { spm = some asked }

abbrev calculation : CachedHouseholdCalculation
calculation = record {
  household = field "people" (num 2) end;
  warnings = "rounded" ∷ [];
  spm_provenance = none;
}

-- receipts name their configuration by themselves
abbrev validate : Option Fields → Option Receipt
validate none = none
validate (some document) = some (record { document = document; configuration = document })

abbrev with_receipt : CachedHouseholdCalculation
with_receipt = record calculation { spm_provenance = some asked }

abbrev digest : CacheText → String
digest text = "0"

abbrev half : ℕ → ℕ → ℤ
half low high = pos (high / 2)

get_calculation-set_calculation_example :
    (get_calculation validate digest half namespace plain_identity (
      pass 80_000_000_000
        (set_calculation validate digest half namespace plain_identity calculation world).1)).0
    ≡ ok (
        if ltb 80_000_000_000 ((86_400 - 4320) * second)
        then some (with_sorted_household calculation)
        else none)
get_calculation-set_calculation_example =
    get_calculation-set_calculation validate digest half namespace plain_identity calculation 4320
      80_000_000_000 world (record { enabled = refl; faultless = refl; internal = refl }) refl refl
      refl (omega arith)

abbrev stored : World
unfolding set_calculation
stored = (set_calculation validate digest half namespace spm_identity with_receipt world).1

certified_is_served :
    (get_calculation validate digest half namespace spm_identity stored).0 ≡ ok (some with_receipt)
unfolding stored get_calculation insert_key send jittered_ttl decode_envelope key encode_envelope
certified_is_served = refl

get_calculation-IsCertified_example : IsCertified validate (some asked) with_receipt
get_calculation-IsCertified_example =
    get_calculation-IsCertified validate digest half namespace spm_identity stored with_receipt
      certified_is_served
