-- ===== src/Households/RoundTrip.antt =====
-- runtime_cache/household_calculations.py: a calculation that is stored and read again.
use policyengine_api.Base.{
  ℕ, ◌-◌, ◌*◌, ◌≤◌, ◌≡◌, refl, ap, ◌∙◌, String, List, [], ◌∷◌, Option, none, some, Bool, true,
  false, ltb, if◌then◌else◌, arith,
}
use policyengine_api.Base.Int.{ℤ, pos}
use policyengine_api.Base.Maybe.{◌>>=◌}
use policyengine_api.Json.{Json, null, str, obj, cons, Fields, CacheText, get, lookup}
use policyengine_api.Json.Canonical.{
  canonical, canonical_fields, canonical_items, get-canonical_fields, lookup-canonical_fields,
}
use policyengine_api.Effect.{ok}
use policyengine_api.Cache.Backend.Commands.{second}
use policyengine_api.Cache.Client.{World, pass, IsCalm}
use policyengine_api.Cache.Core.{CacheNamespace}
use policyengine_api.Cache.Core.Recoverable.{read, write, read-write}
use policyengine_api.Households.{
  HouseholdCalculationIdentity, CachedHouseholdCalculation, Receipt, inputs, payload_of,
  cache_family, items_of, read_warnings, well_formed_entry, fitted, store, get_calculation,
  set_calculation,
}

-- the calculation as it reads back, the keys of its dicts in order
abbrev pub with_sorted_household : CachedHouseholdCalculation → CachedHouseholdCalculation
with_sorted_household v = record v { household = canonical_fields v.household }

canonical-items_of : (ys : List String) → canonical_items (items_of ys) ≡ items_of ys
unfolding canonical_items canonical
canonical-items_of [] = refl
canonical-items_of (y ∷ ys) = ap (cons (str y)) (canonical-items_of ys)

read_warnings-items_of : (ys : List String) → read_warnings (items_of ys) ≡ some ys
unfolding read_warnings
read_warnings-items_of [] = refl
read_warnings-items_of (y ∷ ys) = rw (read_warnings-items_of ys) refl

entry-payload :
    (v : CachedHouseholdCalculation)
    → v.spm_provenance ≡ none
    → well_formed_entry (canonical (obj (payload_of v))) ≡ some (with_sorted_household v)
unfolding well_formed_entry canonical payload_of get lookup
entry-payload v plain =
    let f = payload_of v in
    rw
      (
        get-canonical_fields "household" f,
        get-canonical_fields "warnings" f,
        get-canonical_fields "spm_provenance" f,
        lookup-canonical_fields "spm_config" f,
        plain,
      )
      (rw (canonical-items_of v.warnings) (rw (read_warnings-items_of v.warnings) refl))

fitted-plain :
    (validate : Option Fields → Option Receipt) (spm : Option Fields)
    (v : CachedHouseholdCalculation)
    → spm ≡ none
    → v.spm_provenance ≡ none
    → fitted validate spm v ≡ some v
unfolding fitted
fitted-plain validate spm v unasked plain = ground arith

-- what a request without SPM makes of the payload that is there or gone
plain-reply :
    (validate : Option Fields → Option Receipt) (spm : Option Fields)
    (v : CachedHouseholdCalculation) (there : Bool)
    → spm ≡ none
    → v.spm_provenance ≡ none
    → (do
      entry ← well_formed_entry (if there then canonical (obj (payload_of v)) else null)
      fitted validate spm entry)
      ≡ (if there then some (with_sorted_household v) else none)
plain-reply validate spm v true unasked plain =
    rw (entry-payload v plain) (fitted-plain validate spm (with_sorted_household v) unasked plain)
plain-reply validate spm v false unasked plain = unfold well_formed_entry in refl

module _ (validate : Option Fields → Option Receipt) (sha256 : CacheText → String)
    (randint : ℕ → ℕ → ℤ) (ns : CacheNamespace) (identity : HouseholdCalculationIdentity)
    (v : CachedHouseholdCalculation) where
  set_calculation-write :
      identity.spm ≡ none
      → v.spm_provenance ≡ none
      → set_calculation validate sha256 randint ns identity v
        ≡ write sha256 randint (cache_family ns) (inputs identity) (obj (payload_of v))
  unfolding set_calculation
  set_calculation-write unasked plain =
      ap (store validate sha256 randint ns identity)
        (fitted-plain validate identity.spm v unasked plain)

  get_calculation-read :
      (w : World) (payload : Json)
      → (read sha256 randint (cache_family ns) (inputs identity) w).0 ≡ ok payload
      → (get_calculation validate sha256 randint ns identity w).0
        ≡ ok (do entry ← well_formed_entry payload; fitted validate identity.spm entry)
  unfolding get_calculation
  get_calculation-read w payload found = rw found refl

  -- Where no command fails and no SPM is asked for, a calculation without a receipt that was stored
  -- is read back, its dicts with their keys in order, until its jittered lifetime of a day is over,
  -- and never after.
  pub get_calculation-set_calculation :
      (n elapsed : ℕ) (w : World)
      → IsCalm w
      → identity.spm ≡ none
      → v.spm_provenance ≡ none
      → randint 0 8640 ≡ pos n
      → n ≤ 8640
      → (get_calculation validate sha256 randint ns identity
          (pass elapsed (set_calculation validate sha256 randint ns identity v w).1)).0
        ≡ ok (if ltb elapsed ((86_400 - n) * second) then some (with_sorted_household v) else none)
  get_calculation-set_calculation n elapsed w calm unasked plain chosen small =
      rw (set_calculation-write unasked plain) (
        get_calculation-read _ _ (
          read-write sha256 randint (cache_family ns) (inputs identity) (obj (payload_of v)) n
            elapsed w calm (omega arith) chosen small)
        ∙ ap ok (
            plain-reply validate identity.spm v (ltb elapsed ((86_400 - n) * second)) unasked
              plain))
