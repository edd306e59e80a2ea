-- ===== src/Households/Receipts.antt =====
-- runtime_cache/household_calculations.py: the SPM receipts of the calculations that are served.
use policyengine_api.Base.{ℕ, String, Option, none, some, true, ◌≡◌, refl, arith}
use policyengine_api.Base.Int.{ℤ}
use policyengine_api.Base.Maybe.{◌>>=◌}
use policyengine_api.Json.{Json, Fields, CacheText}
use policyengine_api.Effect
use policyengine_api.Effect.{Error, Result, ok, raised, lift, pure}
use policyengine_api.Cache.Client.{World}
use policyengine_api.Cache.Core.{CacheNamespace}
use policyengine_api.Cache.Core.Recoverable.{read}
use policyengine_api.Households.{
  HouseholdCalculationIdentity, CachedHouseholdCalculation, Receipt, same_dict, inputs,
  cache_family, well_formed_entry, certified_as, certified_receipt, fitted, get_calculation,
}

module _ (validate : Option Fields → Option Receipt) where
  -- The receipt of a calculation certifies the configuration that was asked for, or there is none
  -- where none was.
  pub record Certifies (spm : Fields) (v : CachedHouseholdCalculation) : Type 0 where
    pub source : Option Fields
    pub receipt : Receipt
    pub valid : validate source ≡ some receipt
    pub fits : same_dict receipt.configuration spm ≡ true
    pub carried : v.spm_provenance ≡ some receipt.document

  abbrev pub IsCertified : Option Fields → CachedHouseholdCalculation → Type 0
  IsCertified none v = v.spm_provenance ≡ none
  IsCertified (some spm) v = Certifies spm v

  certified-Certifies :
      (spm : Fields) (e v : CachedHouseholdCalculation) (o : Option Receipt)
      → validate e.spm_provenance ≡ o
      → (certified_as validate spm o >>= λ receipt.
          some (record e { spm_provenance = some receipt }))
        ≡ some v
      → Certifies spm v
  certified-Certifies spm e v none valid h = absurd (cc h)
  certified-Certifies spm e v (some r) valid h = record {
    source = e.spm_provenance;
    receipt = r;
    valid = valid;
    fits = ground arith;
    carried = ground arith;
  }

  fitted-IsCertified :
      (spm : Option Fields) (e v : CachedHouseholdCalculation)
      → fitted validate spm e ≡ some v
      → IsCertified spm v
  unfolding fitted certified_receipt
  fitted-IsCertified none e v h = ground arith
  fitted-IsCertified (some spm) e v h =
      certified-Certifies spm e v (validate e.spm_provenance) refl h

  entry-IsCertified :
      (spm : Option Fields) (o : Option CachedHouseholdCalculation) (v : CachedHouseholdCalculation)
      → (o >>= λ entry. fitted validate spm entry) ≡ some v
      → IsCertified spm v
  entry-IsCertified spm none v h = absurd (cc h)
  entry-IsCertified spm (some e) v h = fitted-IsCertified spm e v h

  reply-IsCertified :
      (spm : Option Fields) (r : Result Json) (w : World) (v : CachedHouseholdCalculation)
      → (Effect.◌>>=◌
          (lift r)
          (λ payload. pure (do entry ← well_formed_entry payload; fitted validate spm entry))
          w).0
        ≡ ok (some v)
      → IsCertified spm v
  reply-IsCertified spm (ok p) w v h = entry-IsCertified spm (well_formed_entry p) v (cc h)
  reply-IsCertified spm (raised e) w v h = absurd (cc h)

  -- Whatever the cache holds and whatever its command meets, a calculation that is served has no
  -- receipt where the request asks for no SPM, and otherwise the canonical form of a valid receipt
  -- that resolves to the configuration that is asked for.
  pub get_calculation-IsCertified :
      (sha256 : CacheText → String) (randint : ℕ → ℕ → ℤ) (ns : CacheNamespace)
      (identity : HouseholdCalculationIdentity) (w : World) (v : CachedHouseholdCalculation)
      → (get_calculation validate sha256 randint ns identity w).0 ≡ ok (some v)
      → IsCertified identity.spm v
  unfolding get_calculation
  get_calculation-IsCertified sha256 randint ns identity w v h =
      let (r, w') = read sha256 randint (cache_family ns) (inputs identity) w in
      reply-IsCertified identity.spm r w' v h
