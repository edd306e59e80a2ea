-- ===== src/ReformImpacts/Service/Holding.antt =====
-- services/reform_impacts_service.py: the start claim while a job's record is stored.
use policyengine_api.Base.{ℕ, String, Option, none, some, Bool, true, false, ◌≡◌, refl, ◌∙◌}
use policyengine_api.Json.{Json, CacheText, Fields}
use policyengine_api.Effect.{ok}
use policyengine_api.Effect.Keeps.{Keeps, keeps_rules}
use policyengine_api.Cache.Backend.Expiry.{view}
use policyengine_api.Cache.Client.{World, IsCalm}
use policyengine_api.Cache.Core.{completed_result_ttl}
use policyengine_api.ReformImpacts.{ReformImpactIdentity}
use policyengine_api.ReformImpacts.Records.{CachedReformImpact}
use policyengine_api.ReformImpacts.StartClaims.{start_claim_key}
use policyengine_api.ReformImpacts.Keys.{record_key-start_claim_key}
use policyengine_api.ReformImpacts.Repository.{
  Setting, ttl_seconds, record_key, nonempty, or_else, store, store_under, set_impact,
}
use policyengine_api.ReformImpacts.Repository.Stored.{store_lem}
use policyengine_api.ReformImpacts.Service.{
  ReformImpactExecution, submitted_impact, stored_or_raise, with_id, set_reform_impact,
}

-- No command fails, and the key holds the text.
abbrev pub Holds : CacheText → String → World → Type 0
Holds text k w = IsCalm w × (view w.backend k ≡ some text)

module _ (set : Setting) (ttl : ℕ)
    (chosen : completed_result_ttl ttl_seconds set.choose_reduction ≡ ok ttl)
    (identity : ReformImpactIdentity) (target : String) (text : CacheText) where
  abbrev key_of_claim : String
  key_of_claim = start_claim_key set.sha256 set.namespace identity target

  abbrev pub HoldsClaim : World → Type 0
  HoldsClaim = Holds text key_of_claim

  store-HoldsClaim :
      (id : String) (impact : CachedReformImpact)
      → Keeps HoldsClaim (store set (record_key set (some id)) impact none false)
  store-HoldsClaim id impact = record {
    at = λ w (calm, held).
        let s = store_lem set ttl chosen (record_key set (some id)) impact none false w calm in
        let other = record_key-start_claim_key set identity target (some id) in
        (s.2, s.1 key_of_claim ∙ rw other (rw held refl));
  }

  store_under-HoldsClaim :
      (id : Option String) (impact : CachedReformImpact)
      → Keeps HoldsClaim (store_under set id impact none false)
  store_under-HoldsClaim none impact = search keeps_rules
  store_under-HoldsClaim (some id) impact = store-HoldsClaim id impact

  set_impact-HoldsClaim :
      (impact : CachedReformImpact) → Keeps HoldsClaim (set_impact set impact none none false)
  unfolding set_impact
  set_impact-HoldsClaim impact =
      store_under-HoldsClaim (nonempty (or_else none impact.execution_id)) impact

  stored_or_raise-HoldsClaim :
      (impact : CachedReformImpact) (stored : Bool)
      → Keeps HoldsClaim (stored_or_raise set impact stored)
  stored_or_raise-HoldsClaim impact true = search keeps_rules
  stored_or_raise-HoldsClaim impact false = search keeps_rules

  with_id-HoldsClaim :
      (impact : ℕ → CachedReformImpact) (id : Option ℕ) → Keeps HoldsClaim (with_id set impact id)
  with_id-HoldsClaim impact none = search keeps_rules
  with_id-HoldsClaim impact (some id) =
      search (keeps_rules, set_impact-HoldsClaim, stored_or_raise-HoldsClaim)

  pub set_reform_impact-HoldsClaim :
      (written : ReformImpactIdentity) (execution : ReformImpactExecution) (options : Fields)
      (status : String) (result : Json)
      → Keeps HoldsClaim (set_reform_impact set written execution options status result)
  unfolding set_reform_impact
  set_reform_impact-HoldsClaim written execution options status result =
      with_id-HoldsClaim (submitted_impact written execution options status result) _
