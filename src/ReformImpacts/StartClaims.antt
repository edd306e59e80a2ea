-- ===== src/ReformImpacts/StartClaims.antt =====
-- runtime_cache/reform_impacts.py: `ReformImpactStartClaim` and the start claims of
-- `ReformImpactCache`.
pub mod Lifecycle
pub mod Expires
use policyengine_api.Base.{
  ℕ, String, Option, none, some, Bool, true, false, str_eq, is_some, if◌then◌else◌, ◌≡◌,
}
use policyengine_api.Base.Maybe.{◌>>=◌}
use policyengine_api.Json.{Json, str, num, obj, Fields, end, field, CacheText, get}
use policyengine_api.Effect
use policyengine_api.Effect.{
  Error, value_error, coordination_error, Exec, pure, raise, attempt, ◌>>◌,
}
use policyengine_api.Cache.Client.{World, record_cache_event, client_get}
use policyengine_api.Cache.Claims.Methods.{acquire, release}
use policyengine_api.Cache.Core.{CacheNamespace, key, encode_envelope, decode_envelope}
use policyengine_api.ReformImpacts.{ReformImpactScope, ReformImpactIdentity, or_none}

abbrev pub schema_version : ℕ
schema_version = 3

abbrev pub start_claim_ttl_seconds : ℕ
start_claim_ttl_seconds = 300

abbrev pub start_claim_family : String
start_claim_family = "reform-impact-start-claim"

-- ReformImpactCache.family
abbrev pub family : String
family = "reform-impact"

pub record StartClaim : Type 0 where
  pub submission_claim_id : String
  pub observability_id : String

unfoldable pub to_payload : StartClaim → Fields
to_payload claim =
    field "submission_claim_id" (str claim.submission_claim_id)
      (field "observability_id" (str claim.observability_id) end)

-- `isinstance(value, str) and value`
abbrev pub nonempty_text : Json → Option String
nonempty_text (str t) = if str_eq t "" then none else some t
nonempty_text _ = none

module _ (normalize : String → Option String) where
  -- normalize_observability_id, for which only a string can be a UUID
  abbrev pub normalized : Json → Option String
  normalized (str t) = normalize t
  normalized _ = none

  unfoldable pub from_payload : Json → Option StartClaim
  unfolding get
  from_payload (obj payload) = do
    claim_id ← nonempty_text (get "submission_claim_id" payload)
    id ← normalized (get "observability_id" payload)
    some (record { submission_claim_id = claim_id; observability_id = id })
  from_payload _ = none

  -- the claim of a token and an identifier
  unfoldable pub requested : String → String → Option StartClaim
  unfolding from_payload
  requested claim_token observability_id = from_payload (
      obj (
        field "submission_claim_id" (str claim_token)
          (field "observability_id" (str observability_id) end)))

  abbrev pub claim_of : Option CacheText → Option StartClaim
  claim_of encoded = from_payload (decode_envelope encoded start_claim_family schema_version)

-- what was read, and the claim in it
unfoldable pub report_claim : Option CacheText → Option StartClaim → Exec World (Option StartClaim)
unfolding record_cache_event
report_claim (some encoded) none =
    record_cache_event family "decode-failed" (some "claim-read") "WARNING"
    >> raise (coordination_error "reform-impact submission ownership is unreadable")
report_claim none none = record_cache_event family "miss" (some "claim-read") "INFO" >> pure none
report_claim encoded (some claim) =
    record_cache_event family "hit" (some "claim-read") "INFO" >> pure (some claim)

abbrev pub unavailable : Error → Exec World (Option StartClaim)
unavailable error =
    record_cache_event family "coordination-failed" (some "claim-read") "WARNING"
    >> raise (coordination_error "reform-impact submission ownership is unavailable")

unfoldable pub encoded_start_claim : StartClaim → CacheText
unfolding encode_envelope to_payload
encoded_start_claim claim =
    encode_envelope start_claim_family schema_version (obj (to_payload claim))

unfoldable pub start_claim_key :
    (CacheText → String) → CacheNamespace → ReformImpactIdentity → String → String
unfolding key
start_claim_key sha256 ns identity target = key sha256 ns start_claim_family schema_version (
    field "api_version" (str identity.api_version) (
      field "baseline_policy_id" (num identity.scope.baseline_policy_id) (
        field "country_id" (str identity.scope.country_id) (
          field "dataset" (str identity.scope.dataset) (
            field "options_hash" (or_none identity.options_hash) (
              field "reform_policy_id" (num identity.scope.reform_policy_id) (
                field "region" (str identity.scope.region) (
                  field "target" (str target)
                    (field "time_period" (str identity.scope.time_period) end)))))))))

module _ (normalize : String → Option String) (claim_key : String) where
  abbrev acquire_claim : Option StartClaim → Exec World Bool
  acquire_claim none =
      raise (value_error "a claim token and valid observability identifier are required")
  acquire_claim (some claim) =
      acquire family claim_key (encoded_start_claim claim) start_claim_ttl_seconds

  unfoldable pub claim_start : String → String → Exec World Bool
  unfolding requested acquire encoded_start_claim
  claim_start claim_token observability_id =
      acquire_claim (requested normalize claim_token observability_id)

  abbrev release_claim : Option StartClaim → Exec World Bool
  release_claim none =
      raise (value_error "a claim token and valid observability identifier are required")
  release_claim (some claim) = release family claim_key (encoded_start_claim claim)

  unfoldable pub release_start : String → String → Exec World Bool
  unfolding requested release encoded_start_claim
  release_start claim_token observability_id =
      release_claim (requested normalize claim_token observability_id)

  unfoldable pub get_start_claim : Exec World (Option StartClaim)
  unfolding client_get report_claim from_payload decode_envelope
  get_start_claim =
      attempt (client_get claim_key) unavailable
        (λ encoded. report_claim encoded (claim_of normalize encoded))
