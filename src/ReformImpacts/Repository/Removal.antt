-- ===== src/ReformImpacts/Repository/Removal.antt =====
-- runtime_cache/reform_impacts.py: what `ReformImpactCache` removes, and the identifier of an impact.
use policyengine_api.Base.{
  ℕ, ◌+◌, ◌*◌, ◌-◌, String, List, [], ◌∷◌, Option, none, some, Bool, false, not, ◌&&◌, ltb, leb,
  ◌==◌, str_eq, take, if◌then◌else◌,
}
use policyengine_api.Base.Maybe.{◌>>=◌ as and_then}
use policyengine_api.Json.{str, CacheText, plain}
use policyengine_api.Json.Equality.{json_eq}
use policyengine_api.Effect.{
  Error, value_error, coordination_error, Exec, pure, raise, attempt, ◌>>=◌, ◌>>◌,
}
use policyengine_api.Cache.Backend.Commands.{Script}
use policyengine_api.Cache.Client.{World, record_cache_event, client_eval}
use policyengine_api.Cache.Client.Pipeline.{Operation, client_execute}
use policyengine_api.ReformImpacts.{ReformImpactScope}
use policyengine_api.ReformImpacts.StartClaims.{family}
use policyengine_api.ReformImpacts.Like.{Codes, codes}
use policyengine_api.ReformImpacts.Records.{CachedReformImpact, impact_eq}
use policyengine_api.ReformImpacts.Repository.{
  Setting, index_limit, record_key, scope_index, recent_index, decode_impact,
}
use policyengine_api.ReformImpacts.Repository.Lookups.{Entry, read_index, recent}

module _ (set : Setting) where
  abbrev pub is_failure : CachedReformImpact → Option CachedReformImpact → Bool
  is_failure failure none = false
  is_failure failure (some impact) = impact_eq impact failure

  -- next((record_key, value) for ... if value is not None and it decodes to the failure)
  unfoldable pub find_stored : CachedReformImpact → List Entry → Option (String × CacheText)
  unfolding decode_impact impact_eq
  find_stored failure [] = none
  find_stored failure ((record_key, none) ∷ rest) = find_stored failure rest
  find_stored failure ((record_key, some value) ∷ rest) =
      let later = find_stored failure rest in
      if is_failure failure (decode_impact set (some value))
      then some (record_key, value)
      else later

  abbrev pub remove_unchanged : String → Option (String × CacheText) → Exec World Bool
  remove_unchanged index none = pure false
  remove_unchanged index (some (record_key, value)) = do
    n ←
        client_eval Script.delete_unchanged_record 3
          (plain record_key ∷ plain index ∷ plain (recent_index set) ∷ value ∷ [])
    pure (ltb 0 n)

  abbrev pub not_deleted : Error → Exec World Bool
  not_deleted error =
      record_cache_event family "coordination-failed" (some "failure-delete") "WARNING"
      >> raise (coordination_error "the stored reform-impact failure could not be deleted")

  unfoldable pub delete_failure : CachedReformImpact → Exec World Bool
  unfolding read_index find_stored client_eval record_cache_event scope_index recent_index
  delete_failure failure =
      if not (str_eq failure.status "error")
      then raise (value_error "only a failed reform impact can be deleted")
      else attempt
          (do
            entries ← read_index (scope_index set failure) index_limit
            remove_unchanged (scope_index set failure) (find_stored failure entries))
          not_deleted
          (λ deleted.
            record_cache_event family (if deleted then "deleted" else "delete-skipped")
              (some "failure-delete") "INFO"
            >> pure deleted)

  abbrev pub is_stale : ReformImpactScope → String → CachedReformImpact → Bool
  is_stale scope options_hash impact =
      str_eq impact.country_id scope.country_id
      && impact.reform_policy_id == scope.reform_policy_id
      && impact.baseline_policy_id == scope.baseline_policy_id
      && str_eq impact.region scope.region
      && str_eq impact.dataset scope.dataset
      && str_eq impact.time_period scope.time_period
      && json_eq impact.options_hash (str options_hash)
      && str_eq impact.status "computing"

  -- the operations queued for the selected impacts
  unfoldable pub removals : ReformImpactScope → String → List CachedReformImpact → List Operation
  unfolding json_eq record_key scope_index recent_index
  removals scope options_hash [] = []
  removals scope options_hash (impact ∷ rest) =
      let later = removals scope options_hash rest in
      let key = record_key set impact.execution_id in
      if is_stale scope options_hash impact
      then Operation.delete (key ∷ [])
        ∷ Operation.zrem (scope_index set impact) (key ∷ [])
        ∷ Operation.zrem (recent_index set) (key ∷ [])
        ∷ later
      else later

  -- `if not selected: return`; each selected impact queues three operations
  abbrev pub remove : List Operation → Exec World (Unit {0})
  remove [] = pure tt
  remove operations = attempt (client_execute operations) (λ error. pure tt) (λ replies. pure tt)

  unfoldable pub delete_matching_computing :
      Bool → ReformImpactScope → String → Exec World (Unit {0})
  unfolding recent removals client_execute
  delete_matching_computing fail_closed scope options_hash = do
    impacts ← recent set fail_closed index_limit
    remove (removals scope options_hash impacts)

abbrev hex_digit : ℕ → Option ℕ
hex_digit c =
    if leb b'0' c && leb c b'9'
    then some (c - b'0')
    else if leb b'a' c && leb c b'f'
    then some (c - b'a' + 10)
    else none

-- int(digits, 16), where the digits are those of a lower-case digest
unfoldable pub hex_value : ℕ → Codes → Option ℕ
hex_value value [] = some value
hex_value value (c ∷ rest) = and_then (hex_digit c) (λ d. hex_value (value * 16 + d) rest)

-- `none` is a ValueError
unfoldable pub reform_impact_id : (CacheText → String) → String → Option ℕ
unfolding hex_value
reform_impact_id sha256 execution_id = hex_value 0 (take 15 (codes (sha256 (plain execution_id))))
