-- ===== src/ReformImpacts/Repository.antt =====
-- runtime_cache/reform_impacts.py: the records of `ReformImpactCache` and their indexes. Searches are
-- in Lookups, removals in Removal.
pub mod Lookups
pub mod Removal
pub mod Bounded
pub mod Stored
pub mod Updates
pub mod Deleted
pub mod OneGone
pub mod Lifetime
mod Tests
use mathlib.Core.Option
use policyengine_api.Base.{
  ℕ, ◌+◌, ◌-◌, ◌/◌, String, List, [], ◌∷◌, ◌++◌, Option, none, some, Bool, true, false, not, ◌||◌,
  str_eq, if◌then◌else◌,
}
use Prim.Native.Nat.{min}
use policyengine_api.Base.Int.{ℤ, pos, negsuc}
use policyengine_api.Json.{str, num, obj, Fields, end, field, CacheText}
use policyengine_api.Effect.{
  Error, client_error, value_error, Exec, pure, raise, lift, attempt, ◌>>=◌, ◌>>◌,
}
use policyengine_api.Cache.Backend.Commands.{SetOptions}
use policyengine_api.Cache.Client.{World, record_cache_event, client_get}
use policyengine_api.Cache.Client.Pipeline.{Operation, Reply, written, client_execute, client_pttl}
use policyengine_api.Cache.Core.{
  CacheNamespace, family_key, key, encode_envelope, decode_envelope, completed_result_ttl,
}
use policyengine_api.ReformImpacts.{or_none}
use policyengine_api.ReformImpacts.StartClaims.{family, schema_version}
use policyengine_api.ReformImpacts.Records.{
  DateTime, instant, CachedReformImpact, Conversions, impact_to_wire, impact_from_wire,
}

abbrev pub ttl_seconds : ℕ
ttl_seconds = 2_592_000

abbrev pub index_limit : ℕ
index_limit = 1_000

abbrev pub index_family : String
index_family = "reform-impact-index"

-- What the methods take from outside: the digest of the keys, the namespace, Python's conversions,
-- the random choice of a TTL's jitter and the clock of `time.time`, in the unit of an instant.
pub record Setting : Type 0 where
  pub sha256 : CacheText → String
  pub namespace : CacheNamespace
  pub py : Conversions
  pub choose_reduction : ℕ → ℕ → ℤ
  pub clock : ℕ

-- `value or None`: a missing or empty text is false
abbrev pub nonempty : Option String → Option String
nonempty none = none
nonempty (some s) = if str_eq s "" then none else some s

-- value or other
abbrev pub or_else : Option String → Option String → Option String
or_else a b = elim (nonempty a) [ none ↦ b | some s ↦ some s ]

-- record_ttl_seconds or ttl_seconds
abbrev pub seconds_or : Option ℕ → ℕ → ℕ
seconds_or none seconds = seconds
seconds_or (some ℕ.zero) seconds = seconds
seconds_or (some n) seconds = n

module _ (set : Setting) where
  unfoldable pub record_key : Option String → String
  unfolding key
  record_key execution_id =
      key set.sha256 set.namespace family schema_version
        (field "execution_id" (or_none execution_id) end)

  unfoldable pub scope_index : CachedReformImpact → String
  unfolding key
  scope_index impact = key set.sha256 set.namespace index_family schema_version (
      field "api_version" (str impact.api_version) (
        field "baseline_policy_id" (num impact.baseline_policy_id) (
          field "country_id" (str impact.country_id) (
            field "dataset" (str impact.dataset) (
              field "reform_policy_id" (num impact.reform_policy_id) (
                field "region" (str impact.region)
                  (field "time_period" (str impact.time_period) end)))))))

  unfoldable pub recent_index : String
  unfolding family_key
  recent_index = family_key set.namespace index_family schema_version "recent"

  abbrev pub score : CachedReformImpact → ℕ
  score impact = elim impact.start_time [ none ↦ set.clock | some value ↦ instant value ]

  unfoldable pub encoded_impact : CachedReformImpact → CacheText
  unfolding encode_envelope impact_to_wire
  encoded_impact impact = encode_envelope family schema_version (obj (impact_to_wire set.py impact))

  -- self.get_by_execution_id's and `_decode_impact`'s reading of a stored value
  unfoldable pub decode_impact : Option CacheText → Option CachedReformImpact
  unfolding impact_from_wire decode_envelope
  decode_impact value = impact_from_wire set.py (decode_envelope value family schema_version)

  -- one round of the loop over the indexes
  abbrev pub index_operations : ℕ → String → ℕ → String → List Operation
  index_operations ttl member score index =
      Operation.zadd index ((member, score) ∷ [])
      ∷ Operation.zremrangebyrank index 0 (negsuc index_limit)
      ∷ Operation.expire index ttl
      ∷ []

  abbrev pub record_options : Option ℕ → Bool → ℕ → SetOptions
  record_options record_ttl only_if_present ttl = record {
    ex = some (seconds_or record_ttl ttl);
    nx = false;
    xx = only_if_present;
  }

  unfoldable pub operations : String → CachedReformImpact → Option ℕ → Bool → ℕ → List Operation
  unfolding encoded_impact scope_index recent_index
  operations record_key impact record_ttl only_if_present ttl =
      Operation.set record_key (encoded_impact impact)
        (record_options record_ttl only_if_present ttl)
      ∷ (index_operations ttl record_key (score impact) (scope_index impact)
          ++ index_operations ttl record_key (score impact) recent_index)

  -- replies[0] is not None, where the first queued command is the SET
  abbrev pub is_stored : List Reply → Bool
  is_stored (written none ∷ rest) = false
  is_stored _ = true

  abbrev write_failed : Error → Exec World Bool
  write_failed error = record_cache_event family "write-failed" none "WARNING" >> pure false

  unfoldable pub store : String → CachedReformImpact → Option ℕ → Bool → Exec World Bool
  unfolding operations client_execute record_cache_event
  store record_key impact record_ttl only_if_present =
      attempt
        (do
          ttl ← lift (completed_result_ttl ttl_seconds set.choose_reduction)
          client_execute (operations record_key impact record_ttl only_if_present ttl))
        write_failed (λ replies. pure (not only_if_present || is_stored replies))

  abbrev pub store_under : Option String → CachedReformImpact → Option ℕ → Bool → Exec World Bool
  store_under none impact record_ttl only_if_present =
      raise (value_error "a reform-impact cache record identifier is required")
  store_under (some id) impact record_ttl only_if_present =
      store (record_key (some id)) impact record_ttl only_if_present

  -- ReformImpactCache.set
  unfoldable pub set_impact : CachedReformImpact → Option String → Option ℕ → Bool → Exec World Bool
  unfolding store record_key
  set_impact impact record_execution_id record_ttl only_if_present =
      store_under (nonempty (or_else record_execution_id impact.execution_id)) impact record_ttl
        only_if_present

  unfoldable pub get_by_execution_id : String → Exec World (Option CachedReformImpact)
  unfolding client_get record_key decode_impact
  get_by_execution_id execution_id =
      attempt (client_get (record_key (some execution_id))) (λ error. pure none)
        (λ value. pure (decode_impact value))

  -- math.ceil(milliseconds / 1000)
  abbrev pub seconds_up : ℕ → ℕ
  seconds_up milliseconds = (milliseconds + 999) / 1000

  -- from the PTTL of the record and that of its scope index
  unfoldable pub seconds_of : ℤ → ℤ → Option ℕ
  seconds_of (negsuc n) index = none
  seconds_of (pos record_ms) (negsuc ℕ.zero) = some (seconds_up record_ms)
  seconds_of (pos record_ms) (negsuc n) = some 0
  seconds_of (pos record_ms) (pos index_ms) = some (seconds_up (min record_ms index_ms))

  -- `except (RedisError, OSError)`
  abbrev unreadable : Error → Exec World (Option ℕ)
  unreadable client_error = pure none
  unreadable error = raise error

  abbrev pub seconds_under : Option String → CachedReformImpact → Exec World (Option ℕ)
  seconds_under none impact = pure none
  seconds_under (some execution_id) impact =
      attempt
        (do
          record_ms ← client_pttl (record_key (some execution_id))
          index_ms ← client_pttl (scope_index impact)
          pure (seconds_of record_ms index_ms))
        unreadable (λ seconds. pure seconds)

  unfoldable pub seconds_left : CachedReformImpact → Exec World (Option ℕ)
  unfolding client_pttl seconds_of record_key scope_index
  seconds_left impact = seconds_under (nonempty impact.execution_id) impact

  -- the second half of `update`, on the impact that was read; `changes` sets the given fields
  unfoldable pub rewrite :
      String
      → Bool
      → Option ℕ
      → (CachedReformImpact → CachedReformImpact)
      → CachedReformImpact
      → Exec World (Option CachedReformImpact)
  unfolding set_impact
  rewrite execution_id clear_execution_id record_ttl changes impact =
      let changed = changes impact in
      let updated =
        if clear_execution_id then record changed { execution_id = none } else changed in
      do
        stored ← set_impact updated (some execution_id) record_ttl true
        pure (if stored then some updated else none)

  abbrev pub then_rewrite :
      String
      → Bool
      → Option ℕ
      → (CachedReformImpact → CachedReformImpact)
      → Option CachedReformImpact
      → Exec World (Option CachedReformImpact)
  then_rewrite execution_id clear_execution_id record_ttl changes none = pure none
  then_rewrite execution_id clear_execution_id record_ttl changes (some impact) =
      rewrite execution_id clear_execution_id record_ttl changes impact

  unfoldable pub update :
      String
      → Bool
      → Option ℕ
      → (CachedReformImpact → CachedReformImpact)
      → Exec World (Option CachedReformImpact)
  unfolding get_by_execution_id rewrite
  update execution_id clear_execution_id record_ttl changes = do
    found ← get_by_execution_id execution_id
    then_rewrite execution_id clear_execution_id record_ttl changes found
