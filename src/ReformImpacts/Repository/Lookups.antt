-- ===== src/ReformImpacts/Repository/Lookups.antt =====
-- runtime_cache/reform_impacts.py: the searches of `ReformImpactCache` through an index. The flag of
-- `reads_fail_closed` is the argument `fail_closed`.
pub mod Best
use policyengine_api.Base.{
  ℕ, ◌-◌, String, List, [], ◌∷◌, Option, none, some, Bool, true, false, ◌&&◌, ◌||◌, ltb, leb, ◌==◌,
  if◌then◌else◌,
}
use policyengine_api.Base.Int.{pos}
use policyengine_api.Json.{Json, null, str, obj, end, CacheText}
use policyengine_api.Json.Equality.{json_eq}
use policyengine_api.Effect.{
  Error, other_error, coordination_error, Result, ok, raised, Exec, pure, raise, lift, attempt,
  ◌>>=◌, ◌>>◌,
}
use policyengine_api.Cache.Client.{World, record_cache_event, client_get}
use policyengine_api.Cache.Client.Pipeline.{client_zrevrange}
use policyengine_api.ReformImpacts.{ReformImpactIdentity, or_none}
use policyengine_api.ReformImpacts.StartClaims.{family}
use policyengine_api.ReformImpacts.Like.{Codes, codes, like_matches}
use policyengine_api.ReformImpacts.Records.{instant, CachedReformImpact}
use policyengine_api.ReformImpacts.Repository.{
  Setting, index_limit, scope_index, recent_index, decode_impact,
}

abbrev pub Entry : Type 0
Entry = String × Option CacheText

unfoldable pub read_all : List String → Exec World (List Entry)
unfolding client_get
read_all [] = pure []
read_all (key ∷ keys) = do value ← client_get key; rest ← read_all keys; pure ((key, value) ∷ rest)

unfoldable pub read_index : String → ℕ → Exec World (List Entry)
unfolding client_zrevrange read_all
read_index index limit = do keys ← client_zrevrange index 0 (pos (limit - 1)); read_all keys

abbrev pub unreadable : {A : Type 0} → Bool → Error → Exec World (List A)
unreadable false error = pure []
unreadable true error =
    record_cache_event family "coordination-failed" (some "index-read") "WARNING"
    >> raise (coordination_error "reform-impact lookups cannot read the cache")

abbrev listed : {A : Type 0} → Option A → List A → List A
listed none rest = rest
listed (some a) rest = a ∷ rest

-- re.match raises TypeError on what is not a text
abbrev pub like_json : Json → Codes → Result Bool
like_json null pattern = ok false
like_json (str value) pattern = ok (like_matches (codes value) pattern)
like_json j pattern = raised (other_error "TypeError")

-- the test of one impact
abbrev pub is_selected : Option String → Option Codes → CachedReformImpact → Result Bool
is_selected options_hash pattern impact =
    if json_eq impact.options_hash (or_none options_hash)
    then ok true
    else elim pattern [ none ↦ ok false | some p ↦ like_json impact.options_hash p ]

abbrev pub then_list :
    Result Bool
    → CachedReformImpact
    → Result (List CachedReformImpact)
    → Result (List CachedReformImpact)
then_list (raised e) impact rest = raised e
then_list (ok b) impact (raised e) = raised e
then_list (ok true) impact (ok rest) = ok (impact ∷ rest)
then_list (ok false) impact (ok rest) = ok rest

unfoldable pub select :
    Option String → Option Codes → List CachedReformImpact → Result (List CachedReformImpact)
unfolding json_eq like_matches
select options_hash pattern [] = ok []
select options_hash pattern (impact ∷ rest) =
    then_list (is_selected options_hash pattern impact) impact (select options_hash pattern rest)

-- impact.start_time or datetime.min
abbrev pub start_or_min : CachedReformImpact → ℕ
start_or_min impact = elim impact.start_time [ none ↦ 0 | some value ↦ instant value ]

module _ (options_hash : Option String) where
  abbrev pub is_exact : CachedReformImpact → Bool
  is_exact impact = json_eq impact.options_hash (or_none options_hash)

  -- the key of `a` is at least that of `b`: exact hash, start time, identifier
  unfoldable pub key_ge : CachedReformImpact → CachedReformImpact → Bool
  unfolding json_eq
  key_ge a b =
      let rest =
        ltb (start_or_min b) (start_or_min a)
        || (start_or_min a == start_or_min b && leb b.reform_impact_id a.reform_impact_id) in
      if is_exact a
      then (if is_exact b then rest else true)
      else (if is_exact b then false else rest)

  unfoldable pub insert_impact :
      CachedReformImpact → List CachedReformImpact → List CachedReformImpact
  unfolding key_ge
  insert_impact x [] = x ∷ []
  insert_impact x (y ∷ rest) =
      let later = insert_impact x rest in if key_ge x y then x ∷ y ∷ rest else y ∷ later

  -- sorted(..., reverse=True), which keeps the order of equal keys
  unfoldable pub sort_impacts : List CachedReformImpact → List CachedReformImpact
  unfolding insert_impact
  sort_impacts [] = []
  sort_impacts (x ∷ rest) = insert_impact x (sort_impacts rest)

module _ (set : Setting) where
  unfoldable pub decoded : List Entry → List CachedReformImpact
  unfolding decode_impact
  decoded [] = []
  decoded ((key, value) ∷ rest) = listed (decode_impact set value) (decoded rest)

  module _ (fail_closed : Bool) where
    unfoldable pub from_index : String → ℕ → Exec World (List CachedReformImpact)
    unfolding read_index decoded record_cache_event
    from_index index limit =
        attempt (read_index index limit) (unreadable fail_closed)
          (λ entries. pure (decoded entries))

    unfoldable pub recent : ℕ → Exec World (List CachedReformImpact)
    unfolding from_index recent_index
    recent limit = from_index (recent_index set) limit

    -- the record whose scope index is asked for
    abbrev pub probe : ReformImpactIdentity → CachedReformImpact
    probe identity = record {
      reform_impact_id = 0;
      baseline_policy_id = identity.scope.baseline_policy_id;
      reform_policy_id = identity.scope.reform_policy_id;
      country_id = identity.scope.country_id;
      region = identity.scope.region;
      dataset = identity.scope.dataset;
      time_period = identity.scope.time_period;
      options_json = null;
      options_hash = or_none identity.options_hash;
      api_version = identity.api_version;
      reform_impact_json = obj end;
      status = "";
      message = null;
      start_time = none;
      end_time = none;
      execution_id = some "";
      error_code = null;
      observability_id = null;
    }

    unfoldable pub matching :
        ReformImpactIdentity → Option Codes → Exec World (List CachedReformImpact)
    unfolding from_index scope_index select sort_impacts
    matching identity pattern = do
      impacts ← from_index (scope_index set (probe identity)) index_limit
      selected ← lift (select identity.options_hash pattern impacts)
      pure (sort_impacts identity.options_hash selected)
