-- ===== src/ReformImpacts/Repository/Bounded.antt =====
-- runtime_cache/reform_impacts.py: the size of the indexes.
use policyengine_api.Base.{
  ℕ, String, List, [], ◌∷◌, Option, none, some, Bool, true, false, Bool-cases, inl, inr,
}
use policyengine_api.Base.Int.{negsuc}
use policyengine_api.Json.{CacheText}
use policyengine_api.Effect.{Error}
use policyengine_api.Effect.Keeps.{Keeps, keeps_rules, Keeps-pure, Keeps-bind}
use policyengine_api.Cache.Backend.Commands
use policyengine_api.Cache.Backend.Commands.{
  Backend, Script, expire, delete, zrem, zremrangebyrank, zadd,
}
use policyengine_api.Cache.Backend.Indexes.{
  IsBounded, trim-IsBounded, set-IsBounded, expire-IsBounded, delete-IsBounded, zrem-IsBounded,
}
use policyengine_api.Cache.Client.{World, record_cache_event}
use policyengine_api.Cache.Client.Pipeline.{Operation, execute}
use policyengine_api.Cache.Client.Invariants.{
  OfBackend, Keeps-event, Keeps-get, Keeps-zrevrange, Keeps-eval, Keeps-execute,
}
use policyengine_api.ReformImpacts.{ReformImpactIdentity, ReformImpactScope}
use policyengine_api.ReformImpacts.Like.{Codes}
use policyengine_api.ReformImpacts.Records.{CachedReformImpact}
use policyengine_api.ReformImpacts.Repository.{
  Setting, index_limit, operations, store, set_impact, get_by_execution_id, rewrite, then_rewrite,
  update, score, scope_index, recent_index, encoded_impact, record_options, store_under, nonempty,
  or_else, record_key,
}
use policyengine_api.ReformImpacts.Repository.Lookups.{
  read_all, read_index, from_index, recent, matching, unreadable,
}
use policyengine_api.ReformImpacts.Repository.Removal.{
  delete_failure, removals, delete_matching_computing, remove_unchanged, is_stale, remove,
}

-- every sorted set of the cache has at most 1,000 members, each of them once
abbrev pub IndexesBounded : World → Type 0
IndexesBounded = OfBackend (IsBounded index_limit)

-- one round of the loop over the indexes
abbrev pub indexed : ℕ → String → ℕ → String → Backend → Backend
indexed ttl member score index b =
    let added = (zadd index ((member, score) ∷ []) b).1 in
    (expire index ttl (zremrangebyrank index 0 (negsuc index_limit) added).1).1

indexed-IsBounded :
    (ttl : ℕ) (member : String) (score : ℕ) (index : String) (b : Backend)
    → IsBounded index_limit b
    → IsBounded index_limit (indexed ttl member score index b)
indexed-IsBounded ttl member score index b bounded =
    let added = (zadd index ((member, score) ∷ []) b).1 in
    expire-IsBounded index_limit index ttl (zremrangebyrank index 0 (negsuc index_limit) added).1
      (trim-IsBounded 999 index ((member, score) ∷ []) b bounded)

module _ (set : Setting) where
  operations-IsBounded :
      (key : String) (impact : CachedReformImpact) (record_ttl : Option ℕ) (xx : Bool) (ttl : ℕ)
      (b : Backend)
      → IsBounded index_limit b
      → IsBounded index_limit (execute (operations set key impact record_ttl xx ttl) b).1
  unfolding operations execute
  operations-IsBounded key impact record_ttl xx ttl b bounded =
      let options = record_options set record_ttl xx ttl in
      let b1 = (Commands.set key (encoded_impact set impact) options b).1 in
      let b2 = indexed ttl key (score set impact) (scope_index set impact) b1 in
      indexed-IsBounded ttl key (score set impact) (recent_index set) b2 (
        indexed-IsBounded ttl key (score set impact) (scope_index set impact) b1
          (set-IsBounded index_limit key (encoded_impact set impact) options b bounded))

  event :
      (family event : String) (operation : Option String) (severity : String)
      → Keeps IndexesBounded (record_cache_event family event operation severity)
  event = Keeps-event (IsBounded index_limit)

  store-Keeps :
      (key : String) (impact : CachedReformImpact) (record_ttl : Option ℕ) (xx : Bool)
      → Keeps IndexesBounded (store set key impact record_ttl xx)
  unfolding store
  store-Keeps key impact record_ttl xx =
      let commands = λ (ttl : ℕ).
        Keeps-execute index_limit (operations set key impact record_ttl xx ttl)
          (operations-IsBounded key impact record_ttl xx ttl) in
      search (keeps_rules, commands, event)

  store_under-Keeps :
      (id : Option String) (impact : CachedReformImpact) (record_ttl : Option ℕ) (xx : Bool)
      → Keeps IndexesBounded (store_under set id impact record_ttl xx)
  store_under-Keeps none impact record_ttl xx = search keeps_rules
  store_under-Keeps (some id) impact record_ttl xx = store-Keeps _ impact record_ttl xx

  set_impact-Keeps :
      (impact : CachedReformImpact) (id : Option String) (record_ttl : Option ℕ) (xx : Bool)
      → Keeps IndexesBounded (set_impact set impact id record_ttl xx)
  unfolding set_impact
  set_impact-Keeps impact id record_ttl xx =
      store_under-Keeps (nonempty (or_else id impact.execution_id)) impact record_ttl xx

  get_by_execution_id-Keeps : (id : String) → Keeps IndexesBounded (get_by_execution_id set id)
  unfolding get_by_execution_id
  get_by_execution_id-Keeps id = search (keeps_rules, Keeps-get)

  rewrite-Keeps :
      (id : String) (clear : Bool) (record_ttl : Option ℕ)
      (changes : CachedReformImpact → CachedReformImpact) (impact : CachedReformImpact)
      → Keeps IndexesBounded (rewrite set id clear record_ttl changes impact)
  unfolding rewrite
  rewrite-Keeps id clear record_ttl changes impact = search (keeps_rules, set_impact-Keeps)

  then_rewrite-Keeps :
      (id : String) (clear : Bool) (record_ttl : Option ℕ)
      (changes : CachedReformImpact → CachedReformImpact) (found : Option CachedReformImpact)
      → Keeps IndexesBounded (then_rewrite set id clear record_ttl changes found)
  then_rewrite-Keeps id clear record_ttl changes none = search keeps_rules
  then_rewrite-Keeps id clear record_ttl changes (some impact) =
      rewrite-Keeps id clear record_ttl changes impact

  update-Keeps :
      (id : String) (clear : Bool) (record_ttl : Option ℕ)
      (changes : CachedReformImpact → CachedReformImpact)
      → Keeps IndexesBounded (update set id clear record_ttl changes)
  unfolding update
  update-Keeps id clear record_ttl changes =
      search (keeps_rules, get_by_execution_id-Keeps, then_rewrite-Keeps)

  read_all-Keeps : (keys : List String) → Keeps IndexesBounded (read_all keys)
  unfolding read_all
  read_all-Keeps [] = search keeps_rules
  read_all-Keeps (key ∷ keys) =
      Keeps-bind _ _ (Keeps-get index_limit key)
        (λ value. Keeps-bind _ _ (read_all-Keeps keys) (λ rest. Keeps-pure _))

  read_index-Keeps : (index : String) (limit : ℕ) → Keeps IndexesBounded (read_index index limit)
  unfolding read_index
  read_index-Keeps index limit = search (keeps_rules, Keeps-zrevrange, read_all-Keeps)

  remove_unchanged-Keeps :
      (index : String) (found : Option (String × CacheText))
      → Keeps IndexesBounded (remove_unchanged set index found)
  remove_unchanged-Keeps index none = search keeps_rules
  remove_unchanged-Keeps index (some (key, value)) = search (keeps_rules, Keeps-eval)

  delete_failure-Keeps :
      (failure : CachedReformImpact) → Keeps IndexesBounded (delete_failure set failure)
  unfolding delete_failure
  delete_failure-Keeps failure =
      search (keeps_rules, event, read_index-Keeps, remove_unchanged-Keeps) depth 9

  unreadable-Keeps :
      (fail_closed : Bool) (e : Error)
      → Keeps IndexesBounded (unreadable {A = CachedReformImpact} fail_closed e)
  unreadable-Keeps false e = search keeps_rules
  unreadable-Keeps true e = search (keeps_rules, event)

  from_index-Keeps :
      (fail_closed : Bool) (index : String) (limit : ℕ)
      → Keeps IndexesBounded (from_index set fail_closed index limit)
  unfolding from_index
  from_index-Keeps fail_closed index limit =
      search (keeps_rules, read_index-Keeps, unreadable-Keeps)

  removals-IsBounded :
      (scope : ReformImpactScope) (options_hash : String) (impacts : List CachedReformImpact)
      (b : Backend)
      → IsBounded index_limit b
      → IsBounded index_limit (execute (removals set scope options_hash impacts) b).1
  unfolding removals execute
  removals-IsBounded scope options_hash [] b bounded = bounded
  removals-IsBounded scope options_hash (impact ∷ rest) b bounded =
      let key = record_key set impact.execution_id in
      let b1 = (delete (key ∷ []) b).1 in
      let b2 = (zrem (scope_index set impact) (key ∷ []) b1).1 in
      let b3 = (zrem (recent_index set) (key ∷ []) b2).1 in
      let removed : IsBounded index_limit b3 =
        zrem-IsBounded index_limit (recent_index set) (key ∷ []) b2 (
          zrem-IsBounded index_limit (scope_index set impact) (key ∷ []) b1
            (delete-IsBounded index_limit (key ∷ []) b bounded)) in
      elim (Bool-cases (is_stale set scope options_hash impact)) [
        | inl stale ↦ rw stale (removals-IsBounded scope options_hash rest b3 removed)
        | inr other ↦ rw other (removals-IsBounded scope options_hash rest b bounded)
      ]

  remove-Keeps :
      (operations : List Operation)
      → ((b : Backend) → IsBounded index_limit b → IsBounded index_limit (execute operations b).1)
      → Keeps IndexesBounded (remove set operations)
  remove-Keeps [] keep = search keeps_rules
  remove-Keeps (operation ∷ rest) keep =
      let sent = Keeps-execute index_limit (operation ∷ rest) keep in search (keeps_rules, sent)

  -- No sorted set of the cache grows past 1,000 members, and none holds a member twice, whatever the
  -- network does: `set`, `get_by_execution_id`, `update`, `matching`, `recent`, `delete_failure` and
  -- `delete_matching_computing` keep this, whether they return or raise.
  pub indexes_stay_bounded :
      (impact failure : CachedReformImpact) (id : String) (other : Option String)
      (record_ttl : Option ℕ) (flag fail_closed : Bool)
      (changes : CachedReformImpact → CachedReformImpact) (identity : ReformImpactIdentity)
      (pattern : Option Codes) (options_hash : String) (limit : ℕ) (w : World)
      → IndexesBounded w
      → IndexesBounded (set_impact set impact other record_ttl flag w).1
        × IndexesBounded (get_by_execution_id set id w).1
        × IndexesBounded (update set id flag record_ttl changes w).1
        × IndexesBounded (matching set fail_closed identity pattern w).1
        × IndexesBounded (recent set fail_closed limit w).1
        × IndexesBounded (delete_failure set failure w).1
        × IndexesBounded (delete_matching_computing set fail_closed identity.scope options_hash w).1
  unfolding matching recent delete_matching_computing
  indexes_stay_bounded impact failure id other record_ttl flag fail_closed changes identity pattern
        options_hash limit w bounded =
      let searched = from_index-Keeps fail_closed in
      let matched : Keeps IndexesBounded (matching set fail_closed identity pattern) =
        search (keeps_rules, searched) in
      let removed : Keeps IndexesBounded
          (delete_matching_computing set fail_closed identity.scope options_hash) =
        Keeps-bind _ _ (searched (recent_index set) index_limit) (λ impacts.
          remove-Keeps (removals set identity.scope options_hash impacts)
            (removals-IsBounded identity.scope options_hash impacts)) in
      (
        (set_impact-Keeps impact other record_ttl flag).at w bounded,
        (get_by_execution_id-Keeps id).at w bounded,
        (update-Keeps id flag record_ttl changes).at w bounded,
        matched.at w bounded,
        (searched (recent_index set) limit).at w bounded,
        (delete_failure-Keeps failure).at w bounded,
        removed.at w bounded,
      )
