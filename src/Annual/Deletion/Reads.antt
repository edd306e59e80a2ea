-- ===== src/Annual/Deletion/Reads.antt =====
-- services/economy_service.py: the lookups of a DELETE, which remove nothing.
use policyengine_api.Base.{String, Option, none, some, Bool, true, false, inl}
use policyengine_api.Json.{Fields}
use policyengine_api.Effect.{Result, ok, raised, Exec, modify}
use policyengine_api.Effect.Keeps.{Keeps, keeps_rules}
use policyengine_api.Cache.Backend.Commands.{Backend}
use policyengine_api.Cache.Client.{World}
use policyengine_api.ReformImpacts.Records.{CachedReformImpact}
use policyengine_api.ReformImpacts.Repository.Deleted.{Removed, Safe, matching-Safe}
use policyengine_api.ReformImpacts.Repository.OneGone.{Intact, Nothing, Removed-kept}
use policyengine_api.Annual.Setup.{SetupOptions}
use policyengine_api.Annual.Request.{Environment, Session, on_cache}
use policyengine_api.Annual.Stored.{
  get_most_recent_impact, previous, should_refresh_cached_impact, refreshed, exact_only, reselect,
  reuse, get_reusable_impact,
}

module _ (env : Environment) where
  module _ (b : Backend) (j : String) where
    -- The method removes no text of the key.
    abbrev Careful : {A : Type 0} → Exec Session A → Type 0
    Careful m = Keeps (λ s. Removed Nothing b j s.cache.backend) m

    on_cache-Careful : {A : Type 0} (m : Exec World A) → Safe Nothing b j m → Careful (on_cache m)
    on_cache-Careful m safe = record { at = λ s. safe.at s.cache }

    previous-Careful :
        (setup : SetupOptions) (options_hash : Option String)
        → Careful (previous env true setup options_hash)
    previous-Careful setup none = search keeps_rules
    previous-Careful setup (some options_hash) =
        on_cache-Careful _ (matching-Safe Nothing b j env.setting true _ _)

    get_most_recent_impact-Careful : Careful (get_most_recent_impact env true)
    unfolding get_most_recent_impact
    get_most_recent_impact-Careful = search (keeps_rules, previous-Careful)

    resolve-Careful :
        (change : SetupOptions → SetupOptions)
        → Careful (modify (λ s. record s { setup = change s.setup }))
    resolve-Careful change = record { at = λ s h. h }

    refreshed-Careful :
        (cached : Fields) (r : Result (String × Option String)) → Careful (refreshed env cached r)
    refreshed-Careful cached (raised e) = search keeps_rules
    refreshed-Careful cached (ok (app_name, version)) = search keeps_rules

    should_refresh-Careful :
        (impact : CachedReformImpact) → Careful (should_refresh_cached_impact env impact)
    unfolding should_refresh_cached_impact
    should_refresh-Careful impact = search (keeps_rules, refreshed-Careful)

    exact_only-Careful : (impact : Option CachedReformImpact) → Careful (exact_only env true impact)
    exact_only-Careful none = search keeps_rules
    exact_only-Careful (some impact) = search keeps_rules

    reselect-Careful :
        (impact : CachedReformImpact) (refresh : Bool) → Careful (reselect env true impact refresh)
    reselect-Careful impact false = search keeps_rules
    reselect-Careful impact true =
        search (keeps_rules, get_most_recent_impact-Careful, exact_only-Careful)

    reuse-Careful : (impact : Option CachedReformImpact) → Careful (reuse env true impact)
    reuse-Careful none = search keeps_rules
    reuse-Careful (some impact) = search (keeps_rules, should_refresh-Careful, reselect-Careful)

    get_reusable_impact-Careful : Careful (get_reusable_impact env true)
    unfolding get_reusable_impact
    get_reusable_impact-Careful =
        search (keeps_rules, get_most_recent_impact-Careful, reuse-Careful)

  module _ (b : Backend) where
    -- Every value of the cache is as it was.
    abbrev pub Untouched : Session → Type 0
    Untouched s = Intact b s.cache.backend

    pub get_reusable_impact-Untouched : Keeps Untouched (get_reusable_impact env true)
    get_reusable_impact-Untouched = record {
      at = λ s same j.
          Removed-kept b (get_reusable_impact env true s).1.cache.backend j
            ((get_reusable_impact-Careful b j).at s (inl (same j)));
    }
