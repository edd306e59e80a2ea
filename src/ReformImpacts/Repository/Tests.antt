-- ===== src/ReformImpacts/Repository/Tests.antt =====
-- The theorems on the records of reform impacts at concrete inputs, and a run of the code.
use policyengine_api.Base.{
  ◌≡◌, ◌⊎◌, refl, String, [], ◌∷◌, List, Option, none, some, true, false, arith, ◌*◌, filter,
}
use mathlib.Core.Option
use mathlib.Core.List.{Perm}
use policyengine_api.Json.Canonical.{canonical}
use policyengine_api.Effect.{ok, raised, value_error}
use policyengine_api.Cache.Backend.Commands.{advance, second}
use policyengine_api.Cache.Backend.Expiry.{view}
use policyengine_api.Cache.Client.{World, Outcome, IsCalm}
use policyengine_api.Cache.Core.{jittered_ttl}
use policyengine_api.ReformImpacts.Sample.{
  world, world-IsCalm, parsed, setting, impact, ended, identity,
}
use policyengine_api.ReformImpacts.Records.{CachedReformImpact}
use policyengine_api.ReformImpacts.Records.RoundTrip.{stored_form}
use policyengine_api.ReformImpacts.Repository.{
  record_key, decode_impact, set_impact, get_by_execution_id, update, rewrite, store, seconds_left,
}
use policyengine_api.ReformImpacts.Repository.Lookups.{matching, recent, from_index}
use policyengine_api.ReformImpacts.Repository.Removal.{delete_failure, delete_matching_computing}
use policyengine_api.ReformImpacts.Repository.Bounded.{IndexesBounded, indexes_stay_bounded}
use policyengine_api.ReformImpacts.Repository.Deleted.{
  Removed, IsFailureText, delete_failure_removes_only_it,
}
use policyengine_api.ReformImpacts.Repository.Lifetime.{
  Foretold, is_findable, seconds_left_foretells,
}
use policyengine_api.ReformImpacts.Repository.Lookups.Best.{IsBestFirst, fits, matching_lem}
use policyengine_api.ReformImpacts.Repository.Stored.{store_lem}
use policyengine_api.ReformImpacts.Repository.Updates.{
  changed, rewrite-gone, get-set_impact, get-update,
}

get-set_impact_example :
    let done = set_impact setting impact none none false world in
    (done.0 ≡ ok true)
    × ((get_by_execution_id setting "job-1" done.1).0 ≡ ok (some (stored_form impact)))
get-set_impact_example =
    get-set_impact setting parsed 2_592_000 impact none none "job-1" world
      (unfold jittered_ttl in refl) world-IsCalm refl

abbrev job_key : String
job_key = record_key setting (some "job-1")

abbrev stored : World
stored = (store setting job_key impact none false world).1

stored-IsCalm : IsCalm stored
stored-IsCalm =
    (store_lem setting 2_592_000 (unfold jittered_ttl in refl) job_key impact none false world
      world-IsCalm).2

abbrev stored_impact : Option CachedReformImpact
stored_impact = decode_impact setting (view stored.backend job_key)

-- the job fails
get-update_example :
    let done = update setting "job-1" false (some 60) ended stored in
    (done.0 ≡ ok (Option.map (changed false ended) stored_impact))
    × ((get_by_execution_id setting "job-1" done.1).0
        ≡ ok (Option.map (λ before. stored_form (changed false ended before)) stored_impact))
get-update_example =
    get-update setting parsed 2_592_000 "job-1" false (some 60) ended stored
      (unfold jittered_ttl in refl) stored-IsCalm refl

rewrite-gone_example :
    let done = rewrite setting "job-2" false none ended impact world in
    (done.0 ≡ ok none) × ((j : String) → view done.1.backend j ≡ view world.backend j)
rewrite-gone_example =
    rewrite-gone setting 2_592_000 "job-2" false none ended impact world
      (unfold jittered_ttl in refl) world-IsCalm refl (unfold view in refl)

-- the network loses the reply of the first command
abbrev lossy : World → World
lossy w = record w { outcomes = Outcome.reply_lost ∷ [] }

indexes_stay_bounded_example :
    IndexesBounded (set_impact setting impact none (some 60) false (lossy world)).1
    × IndexesBounded (get_by_execution_id setting "job-1" (lossy world)).1
    × IndexesBounded (update setting "job-1" false (some 60) ended (lossy world)).1
    × IndexesBounded (matching setting true identity none (lossy world)).1
    × IndexesBounded (recent setting true 10 (lossy world)).1
    × IndexesBounded (delete_failure setting (ended impact) (lossy world)).1
    × IndexesBounded (delete_matching_computing setting true identity.scope "h" (lossy world)).1
indexes_stay_bounded_example =
    indexes_stay_bounded setting impact (ended impact) "job-1" none (some 60) false true ended
      identity none "h" 10 (lossy world) (λ k. (omega arith, tt))

abbrev stored_failure : World
stored_failure = (store setting job_key (ended impact) none false world).1

delete_failure_removes_only_it_example :
    Removed
      (IsFailureText setting (ended impact))
      stored_failure.backend
      job_key
      (delete_failure setting (ended impact) (lossy stored_failure)).1.backend
    × (((ended impact).status ≡ "error")
        ⊎ ((delete_failure setting (ended impact) (lossy stored_failure)).0
            ≡ raised (value_error "only a failed reform impact can be deleted")))
delete_failure_removes_only_it_example =
    delete_failure_removes_only_it setting (ended impact) (lossy stored_failure) job_key

seconds_left_foretells_example :
    Foretold 2_592_000
      (60 * second)
      (is_findable setting impact "job-1" (advance (60 * second) stored.backend).1)
unfolding seconds_left store jittered_ttl
seconds_left_foretells_example =
    seconds_left_foretells setting impact "job-1" 2_592_000 (60 * second) stored stored-IsCalm refl
      refl

matching_lem_example :
    (best : List CachedReformImpact) × ((matching setting true identity none stored).0 ≡ ok best)
    × IsBestFirst identity.options_hash best
    × Perm best (filter (fits identity.options_hash none) (stored_form impact ∷ []))
unfolding from_index store jittered_ttl record_key
matching_lem_example =
    matching_lem setting true identity none (stored_form impact ∷ []) stored refl
      ((some "[dataset=default]", (unfold canonical in refl)), tt)
