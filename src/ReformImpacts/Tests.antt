-- ===== src/ReformImpacts/Tests.antt =====
-- The theorems on reform impacts at concrete inputs.
use policyengine_api.Base.{
  ◌≡◌, ◌≢◌, refl, String, [], ◌∷◌, Option, none, some, true, false, eq_iff, str_eq, if◌then◌else◌,
  arith, ◌↔◌,
}
use policyengine_api.Effect.{ok, raised, coordination_error}
use policyengine_api.Cache.Backend.Commands.{empty}
use policyengine_api.Cache.Backend.Expiry.{view}
use policyengine_api.Cache.Client.{World, Outcome, client_get, pass}
use policyengine_api.Json.{null}
use policyengine_api.ReformImpacts.Like.{codes, like_matches, lookup_pattern}
use policyengine_api.ReformImpacts.Like.Exact.{Describes, like_matches_iff}
use policyengine_api.ReformImpacts.Like.Lookup.{stem, Extends, IsLine, like_matches-lookup_pattern}
use policyengine_api.ReformImpacts.Records.{naive, CachedReformImpact}
use policyengine_api.ReformImpacts.Service.{get_reform_impact_seconds_until}
use policyengine_api.ReformImpacts.Service.Waits.{IsExactWait, seconds_until_bounds}
use policyengine_api.ReformImpacts.StartClaims.{claim_start, release_start, get_start_claim}
use policyengine_api.ReformImpacts.StartClaims.Expires.{start_claim_expires}
use policyengine_api.ReformImpacts.StartClaims.Lifecycle.{
  claim, owner, get_start_claim_lem, start_claim_lifecycle,
}

abbrev world : World
world = record { backend = empty; disabled = false; outcomes = []; events = [] }

-- two identifiers that are canonical, and one that is written with capitals
abbrev normalize : String → Option String
normalize given =
    if str_eq given "6f1c"
    then some "6f1c"
    else if str_eq given "a2b4"
    then some "a2b4"
    else if str_eq given "A2B4"
    then some "a2b4"
    else none

distinct : ◌≢◌ {A = String} "worker-2" "worker-1"
distinct e = unfold str_eq in grind (arith, (eq_iff "worker-2" "worker-1").1 e)

start_claim_lifecycle_example :
    let claimed = (claim_start normalize "claim" "worker-1" "6f1c" world).1 in
    ((claim_start normalize "claim" "worker-1" "6f1c" world).0 ≡ ok true)
    × ((get_start_claim normalize "claim" claimed).0 ≡ ok (some (claim "worker-1" "6f1c")))
    × ((claim_start normalize "claim" "worker-2" "A2B4" claimed).0 ≡ ok false)
    × ((release_start normalize "claim" "worker-2" "A2B4" claimed).0 ≡ ok false)
    × ((release_start normalize "claim" "worker-1" "6f1c" claimed).0 ≡ ok true)
    × (view (release_start normalize "claim" "worker-1" "6f1c" claimed).1.backend "claim" ≡ none)
start_claim_lifecycle_example =
    start_claim_lifecycle normalize "worker-1" "6f1c" "6f1c" "worker-2" "A2B4" "a2b4" "claim" world
      (record { enabled = refl; faultless = refl; internal = refl }) (unfold view in refl) refl refl
      refl refl refl refl distinct

-- the second worker five minutes later
start_claim_expires_example :
    let claimed = (claim_start normalize "claim" "worker-1" "6f1c" world).1 in
    (claim_start normalize "claim" "worker-2" "A2B4" (pass 300_000_000 claimed)).0 ≡ ok true
start_claim_expires_example =
    start_claim_expires normalize "worker-1" "6f1c" "6f1c" "worker-2" "A2B4" "a2b4" "claim"
      300_000_000 world (record { enabled = refl; faultless = refl; internal = refl })
      (unfold view in refl) refl refl refl refl refl refl

abbrev lost : World
lost = record world { outcomes = Outcome.reply_lost ∷ [] }

get_start_claim_lem_example :
    (get_start_claim normalize "claim" lost).0 ≡ elim (client_get "claim" lost).0 [
      | ok value ↦ owner normalize value
      | raised e ↦ raised (coordination_error "reform-impact submission ownership is unavailable")
    ]
get_start_claim_lem_example = get_start_claim_lem normalize "claim" lost

-- a hash with a wildcard character, which stands for itself
like_matches-lookup_pattern_example :
    (like_matches (codes "[a_b&c]") (lookup_pattern (codes "[a_b]")) ≡ true)
    ↔ Extends IsLine (stem (codes "[a_b]")) (codes "[a_b&c]")
like_matches-lookup_pattern_example = like_matches-lookup_pattern (codes "[a_b]") (codes "[a_b&c]")

-- the two runs of the pattern: an extension, and a hash that differs where the underscore stands
lookup_pattern-runs :
    (like_matches (codes "[a_b&c]") (lookup_pattern (codes "[a_b]")) ≡ true)
    × (like_matches (codes "[axb&c]") (lookup_pattern (codes "[a_b]")) ≡ false)
unfolding like_matches lookup_pattern
lookup_pattern-runs = (refl, refl)

like_matches_iff_example :
    (like_matches (codes "general") (codes "gen%_l") ≡ true)
    ↔ Describes (codes "gen%_l") (codes "general")
like_matches_iff_example = like_matches_iff (codes "general") (codes "gen%_l")

abbrev failed : CachedReformImpact
failed = record {
  reform_impact_id = 7;
  baseline_policy_id = 1;
  reform_policy_id = 2;
  country_id = "us";
  region = "us";
  dataset = "default";
  time_period = "2026";
  options_json = null;
  options_hash = null;
  api_version = "1";
  reform_impact_json = null;
  status = "error";
  message = null;
  start_time = none;
  end_time = some (naive 1_500_000);
  execution_id = some "job-1";
  error_code = null;
  observability_id = null;
}

-- half a second after the end, the wait of ten seconds has ten left, since whole seconds are told
seconds_until_bounds_example :
    IsExactWait 1_500_000 2_000_000 10 (get_reform_impact_seconds_until 2_000_000 failed 10)
seconds_until_bounds_example =
    seconds_until_bounds 2_000_000 10 (naive 1_500_000) failed refl (omega arith)
