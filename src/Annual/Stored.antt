-- ===== src/Annual/Stored.antt =====
-- services/economy_stored_impacts.py: `StoredImpactMixin`, what it reads and writes of the stored
-- impacts.
use policyengine_api.Base.{
  ℕ, String, List, [], ◌∷◌, Option, none, some, Bool, true, false, not, ◌||◌, str_eq, if◌then◌else◌,
}
use policyengine_api.Json.{Json, str, obj, Fields, end, get}
use policyengine_api.Json.Equality.{json_eq}
use policyengine_api.Effect.{
  value_error, other_error, Result, ok, raised, Exec, pure, raise, gets, modify, lift, ◌>>=◌, ◌>>◌,
}
use policyengine_api.ReformImpacts.{or_none}
use policyengine_api.ReformImpacts.Like.{codes, lookup_pattern}
use policyengine_api.ReformImpacts.Records.{naive, CachedReformImpact}
use policyengine_api.ReformImpacts.Repository.{seconds_left}
use policyengine_api.ReformImpacts.Repository.Lookups.{matching}
use policyengine_api.ReformImpacts.Service.{
  set_reform_impact, set_error_reform_impact, set_complete_reform_impact,
  get_reform_impact_seconds_until,
}
use policyengine_api.Annual.Setup.{
  SetupOptions, runtime_bundle, reform_impact_identity, build_options_hash,
}
use policyengine_api.Annual.Request.{
  Environment, Session, on_cache, ImpactAction, EconomicImpactResult, error_result,
}

-- FAILED_IMPACT_DELETE_LOCKOUT_SECONDS
abbrev pub delete_lockout_seconds : ℕ
delete_lockout_seconds = 10

-- impact.options_hash == setup_options.options_hash
abbrev pub has_hash : Option String → CachedReformImpact → Bool
has_hash options_hash impact = json_eq impact.options_hash (or_none options_hash)

abbrev first_exact : Option String → List CachedReformImpact → Option CachedReformImpact
first_exact options_hash [] = none
first_exact options_hash (impact ∷ rest) =
    let later = first_exact options_hash rest in
    if has_hash options_hash impact then some impact else later

-- the first impact with exactly this hash, or the first of all
unfoldable pub pick : Option String → List CachedReformImpact → Option CachedReformImpact
unfolding json_eq
pick options_hash [] = none
pick options_hash (first ∷ rest) = elim (first_exact options_hash (first ∷ rest)) [
  | none ↦ some first
  | some impact ↦ some impact
]

-- _determine_impact_action
unfoldable pub determine_impact_action : Option CachedReformImpact → Result ImpactAction
determine_impact_action none = ok ImpactAction.create
determine_impact_action (some impact) =
    if str_eq impact.status "ok"
    then ok ImpactAction.completed
    else if str_eq impact.status "error"
    then ok ImpactAction.failed
    else if str_eq impact.status "computing"
    then ok ImpactAction.computing
    else raised (value_error "Unknown impact status")

module _ (env : Environment) where
  abbrev object_or_raise : Json → Result Fields
  object_or_raise (obj f) = ok f
  object_or_raise j = raised (other_error "TypeError: Expected a JSON object")

  -- _parse_json_object of services/economy_simulation_requests.py
  unfoldable pub parse_json_object : Json → Result Fields
  parse_json_object (str text) = elim (env.loads text) [
    | none ↦ raised (value_error "JSONDecodeError")
    | some j ↦ object_or_raise j
  ]
  parse_json_object j = object_or_raise j

  abbrev fields_or_empty : Result Fields → Fields
  fields_or_empty (ok f) = f
  fields_or_empty (raised e) = end

  -- _extract_cached_result, whose handler sees each error that the parser raises
  abbrev pub extract_cached_result : CachedReformImpact → Fields
  extract_cached_result impact = fields_or_empty (parse_json_object impact.reform_impact_json)

  -- with the worker's application and version that were resolved, and the hash that they give
  unfoldable pub resolved_setup : String → Option String → SetupOptions → SetupOptions
  unfolding build_options_hash
  resolved_setup app_name model_version setup =
      let named = record setup {
        runtime_app_name = some app_name;
        model_version = model_version;
      } in
      record named {
        options_hash =
            some (build_options_hash env.other_text named.options (runtime_bundle named));
      }

  -- whether the stored result names another application than this one, or none
  abbrev pub names_another : Json → String → Bool
  names_another (str cached) app_name = str_eq cached "" || not (str_eq app_name cached)
  names_another j app_name = true

  abbrev pub refreshed : Fields → Result (String × Option String) → Exec Session Bool
  refreshed cached_result (raised e) = pure false
  refreshed cached_result (ok (app_name, model_version)) = do
    modify (λ s. record s { setup = resolved_setup app_name model_version s.setup })
    pure (names_another (get "resolved_app_name" cached_result) app_name)

  abbrev pub resolution : SetupOptions → Result (String × Option String)
  resolution setup =
      env.resolve_app_name setup.country_id setup.model_version setup.policyengine_version

  -- _should_refresh_cached_impact
  unfoldable pub should_refresh_cached_impact : CachedReformImpact → Exec Session Bool
  unfolding resolved_setup parse_json_object get
  should_refresh_cached_impact impact = if str_eq impact.status "computing" then pure false else do
    setup ← gets (λ s. s.setup)
    refreshed (extract_cached_result impact) (resolution setup)

  -- _resolve_runtime_bundle_for_setup_options
  abbrev hashed : SetupOptions → SetupOptions
  hashed setup = record setup {
    options_hash = some (build_options_hash env.other_text setup.options (runtime_bundle setup));
  }

  abbrev pub resolve_unnamed : Option String → SetupOptions → Exec Session (Unit {0})
  resolve_unnamed (some app_name) setup = modify (λ s. record s { setup = hashed s.setup })
  resolve_unnamed none setup = do
    (app_name, model_version) ← lift (resolution setup)
    modify (λ s. record s { setup = resolved_setup app_name model_version s.setup })

  unfoldable pub resolve_runtime_bundle : Exec Session (Unit {0})
  unfolding resolved_setup build_options_hash
  resolve_runtime_bundle = do
    setup ← gets (λ s. s.setup)
    resolve_unnamed setup.runtime_app_name setup

  module _ (fail_closed : Bool) where
    abbrev pub previous : SetupOptions → Option String → Exec Session (List CachedReformImpact)
    previous setup none = raise (other_error "AttributeError")
    previous setup (some options_hash) = on_cache (
        matching env.setting fail_closed (reform_impact_identity setup)
          (some (lookup_pattern (codes options_hash))))

    -- _get_most_recent_impact
    unfoldable pub get_most_recent_impact : Exec Session (Option CachedReformImpact)
    unfolding matching lookup_pattern reform_impact_identity pick
    get_most_recent_impact = do
      setup ← gets (λ s. s.setup)
      impacts ← previous setup setup.options_hash
      pure (pick setup.options_hash impacts)

    -- the second selection is kept only with the hash that was refreshed
    abbrev pub exact_only : Option CachedReformImpact → Exec Session (Option CachedReformImpact)
    exact_only none = pure none
    exact_only (some impact) = do
      setup ← gets (λ s. s.setup)
      pure (if has_hash setup.options_hash impact then some impact else none)

    abbrev pub reselect : CachedReformImpact → Bool → Exec Session (Option CachedReformImpact)
    reselect impact false = pure (some impact)
    reselect impact true = do again ← get_most_recent_impact; exact_only again

    abbrev pub reuse : Option CachedReformImpact → Exec Session (Option CachedReformImpact)
    reuse none = pure none
    reuse (some impact) = do refresh ← should_refresh_cached_impact impact; reselect impact refresh

    -- _get_reusable_impact
    unfoldable pub get_reusable_impact : Exec Session (Option CachedReformImpact)
    unfolding get_most_recent_impact should_refresh_cached_impact json_eq
    get_reusable_impact = do impact ← get_most_recent_impact; reuse impact

  -- _set_reform_impact_computing
  unfoldable pub set_computing : String → Exec Session CachedReformImpact
  unfolding set_reform_impact reform_impact_identity
  set_computing execution_id = do
    setup ← gets (λ s. s.setup)
    on_cache (
        set_reform_impact env.setting (reform_impact_identity setup)
          (record {
            execution_id = execution_id;
            start_time = some (naive env.local_now);
            observability_id = setup.observability_id;
          })
          setup.options "computing" (obj end))

  -- _set_reform_impact_complete, where an impact without a worker handle has no record
  unfoldable pub set_complete : String → Fields → Exec Session (Option CachedReformImpact)
  unfolding set_complete_reform_impact
  set_complete execution_id result =
      on_cache (set_complete_reform_impact env.setting env.now execution_id (obj result))

  -- _set_reform_impact_error
  unfoldable pub set_error :
      String → String → Option String → Option ℕ → Exec Session (Option CachedReformImpact)
  unfolding set_error_reform_impact
  set_error message execution_id error_code keep_seconds =
      on_cache
        (set_error_reform_impact env.setting env.now execution_id message error_code keep_seconds)

  abbrev answers_from : CachedReformImpact → Option CachedReformImpact → Option CachedReformImpact
  answers_from failure none = none
  answers_from failure (some next) =
      if json_eq (or_none next.execution_id) (or_none failure.execution_id)
      then some failure
      else none

  -- _failure_the_next_request_answers_from
  unfoldable pub failure_the_next_request_answers_from :
      Option CachedReformImpact → Exec Session (Option CachedReformImpact)
  unfolding get_most_recent_impact json_eq
  failure_the_next_request_answers_from none = pure none
  failure_the_next_request_answers_from (some failure) = do
    next ← get_most_recent_impact false
    pure (answers_from failure next)

  abbrev with_waits : String → CachedReformImpact → Option ℕ → EconomicImpactResult
  with_waits message failure none = error_result message none none
  with_waits message failure (some seconds) =
      error_result message (some seconds)
        (some (get_reform_impact_seconds_until env.now failure delete_lockout_seconds))

  -- _stored_failure_result
  unfoldable pub stored_failure_result :
      String → Option CachedReformImpact → Exec Session EconomicImpactResult
  unfolding seconds_left error_result get_reform_impact_seconds_until
  stored_failure_result message none = pure (error_result message none none)
  stored_failure_result message (some failure) = do
    seconds ← on_cache (seconds_left env.setting failure)
    pure (with_waits message failure seconds)
