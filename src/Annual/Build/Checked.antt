-- ===== src/Annual/Build/Checked.antt =====
-- services/economy_service.py: which requests `get_economic_impact` answers.
use policyengine_api.Base.{String, Option, ◌≡◌, refl, ap, ◌∙◌, ◌↔◌, ◌⊎◌, inl, inr}
use policyengine_api.Json.{Json, get}
use policyengine_api.Effect.{Error, Result, ok, raised, Exec, pure, lift, modify, ◌>>=◌, ◌>>◌}
use policyengine_api.Annual.Spm.{validate_worker_spm, confirm, asked, IsConfirmed, confirm_lem}
use policyengine_api.Annual.Request.{Environment, Session, EconomicImpactResult}
use policyengine_api.Annual.Setup.{SetupOptions}
use policyengine_api.Annual.Submission.{get_or_create_economic_impact}
use policyengine_api.Annual.Tables.{EconomicImpactRequest, Tables}
use policyengine_api.Annual.Build.{
  validate_economy_year, with_normalized_region, validate_breakdown, validate_uk_region,
  check_dataset, setup_of, with_spm, build_setup_options, checked_setup, get_economic_impact,
}
use policyengine_api.Annual.Build.Years.{Offered, validate_economy_year_iff}
use policyengine_api.Annual.Build.Regions.{check_breakdown_iff, validate_uk_region_iff}
use policyengine_api.Annual.Build.Sound.{
  Succeeds, then_check, then_check-Succeeds, then_check-rest, lift-then_check, check_dataset_iff,
  with_normalized_region-IsSound, IsSound, spm_of,
}

module _ (tables : Tables) (env : Environment) (time_period : String) where
  sound_options : EconomicImpactRequest → Result (Option Json)
  sound_options request = then_check (check_dataset tables request) (
      then_check (validate_breakdown tables request)
        (then_check (validate_uk_region tables request) (spm_of tables env time_period request)))

  sound_options_iff :
      (request : EconomicImpactRequest)
      → Succeeds (sound_options request) ↔ IsSound tables env time_period request
  unfolding sound_options validate_breakdown
  sound_options_iff request =
      let spm = spm_of tables env time_period request in
      let place = validate_uk_region tables request in
      let breakdown = validate_breakdown tables request in
      let all =
        then_check-Succeeds (check_dataset tables request)
          (then_check breakdown (then_check place spm)) in
      let later = then_check-Succeeds breakdown (then_check place spm) in
      let last = then_check-Succeeds place spm in
      let named = check_dataset_iff tables env time_period request in
      let breaks = check_breakdown_iff tables request (get "breakdown" request.options) in
      let placed = validate_uk_region_iff tables request in
      (
        λ h.
            let (h0, h1) = all.0 h in
            let (h2, h3) = later.0 h1 in
            let (h4, h5) = last.0 h3 in (named.0 h0, breaks.0 h2, placed.0 h4, h5),
        λ (d, b, p, c). all.1 (named.1 d, later.1 (breaks.1 b, last.1 (placed.1 p, c))),
      )

  abbrev confirmed_setup : EconomicImpactRequest → Option Json → Exec Session SetupOptions
  confirmed_setup request spm = do
    resolved ←
        confirm tables env (tables.lower request.country_id)
          (tables.package_version request.country_id) spm
    pure (setup_of tables env request time_period (with_spm resolved request.options))

  module _ (request : EconomicImpactRequest) (s : Session) where
    resolved_first :
        (r : Result (Option Json))
        → ◌>>=◌
            (lift r
              >>= confirm tables env
                  (tables.lower request.country_id)
                  (tables.package_version request.country_id))
            (λ resolved.
              pure (setup_of tables env request time_period (with_spm resolved request.options)))
            s
          ≡ (lift r >>= confirmed_setup request) s
    resolved_first (ok spm) = refl
    resolved_first (raised e) = refl

    build_setup_options-sound_options :
        build_setup_options tables env request time_period s
        ≡ (lift (sound_options request) >>= confirmed_setup request) s
    unfolding build_setup_options validate_worker_spm sound_options
    build_setup_options-sound_options =
        lift-then_check (check_dataset tables request) _ _ (confirmed_setup request) s (
          lift-then_check (validate_breakdown tables request) _ _ (confirmed_setup request) s (
            lift-then_check (validate_uk_region tables request) _ _ (confirmed_setup request) s
              (resolved_first (spm_of tables env time_period request))))

  -- A request that passes the checks of its own: for an offered year of the country, without a dataset of
  -- its own, with a breakdown and a region that the country has, and with SPM options that the
  -- installed bundle resolves.
  abbrev pub IsValid : EconomicImpactRequest → Type 0
  IsValid request =
      Offered tables request.country_id time_period × IsSound tables env time_period request

  module _ (request : EconomicImpactRequest) where
    abbrev normalized : EconomicImpactRequest
    normalized = with_normalized_region tables request

    -- what the request's own checks come to
    own_checks : Result (Option Json)
    own_checks =
        then_check (validate_economy_year tables request.country_id time_period)
          (sound_options normalized)

    own_checks_iff : Succeeds own_checks ↔ IsValid request
    unfolding own_checks
    own_checks_iff =
        let year = validate_economy_year tables request.country_id time_period in
        let both = then_check-Succeeds year (sound_options normalized) in
        let offered = validate_economy_year_iff tables request.country_id time_period in
        let sound = sound_options_iff normalized in
        let moved = with_normalized_region-IsSound tables env time_period request in
        (
          λ h. let (h0, h1) = both.0 h in (offered.0 h0, moved.0 (sound.0 h1)),
          λ (o, rest). both.1 (offered.1 o, sound.1 (moved.1 rest)),
        )

    abbrev country : String
    country = tables.lower normalized.country_id

    abbrev model_version : Option String
    model_version = tables.package_version normalized.country_id

    -- the session after the gateway was asked whether the worker has these SPM options, which is not
    -- asked where there are none
    abbrev pub after_question : Option Json → Session → Session
    after_question spm s = asked tables env country model_version spm s

    abbrev pub IsConfirmedFor : Option Json → Type 0
    IsConfirmedFor spm = IsConfirmed tables env country model_version spm

    -- the options that the request is answered under
    abbrev pub setup_for : Option Json → SetupOptions
    setup_for spm = setup_of tables env normalized time_period (with_spm spm normalized.options)

    checked_setup-own_checks :
        (s : Session)
        → checked_setup tables env request time_period s
          ≡ (lift own_checks >>= confirmed_setup normalized) s
    unfolding checked_setup own_checks
    checked_setup-own_checks s =
        lift-then_check (validate_economy_year tables request.country_id time_period) _ _
          (confirmed_setup normalized) s (build_setup_options-sound_options normalized s)

    -- what the request comes to, from what its own checks come to
    abbrev pub Answer : Option Json → Session → Type 0
    Answer spm s =
        (IsConfirmedFor spm
          × (get_economic_impact tables env request time_period s
              ≡ get_or_create_economic_impact env
                  (record (after_question spm s) { setup = setup_for spm })))
        ⊎ (¬ IsConfirmedFor spm
            × (e : Error) × (get_economic_impact tables env request time_period s
                ≡ (raised e, after_question spm s)))

    abbrev answer_from : Result SetupOptions × Session → Result EconomicImpactResult × Session
    answer_from (r, s) =
        ◌>>=◌ (lift r)
          (λ setup. modify (λ t. record t { setup = setup }) >> get_or_create_economic_impact env) s

    answered :
        (s : Session) (checked : Result SetupOptions × Session)
        → checked_setup tables env request time_period s ≡ checked
        → get_economic_impact tables env request time_period s ≡ answer_from checked
    unfolding get_economic_impact
    answered s checked same = ap answer_from same

    own_checks-spm_of :
        (spm : Option Json)
        → own_checks ≡ ok spm
        → spm_of tables env time_period normalized ≡ ok spm
    unfolding own_checks sound_options
    own_checks-spm_of spm passed =
        let year = validate_economy_year tables request.country_id time_period in
        then_check-rest (validate_uk_region tables normalized) _ spm (
          then_check-rest (validate_breakdown tables normalized) _ spm (
            then_check-rest (check_dataset tables normalized) _ spm
              (then_check-rest year _ spm passed)))

    after_own_checks :
        (spm : Option Json) (s : Session)
        → own_checks ≡ ok spm
        → (r : Result (Option Json) × Session) → confirm tables env country model_version spm s ≡ r
        → get_economic_impact tables env request time_period s
          ≡ answer_from (◌>>=◌ (λ (s' : Session). r) (λ resolved. pure (setup_for resolved)) s)
    after_own_checks spm s passed r confirmed = answered s _ (
        checked_setup-own_checks s
        ∙ ap (λ own. (◌>>=◌ (lift own) (confirmed_setup normalized)) s) passed
        ∙ ap
            (λ (c : Result (Option Json) × Session).
              ◌>>=◌ (λ (s' : Session). c) (λ resolved. pure (setup_for resolved)) s)
            confirmed)

    answer_lem : (spm : Option Json) (s : Session) → own_checks ≡ ok spm → Answer spm s
    answer_lem spm s passed = elim (confirm_lem tables env country model_version spm s) [
      | inl (conf, confirmed) ↦ inl (conf, after_own_checks spm s passed _ confirmed)
      | inr (unconf, e, failed) ↦ inr (unconf, e, after_own_checks spm s passed _ failed)
    ]

    decided :
        (s : Session) (r : Result (Option Json))
        → own_checks ≡ r
        → (¬ IsValid request
            × (e : Error) × (get_economic_impact tables env request time_period s ≡ (raised e, s)))
          ⊎ (IsValid request
              × (spm : Option Json) × (spm_of tables env time_period normalized ≡ ok spm)
              × Answer spm s)
    decided s (ok spm) passed =
        inr (
          own_checks_iff.0 (spm, passed),
          spm,
          own_checks-spm_of spm passed,
          answer_lem spm s passed,
        )
    decided s (raised e) failed = inl (
      λ valid. (let (spm, passed) = own_checks_iff.1 valid in absurd (cc (passed, failed))),
      e,
      answered s _ (
          checked_setup-own_checks s
          ∙ ap (λ own. (◌>>=◌ (lift own) (confirmed_setup normalized)) s) failed),
    )

    -- A request that fails a check of its own, that is of its year, its dataset, its breakdown, its region
    -- or its SPM options, raises and leaves everything as it was: the cache, the jobs that the gateway
    -- was sent and the capabilities that it was asked for. For any other the gateway is asked whether
    -- the worker has the SPM options, and not where there are none. Where the worker has them the
    -- request is answered from the stored impacts or by a new job, under the options with its
    -- normalized region and the resolved SPM options. Where the gateway does not answer or the
    -- worker does not have them, it raises, and that question is all that has changed.
    pub get_economic_impact_lem :
        (s : Session)
        → (¬ IsValid request
            × (e : Error) × (get_economic_impact tables env request time_period s ≡ (raised e, s)))
          ⊎ (IsValid request
              × (spm : Option Json) × (spm_of tables env time_period normalized ≡ ok spm)
              × Answer spm s)
    get_economic_impact_lem s = decided s own_checks refl
