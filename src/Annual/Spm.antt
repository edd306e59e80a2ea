-- ===== src/Annual/Spm.antt =====
-- worker_spm.py, spm.py: the SPM options of a request, and the question to the gateway whether the
-- selected worker has them.
use policyengine_api.Base.{
  String, [], ◌∷◌, ◌++◌, Option, none, some, not, str_eq, ◌≡◌, ◌⊎◌, inl, inr, refl, if◌then◌else◌,
}
use policyengine_api.Json.{Json, null}
use policyengine_api.Effect.{
  Error, value_error, validation_error, spm_error, Result, ok, raised, Exec, pure, lift, ◌>>=◌,
  ◌>>◌,
}
use policyengine_api.Annual.Request.{Environment, Session}
use policyengine_api.Annual.Tables.{Tables}

module _ (tables : Tables) where
  abbrev only_us : Json → Result (Option Json)
  only_us null = ok none
  only_us selection =
      raised (spm_error "SPM_SETTINGS_UNSUPPORTED" "SPM settings are only available for the US")

  -- normalize_spm_selection, on a request's selection
  unfoldable pub normalize_spm_selection : String → Json → Result (Option Json)
  normalize_spm_selection country_id selection =
      if not (str_eq country_id "us")
      then only_us selection
      else tables.certified_selection selection

  -- the `except ValueError` of validate_worker_spm
  abbrev pub capability_error : Error → Error
  capability_error (value_error message) =
      spm_error "SPM_CONFIGURATION_UNAVAILABLE" (tables.error_message (value_error message))
  capability_error (validation_error message) =
      spm_error "SPM_CONFIGURATION_UNAVAILABLE" (tables.error_message (validation_error message))
  capability_error (spm_error code message) =
      spm_error "SPM_CONFIGURATION_UNAVAILABLE" (tables.error_message (spm_error code message))
  capability_error error = error

  abbrev pub checked_capability : Result (Unit {0}) → Result (Unit {0})
  checked_capability (ok u) = ok u
  checked_capability (raised e) = raised (capability_error e)

  module _ (env : Environment) (country_id : String) (model_version : Option String) where
    -- gateway.get_spm_capability
    unfoldable pub get_spm_capability : Exec Session Json
    get_spm_capability s = (
      env.get_spm_capability country_id model_version tables.policyengine_version,
      record s {
        capability_requests =
            s.capability_requests ++ (country_id, model_version, tables.policyengine_version) ∷ [];
      },
    )

    -- the rest of validate_worker_spm, from the selection that was resolved
    abbrev pub confirm : Option Json → Exec Session (Option Json)
    confirm none = pure none
    confirm (some resolved) = do
      capability ← get_spm_capability
      lift (checked_capability (tables.check_worker_capability capability resolved))
      pure (some resolved)

    -- the request after the question that these options need
    abbrev pub asked : Option Json → Session → Session
    asked none s = s
    asked (some resolved) s = record s {
      capability_requests =
          s.capability_requests ++ (country_id, model_version, tables.policyengine_version) ∷ [];
    }

    -- The gateway answers with a capability that has the options; no options need none.
    abbrev pub IsConfirmed : Option Json → Type 0
    IsConfirmed none = Unit {0}
    IsConfirmed (some resolved) =
        (capability : Json) × (env.get_spm_capability country_id model_version
            tables.policyengine_version
          ≡ ok capability)
        × (tables.check_worker_capability capability resolved ≡ ok tt)

    abbrev Confirmation : Option Json → Session → Type 0
    Confirmation spm s =
        (IsConfirmed spm × (confirm spm s ≡ (ok spm, asked spm s)))
        ⊎ (¬ IsConfirmed spm × (e : Error) × (confirm spm s ≡ (raised e, asked spm s)))

    module _ (resolved : Json) (s : Session) where
      after_check :
          (capability : Json)
          → env.get_spm_capability country_id model_version tables.policyengine_version
            ≡ ok capability
          → (r : Result (Unit {0})) → tables.check_worker_capability capability resolved ≡ r
          → Confirmation (some resolved) s
      unfolding get_spm_capability
      after_check capability answered (ok u) checked =
          inl ((capability, answered, checked), rw (answered, checked) refl)
      after_check capability answered (raised e) checked = inr (
        λ (other, again, fine). absurd (cc (answered, again, checked, fine)),
        capability_error e,
        rw (answered, checked) refl,
      )

      after_answer :
          (r : Result Json)
          → env.get_spm_capability country_id model_version tables.policyengine_version ≡ r
          → Confirmation (some resolved) s
      unfolding get_spm_capability
      after_answer (ok capability) answered =
          after_check capability answered (tables.check_worker_capability capability resolved) refl
      after_answer (raised e) answered =
          inr (λ (capability, again, fine). absurd (cc (answered, again)), e, rw answered refl)

    -- The question is the only effect, and its answer decides.
    pub confirm_lem : (spm : Option Json) (s : Session) → Confirmation spm s
    confirm_lem none s = inl (tt, refl)
    confirm_lem (some resolved) s =
        after_answer resolved s
          (env.get_spm_capability country_id model_version tables.policyengine_version) refl

  -- validate_worker_spm
  unfoldable pub validate_worker_spm :
      Environment → String → Json → Option String → Exec Session (Option Json)
  unfolding normalize_spm_selection get_spm_capability
  validate_worker_spm env country_id selection model_version = do
    resolved ← lift (normalize_spm_selection (tables.lower country_id) selection)
    confirm env (tables.lower country_id) model_version resolved
