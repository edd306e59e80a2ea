-- ===== src/Annual/Deletion.antt =====
-- services/economy_service.py: `delete_failed_economic_impact`, from the setup options on.
pub mod Locked
pub mod Reads
use policyengine_api.Base.{
  ℕ, zero, suc, Option, none, some, Bool, true, false, not, ltb, str_eq, if◌then◌else◌,
}
use policyengine_api.Effect.{coordination_error, Exec, pure, raise, modify, ◌>>=◌, ◌>>◌}
use policyengine_api.ReformImpacts.Records.{CachedReformImpact}
use policyengine_api.ReformImpacts.Repository.Removal.{delete_failure}
use policyengine_api.ReformImpacts.Service.{get_reform_impact_seconds_until}
use policyengine_api.Annual.Setup.{SetupOptions}
use policyengine_api.Annual.Request.{
  Environment, Session, on_cache, FailedImpactDeletion, deleted, locked, not_a_failure, not_found,
}
use policyengine_api.Annual.Stored.{get_reusable_impact, delete_lockout_seconds}

-- FAILED_IMPACT_DELETE_ATTEMPTS
abbrev pub delete_attempts : ℕ
delete_attempts = 3

module _ (env : Environment) where
  abbrev pub deleted_or_again :
      Bool → Exec Session FailedImpactDeletion → Exec Session FailedImpactDeletion
  deleted_or_again true again = pure deleted
  deleted_or_again false again = again

  -- the checks of the stored impact, and its removal
  unfoldable pub check_and_delete :
      CachedReformImpact → Exec Session FailedImpactDeletion → Exec Session FailedImpactDeletion
  unfolding get_reform_impact_seconds_until delete_failure
  check_and_delete stored again =
      let wait = get_reform_impact_seconds_until env.now stored delete_lockout_seconds in
      if not (str_eq stored.status "error")
      then pure (not_a_failure stored.status)
      else if ltb 0 wait
      then pure (locked wait)
      else do removed ← on_cache (delete_failure env.setting stored); deleted_or_again removed again

  abbrev pub check_stored :
      Option CachedReformImpact
      → Exec Session FailedImpactDeletion
      → Exec Session FailedImpactDeletion
  check_stored none again = pure not_found
  check_stored (some stored) again = check_and_delete stored again

  -- The loop, with the attempts that are left. Each starts from the request's own options, which the
  -- selection changes only in its copy.
  unfoldable pub delete_loop : SetupOptions → ℕ → Exec Session FailedImpactDeletion
  unfolding get_reusable_impact check_and_delete
  delete_loop setup zero =
      raise (coordination_error "the stored economic impact changed repeatedly while being deleted")
  delete_loop setup (suc attempts) = do
    modify (λ s. record s { setup = setup })
    stored ← get_reusable_impact env true
    check_stored stored (delete_loop setup attempts)

  -- delete_failed_economic_impact
  unfoldable pub delete_failed_economic_impact : SetupOptions → Exec Session FailedImpactDeletion
  unfolding delete_loop
  delete_failed_economic_impact setup = delete_loop setup delete_attempts
