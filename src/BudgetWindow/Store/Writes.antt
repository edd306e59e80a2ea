-- ===== src/BudgetWindow/Store/Writes.antt =====
-- services/budget_window_cache.py: the writes of a report's state where no command fails.
use policyengine_api.Base.{
  ℕ, ◌-◌, ◌≤◌, ◌<◌, ◌≡◌, ◌≢◌, refl, ◌∙◌, String, Option, some, true, false, arith, str_eq, eq_refl,
}
use policyengine_api.Base.Int.{ℤ, pos}
use policyengine_api.Json.{Fields, CacheText}
use policyengine_api.Effect.{ok}
use policyengine_api.Cache.Backend.Expiry.{view, set-reply, view-set, external_now-set}
use policyengine_api.Cache.Client.{World, client_set, IsCalm, client_set-IsCalm, events-IsCalm}
use policyengine_api.Cache.Core.{jittered_ttl_succeeds}
use policyengine_api.BudgetWindow.State.{FailureType, validated}
use policyengine_api.BudgetWindow.Store.{
  state_key, encoded_state, expiring, store_submitted, submitted_state, failed_state,
  batch_ttl_seconds, result_ttl_seconds, send_state, set_recoverable_state, set_execution_failure,
}

module _ (k : String) (w : World) (calm : IsCalm w) where
  client_set-writes :
      (text : CacheText) (ttl : ℕ)
      → 0 < ttl
      → let r = client_set (state_key k) text (expiring ttl) w in
        (r.0 ≡ ok (some true)) × (view r.1.backend (state_key k) ≡ some text) × IsCalm r.1
  client_set-writes text ttl positive =
      let lasting : some ttl ≢ some 0 = λ e. grind (arith, e) in
      rw (client_set-IsCalm w calm (state_key k) text (expiring ttl)) (
        ground (arith, set-reply w.backend (state_key k) text (expiring ttl)),
        view-set w.backend (state_key k) text (expiring ttl) (state_key k) lasting
            ∙ ground (arith, eq_refl (state_key k)),
        record {
          enabled = calm.enabled;
          faultless = refl;
          internal = external_now-set w.backend (state_key k) text (expiring ttl) ∙ calm.internal;
        },
      )

  pub store_submitted-writes :
      (job : String) (id : Option String)
      → str_eq job "" ≡ false
      → let r = store_submitted k job id w in
        (r.0 ≡ ok tt)
        × (view r.1.backend (state_key k) ≡ some (encoded_state (submitted_state job id)))
        × IsCalm r.1
  unfolding store_submitted validated
  store_submitted-writes job id named =
      let c =
        client_set-writes (encoded_state (submitted_state job id)) batch_ttl_seconds
          (omega arith) in
      rw (named, c.0) (refl, c.1, events-IsCalm _ c.2)

  pub set_execution_failure-writes :
      (randint : ℕ → ℕ → ℤ) (n : ℕ) (result : Fields) (id : Option String)
      → randint 0 259_200 ≡ pos n
      → n ≤ 259_200
      → let r = set_execution_failure randint k result id w in
        (r.0 ≡ ok true)
        × (view r.1.backend (state_key k)
            ≡ some (encoded_state (failed_state FailureType.execution result id)))
        × IsCalm r.1
  unfolding set_execution_failure validated set_recoverable_state send_state
  set_execution_failure-writes randint n result id chosen small =
      let ttl =
        jittered_ttl_succeeds result_ttl_seconds 10 100 n randint (omega arith) (omega arith) chosen
          small in
      let c =
        client_set-writes (encoded_state (failed_state FailureType.execution result id))
          (result_ttl_seconds - n) (omega arith) in
      rw (ttl, c.0) (refl, c.1, events-IsCalm _ c.2)
