-- ===== src/BudgetWindow/Store/Lifetime/Submitted.antt =====
-- services/budget_window_cache.py: the lifetime of the state that `store_submitted` writes.
use policyengine_api.Base.{
  ℕ, ◌+◌, ◌*◌, ◌≤◌, ◌<◌, ◌≡◌, refl, String, Option, some, Bool, true, false, arith,
}
use policyengine_api.Effect.{coordination_error, Error, Result, ok, raised, lift, attempt, ◌>>=◌}
use policyengine_api.Effect.Keeps.{Keeps, Keeps-bind, Keeps-attempt, Keeps-lift, Keeps-raise}
use policyengine_api.Cache.Backend.Commands.{second}
use policyengine_api.Cache.Client.{World, client_set, truthy, IsCalm}
use policyengine_api.BudgetWindow.State.{State, validated}
use policyengine_api.BudgetWindow.Store.{
  submitted_reply, unavailable, family, state_key, encoded_state, handle_cache_error,
  store_submitted, submitted_state, expiring, batch_ttl_seconds,
}
use policyengine_api.BudgetWindow.Store.Lifetime.{Stored, event-Stored, client_set-Stored}

module _ (cache_key : String) (t deadline : ℕ) (alive : t < deadline) where
  reported-Stored : (stored : Bool) → Keeps (Stored cache_key t deadline) (submitted_reply stored)
  unfolding handle_cache_error
  reported-Stored true = event-Stored cache_key t deadline alive _ _ _ _
  reported-Stored false =
      Keeps-bind _ _
        (event-Stored cache_key t deadline alive family "coordination-failed"
          (some "write-submitted-state") "WARNING")
        (λ _. Keeps-raise (coordination_error "budget-window submitted state could not be stored"))

  unavailable-Stored :
      (operation : String) (e : Error)
      → Keeps (Stored cache_key t deadline) (unavailable {A = Unit {0}} operation e)
  unfolding handle_cache_error
  unavailable-Stored operation e =
      Keeps-bind _ _
        (event-Stored cache_key t deadline alive family "coordination-failed" (some operation)
          "WARNING")
        (λ _. Keeps-raise (coordination_error "budget-window coordination state is unavailable"))

  submitted-Stored :
      (s : State) (w : World)
      → validated s ≡ ok s
      → IsCalm w
      → w.backend.time ≡ t
      → deadline ≤ t + batch_ttl_seconds * second
      → Stored cache_key t deadline
          (attempt
            (client_set (state_key cache_key) (encoded_state s) (expiring batch_ttl_seconds))
            (unavailable "write-submitted-state")
            (λ reply. submitted_reply (truthy reply))
            w).1
  submitted-Stored s w valid calm time long =
      let sent = client_set (state_key cache_key) (encoded_state s) (expiring batch_ttl_seconds) in
      (Keeps-attempt (lift (sent w).0) (unavailable "write-submitted-state")
          (λ reply. submitted_reply (truthy reply)) (Keeps-lift _)
          (unavailable-Stored "write-submitted-state") (λ reply. reported-Stored (truthy reply))).at
        (sent w).1
        (client_set-Stored cache_key t deadline alive s batch_ttl_seconds w valid calm time long)

  validated-valid : (s s' : State) → validated s ≡ ok s' → validated s' ≡ ok s'
  unfolding validated
  validated-valid s s' e = ground arith

  when_valid-Stored :
      (r : Result State) (w : World)
      → ((s : State) → r ≡ ok s → validated s ≡ ok s)
      → IsCalm w
      → w.backend.time ≡ t
      → deadline ≤ t + batch_ttl_seconds * second
      → let m = lift r >>= λ state.
          attempt
            (client_set (state_key cache_key) (encoded_state state) (expiring batch_ttl_seconds))
            (unavailable "write-submitted-state")
            (λ reply. submitted_reply (truthy reply)) in
        (m w).0 ≡ ok tt → Stored cache_key t deadline (m w).1
  when_valid-Stored (ok s) w valid calm time long stored =
      submitted-Stored s w (valid s refl) calm time long
  when_valid-Stored (raised e) w valid calm time long stored = absurd (cc stored)

  pub store_submitted-Stored :
      (id : String) (observability_id : Option String) (w : World)
      → IsCalm w
      → w.backend.time ≡ t
      → deadline ≤ t + batch_ttl_seconds * second
      → (store_submitted cache_key id observability_id w).0 ≡ ok tt
      → Stored cache_key t deadline (store_submitted cache_key id observability_id w).1
  unfolding store_submitted
  store_submitted-Stored id observability_id w calm time long stored =
      when_valid-Stored (validated (submitted_state id observability_id)) w
        (validated-valid (submitted_state id observability_id)) calm time long stored
