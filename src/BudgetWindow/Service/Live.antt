-- ===== src/BudgetWindow/Service/Live.antt =====
-- services/economy_budget_window_submission.py: sequences of requests for one report, while its state
-- lasts.
use policyengine_api.Base.{
  ℕ, ◌+◌, ◌*◌, ◌≤◌, ◌<◌, ◌≡◌, refl, String, List, [], ◌∷◌, Option, arith, All,
}
use policyengine_api.Effect.{ok, ◌>>◌}
use policyengine_api.Effect.Keeps.{Keeps, Keeps-bind}
use policyengine_api.Json.{Fields}
use policyengine_api.Cache.Backend.Commands.{second}
use policyengine_api.Cache.Client.{World, pass, IsCalm}
use policyengine_api.BudgetWindow.State.{State}
use policyengine_api.BudgetWindow.Store.{get_state, store_submitted, batch_ttl_seconds}
use policyengine_api.BudgetWindow.Store.Lifetime.Submitted.{store_submitted-Stored}
use policyengine_api.BudgetWindow.Store.Lifetime.{
  Stored, get_state-Stored, set_recoverable_state-Stored, pass-Stored,
}
use policyengine_api.BudgetWindow.Service.Request.{Environment, begin, restore_report_id}
use policyengine_api.BudgetWindow.Service.Results.{result_by_status}
use policyengine_api.BudgetWindow.Service.Submission.{answer}
use policyengine_api.BudgetWindow.Service.Found.{Upheld, restore-Keeps, result_by_status-Keeps}

-- A request for the report, some time after the one before it.
pub record Visit : Type 0 where
  pub pause : ℕ
  pub environment : Environment
  pub claim_token : String
  pub years : List String

-- What each request sends to the gateway, one request after the other.
unfoldable pub attend : String → List Visit → World → List (List Fields)
unfolding answer
attend cache_key [] w = []
attend cache_key (v ∷ rest) w =
    let after = (answer v.environment cache_key v.claim_token v.years (begin (pass v.pause w))).1 in
    after.submissions ∷ attend cache_key rest after.cache

abbrev pub duration : List Visit → ℕ
duration [] = 0
duration (v ∷ rest) = v.pause + duration rest

-- the state is stored, and these submissions were sent
abbrev Settled : String → ℕ → ℕ → World → List Fields → Type 0
Settled cache_key t deadline w sent = Stored cache_key t deadline w × (sent ≡ [])

module _ (cache_key : String) (t deadline : ℕ) (alive : t < deadline)
    (long : deadline ≤ t + 2_332_800 * second) where
  found-Settled :
      (env : Environment) (s : State) (years : List String)
      → Keeps (Upheld (Settled cache_key t deadline)) (
          restore_report_id env s.observability_id
          >> result_by_status env cache_key s.status s years)
  found-Settled env s years =
      Keeps-bind _ _ (restore-Keeps (Settled cache_key t deadline) env s.observability_id) (λ _.
        result_by_status-Keeps (Settled cache_key t deadline) env cache_key
          (λ s operation sent valid. record {
            at = λ w h. (
              (set_recoverable_state-Stored cache_key t deadline alive env.randint s valid long
                    operation).at
                  w h.0,
              h.1,
            );
          })
          s.status s years)

  answer-Settled :
      (env : Environment) (token : String) (years : List String) (w : World)
      → Stored cache_key t deadline w
      → Upheld (Settled cache_key t deadline) (answer env cache_key token years (begin w)).1
  unfolding answer
  answer-Settled env token years w h =
      let found = get_state-Stored cache_key t deadline alive w h in
      rw found.0 (
        (found-Settled env h.state years).at
          (record (begin w) { cache = (get_state cache_key w).1 }) (found.1, refl))

module _ (cache_key : String) (deadline : ℕ) where
  attend-Stored :
      (visits : List Visit) (t : ℕ) (w : World)
      → Stored cache_key t deadline w
      → t + duration visits < deadline
      → deadline ≤ t + 2_332_800 * second
      → All (λ sent. sent ≡ []) (attend cache_key visits w)
  unfolding attend
  attend-Stored [] t w h alive long = tt
  attend-Stored (v ∷ rest) t w h alive long =
      let later =
        answer-Settled cache_key (t + v.pause) deadline (omega arith) (omega arith) v.environment
          v.claim_token v.years (pass v.pause w) (pass-Stored v.pause h) in
      (later.1, attend-Stored rest (t + v.pause) _ later.0 (omega arith) (omega arith))

-- Where no command fails, a submitted batch that was stored is not submitted again: none of the
-- requests for the report that follow within 86,400 seconds sends anything, whatever tokens, years
-- and environments they have, and also when they replace the state by a result or a failure.
pub submitted_once_a_day :
    (cache_key batch_job_id : String) (observability_id : Option String) (visits : List Visit)
    (w : World)
    → IsCalm w
    → (store_submitted cache_key batch_job_id observability_id w).0 ≡ ok tt
    → duration visits < batch_ttl_seconds * second
    → All
        (λ sent. sent ≡ [])
        (attend cache_key visits (store_submitted cache_key batch_job_id observability_id w).1)
submitted_once_a_day cache_key batch_job_id observability_id visits w calm stored short =
    let t = w.backend.time in
    let deadline = t + batch_ttl_seconds * second in
    attend-Stored cache_key deadline visits t _
      (store_submitted-Stored cache_key t deadline (omega arith) batch_job_id observability_id w
        calm refl (omega arith) stored)
      (omega arith) (omega arith)
