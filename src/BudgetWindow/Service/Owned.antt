-- ===== src/BudgetWindow/Service/Owned.antt =====
-- services/economy_budget_window_submission.py: when a request owns the submission of a report.
use policyengine_api.Base.{◌≡◌, refl, ℕ, zero, suc, String, Option, none, some, Bool, true, false}
use policyengine_api.Effect.{Result, ok, raised, pure, lift, ◌>>=◌}
use policyengine_api.Cache.Client.{World}
use policyengine_api.BudgetWindow.State.{State}
use policyengine_api.BudgetWindow.Store.{get_state, claim_batch_start}
use policyengine_api.BudgetWindow.Service.Request.{
  Environment, Request, on_cache, restore_report_id,
}
use policyengine_api.BudgetWindow.Service.Submission.{own_or, adopt_or_retry, claim_start}

-- In this cache, one of so many claims of the key under the token is granted: the first one, or one
-- after it, where the first was refused and no state was then found.
pub data Claimed (cache_key claim_token candidate : String) : ℕ → World → Type 0 where
  granted :
      {n : ℕ} {w : World}
      → (claim_batch_start cache_key claim_token (some candidate) w).0 ≡ ok true
      → Claimed cache_key claim_token candidate (suc n) w
  granted_later :
      {n : ℕ} {w : World}
      → (claim_batch_start cache_key claim_token (some candidate) w).0 ≡ ok false
      → (get_state cache_key (claim_batch_start cache_key claim_token (some candidate) w).1).0
        ≡ ok none
      → Claimed cache_key claim_token candidate n
          (get_state cache_key (claim_batch_start cache_key claim_token (some candidate) w).1).1
      → Claimed cache_key claim_token candidate (suc n) w

module _ (env : Environment) (cache_key claim_token candidate : String) where
  abbrev Granted : ℕ → World → Type 0
  Granted = Claimed cache_key claim_token candidate

  not_own :
      {A : Type 0} (r : Result A) (s : Request)
      → (◌>>=◌ (lift r) (λ _. pure false) s).0 ≡ ok true
      → ⊥
  not_own (ok a) s own = cc own
  not_own (raised e) s own = cc own

  module _ (n : ℕ)
      (later : (s : Request)
        → (claim_start env cache_key claim_token n candidate s).0 ≡ ok true
        → Granted n s.cache) where
    after_look :
        (s : Request)
        → let (claimed, w1) = claim_batch_start cache_key claim_token (some candidate) s.cache in
          claimed ≡ ok false
          → (r : Result (Option State)) → (get_state cache_key w1).0 ≡ r
          → let t = record s { cache = (get_state cache_key w1).1 } in
            (◌>>=◌
                (lift r)
                (λ state.
                  adopt_or_retry env cache_key claim_token state
                    (claim_start env cache_key claim_token n candidate))
                t).0
              ≡ ok true
            → Granted (suc n) s.cache
    after_look s refused (ok none) looked own = granted_later refused looked (later _ own)
    after_look s refused (ok (some state)) looked own = absurd (
        not_own (restore_report_id env state.observability_id _).0
          (restore_report_id env state.observability_id _).1 own)
    after_look s refused (raised e) looked own = absurd (cc own)

    after_claim :
        (s : Request) (r : Result Bool)
        → let (claimed, w1) = claim_batch_start cache_key claim_token (some candidate) s.cache in
          claimed ≡ r
          → (◌>>=◌
              (lift r)
              (λ owned. own_or env cache_key claim_token owned candidate (do
                state ← on_cache (get_state cache_key)
                adopt_or_retry env cache_key claim_token state
                    (claim_start env cache_key claim_token n candidate)))
              (record s { cache = w1 })).0
            ≡ ok true
          → Granted (suc n) s.cache
    after_claim s (ok true) claimed own = granted claimed
    after_claim s (ok false) claimed own =
        let w1 = (claim_batch_start cache_key claim_token (some candidate) s.cache).1 in
        after_look s claimed (get_state cache_key w1).0 refl own
    after_claim s (raised e) claimed own = absurd (cc own)

  -- A request owns the submission only by a claim that was granted.
  pub claim_start-Claimed :
      (attempts : ℕ) (s : Request)
      → (claim_start env cache_key claim_token attempts candidate s).0 ≡ ok true
      → Granted attempts s.cache
  unfolding claim_start
  claim_start-Claimed zero s own = absurd (cc own)
  claim_start-Claimed (suc attempts) s own =
      after_claim attempts (claim_start-Claimed attempts) s
        (claim_batch_start cache_key claim_token (some candidate) s.cache).0 refl own
