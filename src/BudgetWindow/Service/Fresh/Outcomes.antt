-- ===== src/BudgetWindow/Service/Fresh/Outcomes.antt =====
-- services/economy_budget_window_submission.py: the first request for a report, by the answer of the
-- gateway.
use policyengine_api.Base.{
  ℕ, ◌≡◌, ◌≤◌, ◌∙◌, refl, String, List, Option, none, some, true, false, arith, str_eq,
}
use policyengine_api.Effect.{Error, ok, raised}
use policyengine_api.Cache.Backend.Expiry.{view}
use policyengine_api.Cache.Backend.Commands.{holds}
use policyengine_api.Cache.Client.{World, IsCalm}
use policyengine_api.BudgetWindow.State.{FailureType, validated, sorted}
use policyengine_api.BudgetWindow.Store.{
  state_key, encoded_state, get_state, submitted_state, failed_state,
}
use policyengine_api.BudgetWindow.Store.Reads.{get_state-IsCalm, decode_state-encoded_state}
use policyengine_api.BudgetWindow.Impact.{Impact, model_dump, failed_impact}
use policyengine_api.BudgetWindow.Impact.RoundTrip.{model_validate-model_dump}
use policyengine_api.Base.Int.{pos}
use policyengine_api.BudgetWindow.Store.Writes.{
  store_submitted-writes, set_execution_failure-writes,
}
use policyengine_api.BudgetWindow.Service.Results.{
  queued_only, store_failure, replay_failure, result_by_status,
}
use policyengine_api.BudgetWindow.Service.Request.{
  Environment, Request, begin, restore_report_id, resolve_observability_id,
}
use policyengine_api.BudgetWindow.Service.Submission.{
  is_refusal, start_batch, release_claim, submission_failed, submit_claimed, answer, queued_result,
}
use policyengine_api.BudgetWindow.Service.Fresh.{
  Holds, clear_starting_claim-held, owner, answer-Holds,
}

restore_report_id-total :
    (env : Environment) (id : Option String) (q : Request) → (restore_report_id env id q).0 ≡ ok tt
unfolding restore_report_id
restore_report_id-total env id q = ground arith

-- a stored failure answers the next request
replays :
    (env : Environment) (k token : String) (years : List String) (r : Impact) (id : Option String)
    → r.data_fields ≡ none
    → (w : World) → IsCalm w
    → view w.backend (state_key k)
      ≡ some (encoded_state (failed_state FailureType.execution (model_dump r) id))
    → (answer env k token years (begin w)).0 ≡ ok (record r { cache_status = some "failure-hit" })
unfolding answer result_by_status replay_failure
replays env k token years r id plain w calm stored =
    let g = get_state-IsCalm k w (state_key k) calm in
    let s = failed_state FailureType.execution (model_dump r) id in
    let found : (get_state k w).0 ≡ ok (some (sorted s)) =
      g.0 ∙ rw (stored, decode_state-encoded_state s (unfold validated in refl)) refl in
    rw (found, restore_report_id-total, model_validate-model_dump r, plain) refl

module _ (env : Environment) (k claim_token : String) (named : str_eq claim_token "" ≡ false) where
  -- the gateway's error, other than a refusal, with the claim released
  submit_claimed-fails :
      (years : List String) (e : Error) (id : String) (q : Request)
      → Holds k claim_token id q
      → env.submit ≡ raised e
      → is_refusal e ≡ false
      → let r = submit_claimed env k claim_token years q in
        (r.0 ≡ raised e) × (view r.1.cache.backend (state_key k) ≡ none) × IsCalm r.1.cache
  unfolding submit_claimed start_batch submission_failed release_claim
  submit_claimed-fails years e id q h failed other =
      let c = clear_starting_claim-held k claim_token named (some id) q.cache h.calm h.held in
      rw (failed, other, h.named, c.0) (refl, c.1, c.2)

  submit_claimed-succeeds :
      (years : List String) (job id : String) (q : Request)
      → Holds k claim_token id q
      → env.submit ≡ ok job
      → str_eq job "" ≡ false
      → let r = submit_claimed env k claim_token years q in
        (r.0 ≡ ok none)
        × (view r.1.cache.backend (state_key k)
            ≡ some (encoded_state (submitted_state job (some id))))
        × IsCalm r.1.cache
  unfolding submit_claimed start_batch
  submit_claimed-succeeds years job id q h submitted filled =
      let c = store_submitted-writes k q.cache h.calm job (some id) filled in
      rw (submitted, h.named, c.0) (refl, c.1, c.2)

  abbrev refusal : List String → Impact
  refusal years = failed_impact env.refusal_message (queued_only years) (some "miss")

  submit_claimed-refused :
      (years : List String) (e : Error) (id : String) (n : ℕ) (q : Request)
      → Holds k claim_token id q
      → env.submit ≡ raised e
      → is_refusal e ≡ true
      → env.randint 0 259_200 ≡ pos n
      → n ≤ 259_200
      → let r = submit_claimed env k claim_token years q in
        (r.0 ≡ ok (some (refusal years)))
        × (view r.1.cache.backend (state_key k)
            ≡ some (
                encoded_state
                  (failed_state FailureType.execution (model_dump (refusal years)) (some id))))
        × IsCalm r.1.cache
  unfolding submit_claimed start_batch submission_failed store_failure
  submit_claimed-refused years e id n q h refused is chosen small =
      let c =
        set_execution_failure-writes k q.cache h.calm env.randint n (model_dump (refusal years))
          (some id) chosen small in
      rw (refused, is, h.named, c.0) (refl, c.1, c.2)

  module _ (id : String)
      (incoming : resolve_observability_id env env.incoming_observability_id ≡ id)
      (normal : env.normalize id ≡ some id) (policies : env.load_policies ≡ ok tt) (w : World)
      (calm : IsCalm w) (free : view w.backend (state_key k) ≡ none) where
    -- Where no command fails, a first request that the gateway answers by an error other than a
    -- refusal raises that error and
    -- leaves the report's key free. The report had no state, the policies load, the claim token is
    -- not empty and the request's correlation id is normal.
    pub answer_releases_claim :
        (years : List String) (e : Error)
        → env.submit ≡ raised e
        → is_refusal e ≡ false
        → let r = answer env k claim_token years (begin w) in
          (r.0 ≡ raised e) × (view r.1.cache.backend (state_key k) ≡ none) × IsCalm r.1.cache
    answer_releases_claim years e failed other =
        let first = owner env k claim_token named id incoming normal policies w calm free in
        let (holds, same) =
          answer-Holds env k claim_token named id incoming normal policies w calm free years in
        let c = submit_claimed-fails years e id first holds failed other in
        rw same (rw c.0 (refl, c.1, c.2))

    -- Where no command fails, a first request whose batch the gateway accepts reports its years as
    -- queued and leaves the submitted state, with the job's id and the request's correlation id.
    -- The report had no state, the policies load, the claim token and the job's id are not
    -- empty, and the correlation id is normal.
    pub answer_stores_job :
        (years : List String) (job : String)
        → env.submit ≡ ok job
        → str_eq job "" ≡ false
        → let r = answer env k claim_token years (begin w) in
          (r.0 ≡ ok (queued_result env k claim_token years "miss"))
          × (view r.1.cache.backend (state_key k)
              ≡ some (encoded_state (submitted_state job (some id))))
          × IsCalm r.1.cache
    answer_stores_job years job submitted filled =
        let first = owner env k claim_token named id incoming normal policies w calm free in
        let (holds, same) =
          answer-Holds env k claim_token named id incoming normal policies w calm free years in
        let c = submit_claimed-succeeds years job id first holds submitted filled in
        rw same (rw c.0 (refl, c.1, c.2))

    answer-refused :
        (years : List String) (e : Error) (n : ℕ)
        → env.submit ≡ raised e
        → is_refusal e ≡ true
        → env.randint 0 259_200 ≡ pos n
        → n ≤ 259_200
        → let r = answer env k claim_token years (begin w) in
          (r.0 ≡ ok (refusal years))
          × (view r.1.cache.backend (state_key k)
              ≡ some (
                  encoded_state
                    (failed_state FailureType.execution (model_dump (refusal years)) (some id))))
          × IsCalm r.1.cache
    answer-refused years e n refused is chosen small =
        let first = owner env k claim_token named id incoming normal policies w calm free in
        let (holds, same) =
          answer-Holds env k claim_token named id incoming normal policies w calm free years in
        let c = submit_claimed-refused years e id n first holds refused is chosen small in
        rw same (rw c.0 (refl, c.1, c.2))

    -- Where no command fails, a refusal of the gateway (400 or 422) fails the first request, and the
    -- next request for the report, whatever its token, years and environment, has the same failure
    -- from the cache. The report had no state, the policies load, the claim token is
    -- not empty, the correlation id is normal and the random choice is in its range.
    pub refusal_replayed :
        (years : List String) (e : Error) (n : ℕ) (later : Environment) (token : String)
        (later_years : List String)
        → env.submit ≡ raised e
        → is_refusal e ≡ true
        → env.randint 0 259_200 ≡ pos n
        → n ≤ 259_200
        → let first = answer env k claim_token years (begin w) in
          (first.0 ≡ ok (refusal years))
          × ((answer later k token later_years (begin first.1.cache)).0
              ≡ ok (record (refusal years) { cache_status = some "failure-hit" }))
    unfolding failed_impact
    refusal_replayed years e n later token later_years refused is chosen small =
        let c = answer-refused years e n refused is chosen small in
        (
          c.0,
          replays later k token later_years (refusal years) (some id) refl
              (answer env k claim_token years (begin w)).1.cache c.2 c.1,
        )
