-- ===== src/BudgetWindow/Service/Fresh.antt =====
-- services/economy_budget_window_submission.py: the first request for a report, from a cache without
-- a state to the owner of the claim. What the gateway's answer makes of it is in Outcomes.
pub mod Outcomes
use policyengine_api.Base.{
  ℕ, suc, ◌<◌, ◌≡◌, ◌≤◌, ◌∙◌, refl, String, List, [], ◌∷◌, Option, none, some, Bool, true, false,
  arith, str_eq, eq_refl, if◌then◌else◌, not, ◌&&◌, is_some,
}
use policyengine_api.Json.{CacheText}
use policyengine_api.Json.Canonical.{dumps}
use policyengine_api.Effect.{
  Error, Result, ok, raised, Exec, pure, lift, gets, attempt, ◌>>=◌, ◌>>◌,
}
use policyengine_api.Cache.Backend.Expiry.{view}
use policyengine_api.Cache.Backend.Commands.{holds}
use policyengine_api.Cache.Client.{World, IsCalm}
use policyengine_api.Cache.Claims.Methods.{empty_text}
use policyengine_api.Cache.Claims.Replies.{acquire_lem, release_lem}
use policyengine_api.Cache.Core.{encode_envelope}
use policyengine_api.Json.Equality.{text_eq_self}
use policyengine_api.BudgetWindow.State.{State, FailureType, validated, sorted}
use policyengine_api.BudgetWindow.Store.{
  family, state_key, encoded_state, starting_state, starting_ttl_seconds, get_state,
  claim_batch_start, clear_starting_claim, submitted_state, failed_state,
}
use policyengine_api.BudgetWindow.Store.Reads.{get_state-IsCalm, decode_state-encoded_state}
use policyengine_api.BudgetWindow.Impact.{Impact, model_dump, failed_impact}
use policyengine_api.BudgetWindow.Impact.RoundTrip.{model_validate-model_dump}
use policyengine_api.Base.Int.{ℤ, pos}
use policyengine_api.BudgetWindow.Store.Writes.{
  store_submitted-writes, set_execution_failure-writes,
}
use policyengine_api.BudgetWindow.Service.Results.{
  queued_only, store_failure, replay_failure, result_by_status,
}
use policyengine_api.BudgetWindow.Service.Request.{
  Environment, Request, begin, on_cache, restore_report_id, resolve_observability_id,
  start_observability_id,
}
use policyengine_api.BudgetWindow.Service.Submission.{
  is_refusal, claim_attempts, claim_start, start_batch, release_claim, submission_failed,
  submit_claimed, submit_report, answer, queued_result, when_owned,
}

abbrev claim_text : String → Option String → CacheText
claim_text claim_token id = encoded_state (starting_state claim_token id)

module _ (k claim_token : String) (named : str_eq claim_token "" ≡ false) (id : Option String)
    (w : World) (calm : IsCalm w) where
  claim_batch_start-free :
      view w.backend (state_key k) ≡ none
      → let r = claim_batch_start k claim_token id w in
        (r.0 ≡ ok true)
        × (view r.1.backend (state_key k) ≡ some (claim_text claim_token id))
        × IsCalm r.1
  unfolding claim_batch_start validated
  claim_batch_start-free free =
      let a =
        acquire_lem family (state_key k) (claim_text claim_token id) w calm starting_ttl_seconds
          (state_key k) (omega arith) (unfold encoded_state encode_envelope dumps in refl) in
      rw named (ground (arith, a, free, eq_refl (state_key k)))

  clear_starting_claim-held :
      view w.backend (state_key k) ≡ some (claim_text claim_token id)
      → let r = clear_starting_claim k claim_token id w in
        (r.0 ≡ ok tt) × (view r.1.backend (state_key k) ≡ none) × IsCalm r.1
  unfolding clear_starting_claim validated
  clear_starting_claim-held held =
      let a = release_lem family (state_key k) (claim_text claim_token id) w calm (state_key k) in
      rw named
        (ground (arith, a, held, eq_refl (state_key k), text_eq_self (claim_text claim_token id)))

-- The request holds the claim, under its own correlation id.
record Holds (k claim_token id : String) (q : Request) : Type 0 where
  pub calm : IsCalm q.cache
  pub named : q.observability_id ≡ some id
  pub held : view q.cache.backend (state_key k) ≡ some (claim_text claim_token (some id))

module _ (env : Environment) (k claim_token : String) (named : str_eq claim_token "" ≡ false) where
  claim_start-Holds :
      (attempts : ℕ) (id : String) (q : Request)
      → IsCalm q.cache
      → q.current_id ≡ none
      → env.normalize id ≡ some id
      → view q.cache.backend (state_key k) ≡ none
      → let r = claim_start env k claim_token (suc attempts) id q in
        (r.0 ≡ ok true) × Holds k claim_token id r.1
  unfolding claim_start start_observability_id resolve_observability_id
  claim_start-Holds attempts id q calm unset normal free =
      let c = claim_batch_start-free k claim_token named (some id) q.cache calm free in
      rw (c.0, unset, normal, normal) (refl, record { calm = c.2; named = refl; held = c.1 })

  module _ (id : String)
      (incoming : resolve_observability_id env env.incoming_observability_id ≡ id)
      (normal : env.normalize id ≡ some id) (policies : env.load_policies ≡ ok tt) (w : World)
      (calm : IsCalm w) (free : view w.backend (state_key k) ≡ none) where
    submit_report-Holds :
        (years : List String) (q : Request)
        → IsCalm q.cache
        → q.current_id ≡ none
        → view q.cache.backend (state_key k) ≡ none
        → let q' = (claim_start env k claim_token claim_attempts id q).1 in
          Holds k claim_token id q'
          × (submit_report env k claim_token years q ≡ when_owned env k claim_token years true q')
    unfolding submit_report
    submit_report-Holds years q calm unset free =
        let c = claim_start-Holds 2 id q calm unset normal free in
        rw (policies, incoming) (c.1, rw c.0 refl)

    -- the request as it holds the claim
    owner : Request
    owner =
        (claim_start env k claim_token claim_attempts id
          (record (begin w) { cache = (get_state k w).1 })).1

    answer-Holds :
        (years : List String)
        → Holds k claim_token id owner
          × (answer env k claim_token years (begin w)
              ≡ when_owned env k claim_token years true owner)
    unfolding answer owner
    answer-Holds years =
        let r = get_state-IsCalm k w (state_key k) calm in
        let reply : (get_state k w).0 ≡ ok none = ground (arith, r.0, free) in
        let gone : view (get_state k w).1.backend (state_key k) ≡ none =
          ground (arith, r.1, free) in
        rw reply
          (submit_report-Holds years (record (begin w) { cache = (get_state k w).1 }) r.2 refl gone)
