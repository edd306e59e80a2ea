-- ===== src/BudgetWindow/Service/Once.antt =====
-- services/economy_budget_window_submission.py: the number of submissions that one request sends.
use mathlib.Core.Path.{subst}
use policyengine_api.Cache.Client.{World}
use policyengine_api.Base.{
  ◌≡◌, refl, ap, ◌∙◌, ℕ, zero, suc, String, List, [], ◌∷◌, ◌++◌, Option, none, some, Bool, true,
  false, ◌⊎◌, inl, inr,
}
use policyengine_api.Effect.{
  Error, Result, ok, raised, Exec, pure, lift, gets, attempt, ◌>>=◌, ◌>>◌,
}
use policyengine_api.BudgetWindow.State.{State}
use policyengine_api.BudgetWindow.Store.{
  get_state, claim_batch_start, clear_starting_claim, store_submitted,
}
use policyengine_api.BudgetWindow.Impact.{Impact}
use policyengine_api.BudgetWindow.Service.Request.{
  Environment, Request, on_cache, begin, restore_report_id, resolve_observability_id,
}
use policyengine_api.Effect.Keeps.{
  Keeps, Keeps-bind, Keeps-pure, Keeps-raise, Keeps-lift, Keeps-gets, Keeps-attempt, keeps_rules,
}
use policyengine_api.BudgetWindow.Service.Found.{
  Upheld, start-Keeps, restore-Keeps, on_cache-Keeps, store_failure-Keeps, result_by_status-Keeps,
}
use policyengine_api.BudgetWindow.Service.Results.{store_failure, result_by_status}
use policyengine_api.Json.{Fields}
use policyengine_api.BudgetWindow.Service.Owned.{Claimed, claim_start-Claimed}
use policyengine_api.BudgetWindow.Service.Submission.{
  own_or, adopt_or_retry, when_owned, rejected_or_queued, answer_state, claim_attempts, claim_start,
  start_batch, submit_claimed, submission_failed, release_claim, submit_report, answer,
}

-- The submissions so far are these, whatever the cache holds.
abbrev Sent : List Fields → World → List Fields → Type 0
Sent sent w now = now ≡ sent

-- The method sends nothing.
abbrev Quiet : {A : Type 0} → Exec Request A → Type 0
Quiet m = (sent : List Fields) → Keeps (Upheld (Sent sent)) m

Quiet-on_cache : {A : Type 0} (m : Exec World A) → Quiet (on_cache m)
Quiet-on_cache m sent = on_cache-Keeps (Sent sent) m (λ now. record { at = λ w h. h })

Quiet-bind :
    {A B : Type 0} (m : Exec Request A) (f : A → Exec Request B)
    → Quiet m
    → ((a : A) → Quiet (f a))
    → Quiet (m >>= f)
Quiet-bind m f qm qf sent = Keeps-bind m f (qm sent) (λ a. qf a sent)

module _ (env : Environment) (cache_key claim_token : String) (sent : List Fields) where
  release_claim-Quiet : Keeps (Upheld (Sent sent)) (release_claim env cache_key claim_token)
  unfolding release_claim
  release_claim-Quiet =
      Keeps-bind (gets (λ s. s.observability_id)) _ (Keeps-gets _)
        (λ id. Quiet-on_cache (clear_starting_claim cache_key claim_token id) sent)

  store_failure-Quiet : (r : Impact) → Keeps (Upheld (Sent sent)) (store_failure env cache_key r)
  store_failure-Quiet =
      store_failure-Keeps (Sent sent) env cache_key
        (λ s operation now valid. record { at = λ w h. h })

  submission_failed-Quiet :
      (years : List String) (e : Error)
      → Keeps (Upheld (Sent sent)) (submission_failed env cache_key claim_token years e)
  unfolding submission_failed
  submission_failed-Quiet years e = search (keeps_rules, store_failure-Quiet, release_claim-Quiet)

  own_or-Quiet :
      (claimed : Bool) (candidate : String) (other : Exec Request Bool)
      → Keeps (Upheld (Sent sent)) other
      → Keeps (Upheld (Sent sent)) (own_or env cache_key claim_token claimed candidate other)
  own_or-Quiet true candidate other k =
      Keeps-bind _ _ (start-Keeps (Sent sent) env candidate) (λ started. record { at = λ s h. h })
  own_or-Quiet false candidate other k = k

  adopt_or_retry-Quiet :
      (state : Option State) (retry : Exec Request Bool)
      → Keeps (Upheld (Sent sent)) retry
      → Keeps (Upheld (Sent sent)) (adopt_or_retry env cache_key claim_token state retry)
  adopt_or_retry-Quiet none retry k = k
  adopt_or_retry-Quiet (some s) retry k =
      Keeps-bind _ _ (restore-Keeps (Sent sent) env s.observability_id) (λ _. Keeps-pure false)

  claim_start-Quiet :
      (attempts : ℕ) (candidate : String)
      → Keeps (Upheld (Sent sent)) (claim_start env cache_key claim_token attempts candidate)
  unfolding claim_start
  claim_start-Quiet zero candidate = Keeps-raise _
  claim_start-Quiet (suc attempts) candidate =
      let again = claim_start-Quiet attempts candidate in
      Keeps-bind _ _
        (Quiet-on_cache (claim_batch_start cache_key claim_token (some candidate)) sent)
        (λ claimed. own_or-Quiet claimed candidate _ (
          Keeps-bind _ _ (Quiet-on_cache (get_state cache_key) sent)
            (λ state. adopt_or_retry-Quiet state _ again)))

  found-Quiet :
      (s : State) (years : List String)
      → Keeps (Upheld (Sent sent)) (
          restore_report_id env s.observability_id
          >> result_by_status env cache_key s.status s years)
  found-Quiet s years = Keeps-bind _ _ (restore-Keeps (Sent sent) env s.observability_id) (λ _.
      result_by_status-Keeps (Sent sent) env cache_key
        (λ s operation now valid. record { at = λ w h. h }) s.status s years)

  submitted-Quiet :
      (years : List String)
      → Keeps (Upheld (Sent sent)) (
          attempt
            (do
              batch_job_id ← lift env.submit
              observability_id ← gets (λ q. q.observability_id)
              on_cache (store_submitted cache_key batch_job_id observability_id))
            (submission_failed env cache_key claim_token years)
            (λ _. pure none))
  submitted-Quiet years =
      Keeps-attempt _ _ _
        (Keeps-bind (lift env.submit) _ (Keeps-lift env.submit) (λ id.
          Keeps-bind (gets (λ q. q.observability_id)) _ (Keeps-gets _) (λ observability_id.
            Quiet-on_cache (store_submitted cache_key id observability_id) sent)))
        (submission_failed-Quiet years) (λ _. Keeps-pure none)

-- The method sends nothing, or the payload once, and that where `R` holds of the request.
record SendsOnce {A : Type 0} (payload : Fields) (R : Request → Type 0) (m : Exec Request A)
    : Type 0 where
  pub at :
      (s : Request)
      → ((m s).1.submissions ≡ s.submissions)
        ⊎ (((m s).1.submissions ≡ s.submissions ++ payload ∷ []) × R s)

Quiet-SendsOnce :
    {A : Type 0} (payload : Fields) (R : Request → Type 0) {m : Exec Request A}
    → Quiet m
    → SendsOnce payload R m
Quiet-SendsOnce payload R q = record { at = λ s. inl ((q s.submissions).at s refl) }

module _ {A B : Type 0} (payload : Fields) where
  sends_continue :
      (r : Result A) (f : A → Exec Request B) (R : A → Request → Type 0)
      → ((a : A) → SendsOnce payload (R a) (f a))
      → SendsOnce payload (λ s. (a : A) × (r ≡ ok a) × R a s) (lift r >>= f)
  sends_continue (ok a) f R sf = record {
    at = λ s. elim ((sf a).at s) [ inl kept ↦ inl kept | inr (sent, h) ↦ inr (sent, (a, refl, h)) ];
  }
  sends_continue (raised e) f R sf = record { at = λ s. inl refl }

  -- `R` holds after the first part, of what that returns.
  sends_bind :
      (m : Exec Request A) (f : A → Exec Request B) (R : A → Request → Type 0)
      → Quiet m
      → ((a : A) → SendsOnce payload (R a) (f a))
      → SendsOnce payload (λ s. (a : A) × ((m s).0 ≡ ok a) × R a (m s).1) (m >>= f)
  sends_bind m f R qm sf = record {
    at = λ s.
        subst
          (λ (before : List Fields).
            ((◌>>=◌ m f s).1.submissions ≡ before)
            ⊎ (((◌>>=◌ m f s).1.submissions ≡ before ++ payload ∷ [])
                × ((a : A) × ((m s).0 ≡ ok a) × R a (m s).1)))
          ((qm s.submissions).at s refl) ((sends_continue (m s).0 f R sf).at (m s).1);
  }

sends_where :
    {A : Type 0} {payload : Fields} (R P : Request → Type 0) (m : Exec Request A)
    → SendsOnce payload R m
    → ((s : Request) → R s → P s)
    → SendsOnce payload P m
sends_where R P m sends implied = record {
  at = λ s. elim (sends.at s) [ inl kept ↦ inl kept | inr (sent, h) ↦ inr (sent, implied s h) ];
}

module _ (env : Environment) (cache_key claim_token : String) (years : List String) where
  submit_claimed-sends :
      (s : Request)
      → (submit_claimed env cache_key claim_token years s).1.submissions
        ≡ s.submissions ++ env.batch_payload ∷ []
  unfolding submit_claimed start_batch
  submit_claimed-sends s =
      let sent = s.submissions ++ env.batch_payload ∷ [] in
      (submitted-Quiet env cache_key claim_token sent years).at (record s { submissions = sent })
        refl

  rejected_or_queued-Quiet :
      (o : Option Impact) → Quiet (rejected_or_queued env cache_key claim_token years o)
  rejected_or_queued-Quiet none sent = Keeps-pure _
  rejected_or_queued-Quiet (some r) sent = Keeps-pure r

  when_owned-sends :
      (owned : Bool)
      → SendsOnce env.batch_payload
          (λ s. owned ≡ true)
          (when_owned env cache_key claim_token years owned)
  when_owned-sends true = record {
    at = λ s.
        let (r, s') = submit_claimed env cache_key claim_token years s in
        inr (
          (Quiet-bind (lift r) (rejected_or_queued env cache_key claim_token years)
                (λ sent. Keeps-lift _) rejected_or_queued-Quiet
                (s.submissions ++ env.batch_payload ∷ [])).at
              s' (submit_claimed-sends s),
          refl,
        );
  }
  when_owned-sends false = record { at = λ s. inl refl }

  abbrev candidate : String
  candidate = resolve_observability_id env env.incoming_observability_id

  abbrev Owns : World → Type 0
  Owns w = Claimed cache_key claim_token candidate claim_attempts w

  submit_report-sends :
      SendsOnce env.batch_payload
        (λ s. Owns s.cache)
        (submit_report env cache_key claim_token years)
  unfolding submit_report
  submit_report-sends =
      let start = claim_start env cache_key claim_token claim_attempts candidate in
      let owned =
        sends_bind env.batch_payload start (when_owned env cache_key claim_token years)
          (λ owns s. owns ≡ true)
          (λ sent. claim_start-Quiet env cache_key claim_token sent claim_attempts candidate)
          when_owned-sends in
      let claimed =
        sends_where _ (λ s. Owns s.cache) _ owned
          (λ s (owns, returned, own).
            claim_start-Claimed env cache_key claim_token candidate claim_attempts s
              (returned ∙ ap ok own)) in
      sends_where _ _ _
        (sends_bind {A = Unit {0}} env.batch_payload (lift env.load_policies) _
          (λ u s. Owns s.cache) (λ sent. Keeps-lift env.load_policies) (λ _. claimed))
        (λ s (u, returned, own). own)

  answer_state-sends :
      (state : Option State)
      → SendsOnce env.batch_payload
          (λ s. (state ≡ none) × Owns s.cache)
          (answer_state env cache_key claim_token years state)
  answer_state-sends none = sends_where _ _ _ submit_report-sends (λ s own. (refl, own))
  answer_state-sends (some s) =
      Quiet-SendsOnce env.batch_payload _
        (λ sent. found-Quiet env cache_key claim_token sent s years)

  -- A request sends the gateway nothing, or the batch's payload and no more than once. It sends it only
  -- where it read that no state is stored and was then granted the claim of the key under its own
  -- token, by one of at most three attempts: the first, or one after attempts that were refused
  -- and that each then found no state. The cache's commands, the policy tables and the gateway may
  -- answer anything.
  pub answer_submits_once :
      (w : World)
      → let sent = (answer env cache_key claim_token years (begin w)).1.submissions in
        let (state, after) = get_state cache_key w in
        (sent ≡ [])
        ⊎ ((sent ≡ env.batch_payload ∷ [])
            × (state ≡ ok none)
            × Claimed cache_key claim_token
                (resolve_observability_id env env.incoming_observability_id)
                3
                after)
  unfolding answer
  answer_submits_once w =
      elim ((sends_bind env.batch_payload (on_cache (get_state cache_key))
          (answer_state env cache_key claim_token years) (λ state s. (state ≡ none) × Owns s.cache)
          (Quiet-on_cache _) answer_state-sends).at
        (begin w)) [
          | inl kept ↦ inl kept
          | inr (sent, (state, read, (missing, own))) ↦ inr (sent, read ∙ ap ok missing, own)
        ]

  -- A request that reads a stored state sends nothing.
  pub answer_found_submits_nothing :
      (w : World) (s : State)
      → (get_state cache_key w).0 ≡ ok (some s)
      → (answer env cache_key claim_token years (begin w)).1.submissions ≡ []
  unfolding answer
  answer_found_submits_nothing w s found = rw found (
      (found-Quiet env cache_key claim_token [] s years).at
        (record (begin w) { cache = (get_state cache_key w).1 }) refl)
