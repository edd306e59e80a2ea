-- ===== src/Annual/Submission/Once.antt =====
-- services/economy_service.py: the number of jobs that one request sends.
use policyengine_api.Base.{
  String, List, [], ◌∷◌, ◌++◌, Option, none, some, false, ◌≡◌, refl, ◌∙◌, ◌⊎◌, inl, inr,
}
use policyengine_api.Json.{Fields}
use policyengine_api.Effect.{Result, ok, raised, Exec, lift, gets, attempt, ◌>>=◌}
use policyengine_api.Effect.Keeps.{Keeps-pure, Keeps-raise, Keeps-lift, Keeps-gets, Keeps-attempt}
use policyengine_api.ReformImpacts.Records.{CachedReformImpact}
use policyengine_api.ReformImpacts.StartClaims.{StartClaim}
use policyengine_api.Annual.Setup.{SetupOptions}
use policyengine_api.Annual.Request.{Environment, Session, ImpactAction, EconomicImpactResult}
use policyengine_api.Annual.Stored.{get_reusable_impact, determine_impact_action}
use policyengine_api.Annual.Quiet.{
  Sent, Quiet, get_reusable_impact-Quiet, handle_computing-Quiet, handle_failed-Quiet,
  handle_completed-Quiet,
}
use policyengine_api.Annual.Submission.{
  get_policy_jsons, run_job, refused, hand_off, handle_create_impact, claim_submission,
  submission_failed, release_after, submit_unless_claimed, create_economic_impact, restore_stored,
  answer_by_action, get_or_create_economic_impact,
}
use policyengine_api.Annual.Submission.Unsent.{
  claim_submission-Quiet, get_policy_jsons-Quiet, restore_stored-Quiet, refused-Quiet,
  hand_off-Quiet, submission_failed-Quiet, release_after-Quiet,
}

-- Nothing more was sent, or one job with the token, which is kept.
abbrev pub SentOnce : List String → String → Session → Type 0
SentOnce sent token s = Sent sent token s ⊎ Sent (sent ++ token ∷ []) token s

SentOnce-move :
    (sent sent' : List String) (token token' : String) (s : Session)
    → sent' ≡ sent
    → token' ≡ token
    → SentOnce sent' token' s
    → SentOnce sent token s
SentOnce-move sent sent' token token' s e k (inl (a, b)) = inl (a ∙ e, b ∙ k)
SentOnce-move sent sent' token token' s e k (inr (a, b)) = inr (a ∙ rw (e, k) refl, b ∙ k)

-- The method sends no job, or one that carries the request's claim token, and keeps the token.
record SendsAtMostOne {A : Type 0} (m : Exec Session A) : Type 0 where
  pub at : (s : Session) → SentOnce s.submissions s.setup.submission_claim_id (m s).1

Quiet-SendsAtMostOne :
    {A : Type 0} {m : Exec Session A}
    → ((sent : List String) (token : String) → Quiet sent token m)
    → SendsAtMostOne m
Quiet-SendsAtMostOne q = record {
  at = λ s. inl ((q s.submissions s.setup.submission_claim_id).at s (refl, refl));
}

module _ {A B : Type 0} where
  sends_continue :
      (r : Result A) (f : A → Exec Session B)
      → ((a : A) → SendsAtMostOne (f a))
      → SendsAtMostOne (lift r >>= f)
  sends_continue (ok a) f sf = sf a
  sends_continue (raised e) f sf = record { at = λ s. inl (refl, refl) }

  sends_bind :
      (m : Exec Session A) (f : A → Exec Session B)
      → ((sent : List String) (token : String) → Quiet sent token m)
      → ((a : A) → SendsAtMostOne (f a))
      → SendsAtMostOne (m >>= f)
  sends_bind m f qm sf = record {
    at = λ s.
        let (sent, token) = (qm s.submissions s.setup.submission_claim_id).at s (refl, refl) in
        SentOnce-move s.submissions (m s).1.submissions s.setup.submission_claim_id
          (m s).1.setup.submission_claim_id (◌>>=◌ m f s).1 sent token
          ((sends_continue (m s).0 f sf).at (m s).1);
  }

module _ (env : Environment) where
  -- the method, from the moment that the job is sent
  sent-Quiet :
      (setup : SetupOptions) (sent : List String) (token : String)
      → Quiet sent token (attempt (lift env.run) (refused env setup) (hand_off env))
  sent-Quiet setup sent token =
      Keeps-attempt _ _ _ (Keeps-lift env.run) (refused-Quiet env sent token setup)
        (hand_off-Quiet env sent token)

  run-sends :
      (setup : SetupOptions)
      → SendsAtMostOne (attempt (run_job env) (refused env setup) (hand_off env))
  unfolding run_job
  run-sends setup = record {
    at = λ s.
        let sent = s.submissions ++ s.setup.submission_claim_id ∷ [] in
        inr (
          (sent-Quiet setup sent s.setup.submission_claim_id).at (record s { submissions = sent })
            (refl, refl));
  }

  handle_create_impact-sends :
      (policies : Fields × Fields) → SendsAtMostOne (handle_create_impact env policies)
  unfolding handle_create_impact
  handle_create_impact-sends (baseline, reform) =
      sends_bind (gets (λ s. s.setup)) _ (λ sent token. Keeps-gets _)
        (λ setup.
          sends_bind (lift (env.simulation_payload setup baseline reform)) _
            (λ sent token. Keeps-lift _) (λ _. run-sends setup))

  after-Quiet :
      (r : Result EconomicImpactResult) (sent : List String) (token : String)
      → Quiet sent token (attempt (lift r) (submission_failed env) (release_after env))
  after-Quiet r sent token =
      Keeps-attempt _ _ _ (Keeps-lift r) (submission_failed-Quiet env sent token)
        (release_after-Quiet env sent token)

  released :
      (r : Result EconomicImpactResult) (s : Session) (sent : List String) (token : String)
      → SentOnce sent token s
      → SentOnce sent token (attempt (lift r) (submission_failed env) (release_after env) s).1
  released r s sent token (inl h) = inl ((after-Quiet r sent token).at s h)
  released r s sent token (inr h) = inr ((after-Quiet r (sent ++ token ∷ []) token).at s h)

  released-sends :
      (policies : Fields × Fields)
      → SendsAtMostOne
          (attempt (handle_create_impact env policies) (submission_failed env) (release_after env))
  released-sends policies = record {
    at = λ s.
        let (r, s') = handle_create_impact env policies s in
        released r s' s.submissions s.setup.submission_claim_id
          ((handle_create_impact-sends policies).at s);
  }

  submit_unless_claimed-sends :
      (policies : Fields × Fields) (claim : Option StartClaim)
      → SendsAtMostOne (submit_unless_claimed env policies claim)
  submit_unless_claimed-sends policies none = released-sends policies
  submit_unless_claimed-sends policies (some claim) =
      Quiet-SendsAtMostOne (λ sent token. Keeps-pure _)

  create-sends : SendsAtMostOne (create_economic_impact env)
  unfolding create_economic_impact
  create-sends =
      sends_bind (gets (λ s. s.setup)) _ (λ sent token. Keeps-gets _)
        (λ setup.
          sends_bind (get_policy_jsons env setup) _
            (λ sent token. get_policy_jsons-Quiet env sent token setup)
            (λ policies.
              sends_bind (claim_submission env) _ (claim_submission-Quiet env)
                (submit_unless_claimed-sends policies)))

  answer_by_action-sends :
      (action : ImpactAction) (impact : Option CachedReformImpact)
      → SendsAtMostOne (answer_by_action env action impact)
  answer_by_action-sends ImpactAction.create impact = create-sends
  answer_by_action-sends ImpactAction.completed none =
      Quiet-SendsAtMostOne (λ sent token. Keeps-raise _)
  answer_by_action-sends ImpactAction.failed none =
      Quiet-SendsAtMostOne (λ sent token. Keeps-raise _)
  answer_by_action-sends ImpactAction.computing none =
      Quiet-SendsAtMostOne (λ sent token. Keeps-raise _)
  answer_by_action-sends ImpactAction.completed (some impact) =
      Quiet-SendsAtMostOne (λ sent token. handle_completed-Quiet sent token env impact)
  answer_by_action-sends ImpactAction.failed (some impact) =
      Quiet-SendsAtMostOne (λ sent token. handle_failed-Quiet sent token env impact)
  answer_by_action-sends ImpactAction.computing (some impact) =
      Quiet-SendsAtMostOne (λ sent token. handle_computing-Quiet sent token env impact)

  get_or_create-sends : SendsAtMostOne (get_or_create_economic_impact env)
  unfolding get_or_create_economic_impact
  get_or_create-sends =
      sends_bind (get_reusable_impact env false) _
        (λ sent token. get_reusable_impact-Quiet sent token env false)
        (λ impact.
          sends_bind (lift (determine_impact_action impact)) _ (λ sent token. Keeps-lift _)
            (λ action.
              sends_bind (restore_stored env impact) _
                (λ sent token. restore_stored-Quiet env sent token impact)
                (λ _. answer_by_action-sends action impact)))

  -- A request sends the gateway nothing or one job, and that under its own claim token, whatever the
  -- cache's commands, the policy table, the worker resolution and the gateway do.
  pub get_or_create_sends_at_most_once :
      (s : Session)
      → let now = (get_or_create_economic_impact env s).1.submissions in
        (now ≡ s.submissions) ⊎ (now ≡ s.submissions ++ s.setup.submission_claim_id ∷ [])
  get_or_create_sends_at_most_once s = elim (get_or_create-sends.at s) [
    | inl unsent ↦ inl unsent.0
    | inr sent ↦ inr sent.0
  ]
