-- ===== src/ReformImpacts/StartClaims/Expires.antt =====
-- runtime_cache/reform_impacts.py: a start claim that is not released.
use policyengine_api.Base.{
  ℕ, ◌*◌, ◌≡◌, refl, ◌∙◌, ap, String, Option, none, some, false, not, is_some, ltb, leb, str_eq,
  if◌then◌else◌, arith,
}
use policyengine_api.Effect.{ok}
use policyengine_api.Json.Canonical.{dumps}
use policyengine_api.Cache.Backend.Commands.{second}
use policyengine_api.Cache.Backend.Expiry.{view, view-advance-claim}
use policyengine_api.Cache.Client.{World, IsCalm, pass, pass-IsCalm}
use policyengine_api.Cache.Claims.Methods.{acquire, empty_text}
use policyengine_api.Cache.Claims.Replies.{acquire_lem, acquire-IsCalm}
use policyengine_api.Cache.Core.{encode_envelope}
use policyengine_api.ReformImpacts.StartClaims.{
  family, start_claim_ttl_seconds, encoded_start_claim, claim_start,
}
use policyengine_api.ReformImpacts.StartClaims.Lifecycle.{claim, claim_start-acquire}

-- whether a key that may hold a value that long is free
free_after :
    {A : Type 0} (a : A) (seconds elapsed : ℕ)
    → not (is_some (if ltb elapsed (seconds * second) then some a else none))
      ≡ leb (seconds * second) elapsed
free_after a seconds elapsed = ground arith

-- A claim that its owner never releases, as after a crash, excludes every other worker for five
-- minutes to the microsecond, and then the next one takes it. No command fails, the key was free,
-- tokens are not empty, and canonical identifiers normalize to themselves.
pub start_claim_expires :
    (normalize : String → Option String) (token given id rival rival_given rival_id k : String)
    (elapsed : ℕ) (w : World)
    → IsCalm w
    → view w.backend k ≡ none
    → str_eq token "" ≡ false
    → normalize given ≡ some id
    → normalize id ≡ some id
    → str_eq rival "" ≡ false
    → normalize rival_given ≡ some rival_id
    → normalize rival_id ≡ some rival_id
    → let claimed = (claim_start normalize k token given w).1 in
      (claim_start normalize k rival rival_given (pass elapsed claimed)).0
      ≡ ok (leb (start_claim_ttl_seconds * second) elapsed)
start_claim_expires normalize token given id rival rival_given rival_id k elapsed w calm free filled
      named normal rival_filled rival_named rival_normal =
    let mine = encoded_start_claim (claim token id) in
    let theirs = encoded_start_claim (claim rival rival_id) in
    let text_mine : empty_text mine ≡ false =
      unfold encoded_start_claim encode_envelope dumps in refl in
    let text_theirs : empty_text theirs ≡ false =
      unfold encoded_start_claim encode_envelope dumps in refl in
    let a = acquire-IsCalm family k mine w calm start_claim_ttl_seconds (omega arith) text_mine in
    let claimed = (acquire family k mine start_claim_ttl_seconds w).1 in
    let b =
      acquire_lem family k theirs (pass elapsed claimed) (pass-IsCalm elapsed a.2)
        start_claim_ttl_seconds k (omega arith) text_theirs in
    rw
      (
        claim_start-acquire normalize token id filled normal k given named,
        claim_start-acquire normalize rival rival_id rival_filled rival_normal k rival_given
            rival_named,
      )
      (b.0
        ∙ rw a.1 (
            rw
              (view-advance-claim w.backend k mine start_claim_ttl_seconds elapsed calm.internal
                free)
              (ap ok (free_after mine start_claim_ttl_seconds elapsed))))
