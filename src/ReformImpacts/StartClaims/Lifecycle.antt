-- ===== src/ReformImpacts/StartClaims/Lifecycle.antt =====
-- runtime_cache/reform_impacts.py: a start claim that is taken, read and released.
use policyengine_api.Base.{
  ◌≡◌, ◌≢◌, refl, ◌∙◌, String, Option, none, some, true, false, str_eq, eq_refl, arith, inl, inr,
  Bool-cases,
}
use policyengine_api.Json.{CacheText, obj, get}
use policyengine_api.Json.Canonical.{canonical, dumps, get-canonical_fields}
use policyengine_api.Json.Equality.{text_eq, text_eq_self, text_eq_iff}
use policyengine_api.Effect.{Result, ok, raised, coordination_error, attempt-reply}
use policyengine_api.Cache.Backend.Expiry.{view}
use policyengine_api.Cache.Client.{World, record_cache_event, client_get, IsCalm, client_get-IsCalm}
use policyengine_api.Cache.Claims.Methods.{acquire, release, empty_text}
use policyengine_api.Cache.Claims.Replies.{acquire_lem, release_lem}
use policyengine_api.Cache.Core.{encode_envelope, decode_envelope, decode-encode_envelope}
use policyengine_api.ReformImpacts.StartClaims.{
  family, start_claim_family, schema_version, start_claim_ttl_seconds, StartClaim, to_payload,
  from_payload, encoded_start_claim, requested, claim_start, release_start, claim_of, report_claim,
  unavailable, get_start_claim,
}

abbrev pub claim : String → String → StartClaim
claim token id = record { submission_claim_id = token; observability_id = id }

module _ (normalize : String → Option String) where
  -- the reply of a read, from the text that was found
  abbrev pub owner : Option CacheText → Result (Option StartClaim)
  owner none = ok none
  owner (some text) = elim (claim_of normalize (some text)) [
    | none ↦ raised (coordination_error "reform-impact submission ownership is unreadable")
    | some c ↦ ok (some c)
  ]

  report_claim-some :
      (text : CacheText) (o : Option StartClaim) (w : World)
      → (report_claim (some text) o w).0 ≡ elim o [
        | none ↦ raised (coordination_error "reform-impact submission ownership is unreadable")
        | some c ↦ ok (some c)
      ]
  unfolding report_claim
  report_claim-some text none w = refl
  report_claim-some text (some c) w = refl

  report_claim-owner :
      (o : Option CacheText) (w : World) → (report_claim o (claim_of normalize o) w).0 ≡ owner o
  unfolding report_claim from_payload decode_envelope
  report_claim-owner none w = refl
  report_claim-owner (some text) w = report_claim-some text (claim_of normalize (some text)) w

  -- Whatever the read meets, `get_start_claim` returns the claim in the stored text, or None for a
  -- missing one; an invalid text and a failed read raise CacheCoordinationError.
  pub get_start_claim_lem :
      (k : String) (w : World)
      → (get_start_claim normalize k w).0 ≡ elim (client_get k w).0 [
        | ok value ↦ owner value
        | raised e ↦ raised (coordination_error "reform-impact submission ownership is unavailable")
      ]
  unfolding get_start_claim
  get_start_claim_lem k w =
      attempt-reply
        (λ r. elim r [
          | ok value ↦ owner value
          | raised e ↦
              raised (coordination_error "reform-impact submission ownership is unavailable")
        ])
        (client_get k) unavailable (λ encoded. report_claim encoded (claim_of normalize encoded))
        (λ e s. unfold record_cache_event in refl) (λ o s. report_claim-owner o s) w

  module _ (token id : String) (filled : str_eq token "" ≡ false)
      (normal : normalize id ≡ some id) where
    claim_of-encoded :
        claim_of normalize (some (encoded_start_claim (claim token id))) ≡ some (claim token id)
    unfolding from_payload encoded_start_claim to_payload get canonical
    claim_of-encoded =
        let fields = to_payload (claim token id) in
        rw
          (decode-encode_envelope start_claim_family start_claim_family schema_version
            schema_version (obj fields))
          (rw
            (
              get-canonical_fields "submission_claim_id" fields,
              get-canonical_fields "observability_id" fields,
              filled,
              normal,
            )
            refl)

    module _ (k given : String) (named : normalize given ≡ some id) where
      pub claim_start-acquire :
          claim_start normalize k token given
          ≡ acquire family k (encoded_start_claim (claim token id)) start_claim_ttl_seconds
      unfolding claim_start requested
      claim_start-acquire = rw (filled, named) refl

      pub release_start-release :
          release_start normalize k token given
          ≡ release family k (encoded_start_claim (claim token id))
      unfolding release_start requested
      release_start-release = rw (filled, named) refl

    -- what a worker sees of a key with the claim, and its release
    get_start_claim-held :
        (k : String) (w : World)
        → IsCalm w
        → view w.backend k ≡ some (encoded_start_claim (claim token id))
        → (get_start_claim normalize k w).0 ≡ ok (some (claim token id))
    get_start_claim-held k w calm held =
        get_start_claim_lem k w
        ∙ rw (client_get-IsCalm w calm k) (rw held (rw (owner, claim_of-encoded) refl))

  texts_differ :
      (token id rival rival_id : String)
      → str_eq token "" ≡ false
      → normalize id ≡ some id
      → str_eq rival "" ≡ false
      → normalize rival_id ≡ some rival_id
      → rival ≢ token
      → text_eq (encoded_start_claim (claim token id)) (encoded_start_claim (claim rival rival_id))
        ≡ false
  texts_differ token id rival rival_id filled normal rival_filled rival_normal differs =
      let mine = encoded_start_claim (claim token id) in
      let theirs = encoded_start_claim (claim rival rival_id) in
      elim (Bool-cases (text_eq mine theirs)) [
        | inl same ↦ absurd (
            differs (
              cc (
                (text_eq_iff mine theirs).0 same,
                claim_of-encoded token id filled normal,
                claim_of-encoded rival rival_id rival_filled rival_normal,
              )))
        | inr other ↦ other
      ]

  -- Where no command fails, a claim of a free key is taken, every reader then sees its token and
  -- its canonical identifier, a second worker's claim is refused and its release changes nothing,
  -- and the owner's release frees the key. Tokens are not empty, the identifiers are well formed,
  -- and canonical identifiers normalize to themselves.
  pub start_claim_lifecycle :
      (token given id rival rival_given rival_id k : String) (w : World)
      → IsCalm w
      → view w.backend k ≡ none
      → str_eq token "" ≡ false
      → normalize given ≡ some id
      → normalize id ≡ some id
      → str_eq rival "" ≡ false
      → normalize rival_given ≡ some rival_id
      → normalize rival_id ≡ some rival_id
      → rival ≢ token
      → let claimed = (claim_start normalize k token given w).1 in
        ((claim_start normalize k token given w).0 ≡ ok true)
        × ((get_start_claim normalize k claimed).0 ≡ ok (some (claim token id)))
        × ((claim_start normalize k rival rival_given claimed).0 ≡ ok false)
        × ((release_start normalize k rival rival_given claimed).0 ≡ ok false)
        × ((release_start normalize k token given claimed).0 ≡ ok true)
        × (view (release_start normalize k token given claimed).1.backend k ≡ none)
  start_claim_lifecycle token given id rival rival_given rival_id k w calm free filled named normal
        rival_filled rival_named rival_normal differs =
      let mine = encoded_start_claim (claim token id) in
      let theirs = encoded_start_claim (claim rival rival_id) in
      let text_mine : empty_text mine ≡ false =
        unfold encoded_start_claim encode_envelope dumps in refl in
      let text_theirs : empty_text theirs ≡ false =
        unfold encoded_start_claim encode_envelope dumps in refl in
      let a = acquire_lem family k mine w calm start_claim_ttl_seconds k (omega arith) text_mine in
      let claimed = (acquire family k mine start_claim_ttl_seconds w).1 in
      let held : view claimed.backend k ≡ some mine = ground (arith, a, free, eq_refl k) in
      let b =
        acquire_lem family k theirs claimed a.2 start_claim_ttl_seconds k (omega arith)
          text_theirs in
      let r = release_lem family k theirs claimed a.2 k in
      let q = release_lem family k mine claimed a.2 k in
      rw
        (
          claim_start-acquire token id filled normal k given named,
          claim_start-acquire rival rival_id rival_filled rival_normal k rival_given rival_named,
          release_start-release token id filled normal k given named,
          release_start-release rival rival_id rival_filled rival_normal k rival_given rival_named,
        )
        (
          a.0 ∙ rw free refl,
          get_start_claim-held token id filled normal k claimed a.2 held,
          b.0 ∙ rw held refl,
          r.0
              ∙ rw held (
                  rw
                    (texts_differ token id rival rival_id filled normal rival_filled rival_normal
                      differs)
                    refl),
          q.0 ∙ rw held (rw (text_eq_self mine) refl),
          q.1 ∙ rw held (rw (text_eq_self mine, eq_refl k) refl),
        )
