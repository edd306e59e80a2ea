-- ===== src/Cache/Claims/Methods.antt =====
-- runtime_cache/claims.py: the methods of `ExpiringClaimStore`.
use policyengine_api.Base.{
  ℕ, String, [], ◌∷◌, some, Bool, true, false, ◌||◌, ltb, ◌==◌, str_eq, if◌then◌else◌,
}
use policyengine_api.Json.{CacheText, doc, plain}
use policyengine_api.Effect.{
  Error, value_error, coordination_error, Exec, pure, raise, try_except, ◌>>=◌, ◌>>◌,
}
use policyengine_api.Cache.Backend.Commands.{SetOptions, Script}
use policyengine_api.Cache.Client.{World, record_cache_event, client_set, client_eval, truthy}

-- not token
abbrev pub empty_text : CacheText → Bool
empty_text (doc j) = false
empty_text (plain s) = str_eq s ""

-- nx=True, ex=ttl_seconds
abbrev pub claim_options : ℕ → SetOptions
claim_options ttl_seconds = record { ex = some ttl_seconds; nx = true; xx = false }

module _ (family : String) where
  unfoldable pub coordination_failed : {A : Type 0} → String → String → Error → Exec World A
  unfolding record_cache_event
  coordination_failed operation message error = do
    record_cache_event family "coordination-failed" (some operation) "WARNING"
    raise (coordination_error message)

  unfoldable pub acquire : String → CacheText → ℕ → Exec World Bool
  unfolding coordination_failed client_set record_cache_event
  acquire key token ttl_seconds =
      if empty_text token || (ttl_seconds == 0)
      then raise (value_error "claim token and positive TTL are required")
      else do
        acquired ←
            try_except
              (do reply ← client_set key token (claim_options ttl_seconds); pure (truthy reply))
              (coordination_failed "claim-acquire"
                "shared-cache ownership could not be established")
        record_cache_event family (if acquired then "claim-acquired" else "claim-contended")
            (some "claim-acquire") "INFO"
        pure acquired

  unfoldable pub release : String → CacheText → Exec World Bool
  unfolding coordination_failed client_eval record_cache_event
  release key token = do
    released ←
        try_except
          (do n ← client_eval Script.compare_and_delete 1 (plain key ∷ token ∷ []); pure (ltb 0 n))
          (coordination_failed "claim-release"
            "shared-cache ownership could not be released safely")
    record_cache_event family (if released then "claim-released" else "claim-release-rejected")
        (some "claim-release") "INFO"
    pure released
