-- ===== src/Cache/Claims/Replies.antt =====
-- runtime_cache/claims.py: the replies of `acquire` and `release`, and what they leave behind.
use policyengine_api.Base.{
  ℕ, ◌<◌, ◌≡◌, ◌≢◌, refl, String, [], ◌∷◌, none, some, false, not, ◌&&◌, ◌==◌, is_some, str_eq,
  if◌then◌else◌, arith, ◌∙◌,
}
use policyengine_api.Json.{CacheText, plain}
use policyengine_api.Effect.{Result, ok}
use policyengine_api.Cache.Backend.Commands
use policyengine_api.Cache.Backend.Commands.{Backend, Script, eval, compare_delete, holds}
use policyengine_api.Cache.Backend.Expiry.{
  view, compare_delete-reply, view-compare_delete, set-reply, view-set, external_now-set,
  external_now-compare_delete,
}
use policyengine_api.Cache.Client.{World, client_eval, IsCalm, client_set-IsCalm}
use policyengine_api.Cache.Claims.Methods.{acquire, release, claim_options, empty_text}

-- the reply of the compare-and-delete command
abbrev pub delete_command : String → CacheText → World → Result ℕ × World
delete_command key token = client_eval Script.compare_and_delete 1 (plain key ∷ token ∷ [])

client_eval-IsCalm :
    (key : String) (token : CacheText) (w : World)
    → IsCalm w
    → delete_command key token w ≡ (
      ok (compare_delete key token w.backend).0,
      record w { backend = (compare_delete key token w.backend).1; outcomes = [] },
    )
unfolding client_eval eval
client_eval-IsCalm key token w calm = rw (calm.enabled, calm.faultless)

module _ (family key : String) (token : CacheText) (w : World) (calm : IsCalm w) where
  release-IsCalm :
      ((release family key token w).0 ≡ ok (holds (view w.backend key) token))
      × ((release family key token w).1.backend ≡ (compare_delete key token w.backend).1)
      × IsCalm (release family key token w).1
  unfolding release
  release-IsCalm = rw (client_eval-IsCalm key token w calm) (
    ground (arith, compare_delete-reply w.backend key token),
    refl,
    record {
      enabled = calm.enabled;
      faultless = refl;
      internal = external_now-compare_delete w.backend key token ∙ calm.internal;
    },
  )

  -- Where no command fails, `release` returns whether the key held the token, and then the key is
  -- free; every other key, and a key that holds another token, is left as it was.
  pub release_lem :
      (j : String)
      → ((release family key token w).0 ≡ ok (holds (view w.backend key) token))
        × (view (release family key token w).1.backend j
            ≡ (if holds (view w.backend key) token && str_eq key j then none else view w.backend j))
        × IsCalm (release family key token w).1
  release_lem j =
      let r = release-IsCalm in (r.0, rw r.1 (view-compare_delete w.backend key token j), r.2)

  pub acquire-IsCalm :
      (ttl : ℕ)
      → 0 < ttl
      → empty_text token ≡ false
      → ((acquire family key token ttl w).0 ≡ ok (not (is_some (view w.backend key))))
        × ((acquire family key token ttl w).1.backend
            ≡ (Commands.set key token (claim_options ttl) w.backend).1)
        × IsCalm (acquire family key token ttl w).1
  unfolding acquire
  acquire-IsCalm ttl positive present =
      let nonzero : (ttl == 0) ≡ false = ground arith in
      rw (present, nonzero, client_set-IsCalm w calm key token (claim_options ttl))
        (
          ground (arith, set-reply w.backend key token (claim_options ttl)),
          refl,
          record {
            enabled = calm.enabled;
            faultless = refl;
            internal = external_now-set w.backend key token (claim_options ttl) ∙ calm.internal;
          },
        )

  -- Where no command fails, `acquire` of a token and a positive TTL returns whether the key was free,
  -- and then the key holds the token; a key that was taken, and every other key, is left as it was.
  pub acquire_lem :
      (ttl : ℕ) (j : String)
      → 0 < ttl
      → empty_text token ≡ false
      → ((acquire family key token ttl w).0 ≡ ok (not (is_some (view w.backend key))))
        × (view (acquire family key token ttl w).1.backend j ≡ (
            if not (is_some (view w.backend key)) && str_eq key j
            then some token
            else view w.backend j))
        × IsCalm (acquire family key token ttl w).1
  acquire_lem ttl j positive present =
      let a = acquire-IsCalm ttl positive present in
      let lasting : some ttl ≢ some 0 = λ e. grind (arith, e) in
      (
        a.0,
        rw (a.1, view-set w.backend key token (claim_options ttl) j lasting) (ground arith),
        a.2,
      )
