-- ===== src/Cache/Core/Recoverable.antt =====
-- runtime_cache/core.py: `RecoverableJSONCache`, where a failure is a miss.
use policyengine_api.Base.{
  ℕ, ◌-◌, ◌*◌, ◌/◌, ◌≤◌, ◌<◌, ◌≡◌, refl, String, Option, none, some, Bool, true, false, leb, ltb,
  if◌then◌else◌, ◌∙◌, arith, eq_refl,
}
use policyengine_api.Base.Int.{ℤ, pos}
use policyengine_api.Json.{Json, null, Fields, CacheText}
use policyengine_api.Json.Canonical.{canonical}
use policyengine_api.Effect.{
  Error, Result, ok, raised, value_error, Exec, pure, lift, attempt, attempt-Returns, ◌>>=◌, ◌>>◌,
}
use policyengine_api.Cache.Backend.Commands.{SetOptions, second, set}
use policyengine_api.Cache.Backend.Expiry.{view, view-advance-set, external_now-set}
use policyengine_api.Cache.Client.{
  World, record_cache_event, client_get, client_set, truthy, pass, IsCalm, client_get-IsCalm,
  client_set-IsCalm, pass-IsCalm,
}
use policyengine_api.Cache.Core.{
  CacheNamespace, key, encode_envelope, decode_envelope, decode_envelope-none, completed_result_ttl,
  decode-encode_envelope, jittered_ttl_succeeds,
}

pub record RecoverableJsonCache : Type 0 where
  pub namespace : CacheNamespace
  pub family : String
  pub schema_version : ℕ
  pub ttl_seconds : ℕ

-- __init__
unfoldable pub new : CacheNamespace → String → ℕ → ℕ → Result RecoverableJsonCache
new namespace family version ttl =
    if leb ttl 0
    then raised (value_error "cache TTL must be positive")
    else ok (record {
      namespace = namespace;
      family = family;
      schema_version = version;
      ttl_seconds = ttl;
    })

abbrev is_null : Json → Bool
is_null null = true
is_null _ = false

abbrev expiring : ℕ → SetOptions
expiring ttl = record { ex = some ttl; nx = false; xx = false }

module _ (sha256 : CacheText → String) (randint : ℕ → ℕ → ℤ) (c : RecoverableJsonCache) where
  abbrev pub cache_key : Fields → String
  cache_key inputs = key sha256 c.namespace c.family c.schema_version inputs

  warned : {A : Type 0} → String → A → Error → Exec World A
  unfolding record_cache_event
  warned event a error = do record_cache_event c.family event none "WARNING"; pure a

  decoded : Option CacheText → Exec World Json
  unfolding record_cache_event
  decoded value = do
    let payload = decode_envelope value c.family c.schema_version
    record_cache_event c.family (if is_null payload then "miss" else "hit") none "INFO"
    pure payload

  -- the handler of a failed read leaves the method, so no other event is recorded
  unfoldable pub read : Fields → Exec World Json
  unfolding client_get warned decoded
  read inputs = attempt (client_get (cache_key inputs)) (warned "connection-failed" null) decoded

  unfoldable pub send : Fields → Json → Exec World (Option Bool)
  unfolding client_set
  send inputs payload = do
    ttl ← lift (completed_result_ttl c.ttl_seconds randint)
    client_set (cache_key inputs) (encode_envelope c.family c.schema_version payload) (expiring ttl)

  written : Option Bool → Exec World Bool
  unfolding record_cache_event
  written reply = do record_cache_event c.family "write" none "INFO"; pure (truthy reply)

  unfoldable pub write : Fields → Json → Exec World Bool
  unfolding warned written
  write inputs payload = attempt (send inputs payload) (warned "write-failed" false) written

  -- Neither method raises: whatever a command meets, a read returns a payload or None and a write
  -- returns a Boolean.
  pub recoverable_total :
      (inputs : Fields) (payload : Json) (w : World)
      → ((p : Json) × ((read inputs w).0 ≡ ok p))
        × ((b : Bool) × ((write inputs payload w).0 ≡ ok b))
  unfolding read write
  recoverable_total inputs payload w = (
    attempt-Returns (warned "connection-failed" null) decoded (client_get (cache_key inputs))
        (λ e w'. (null, unfold warned in refl))
        (λ value w'. (decode_envelope value c.family c.schema_version, unfold decoded in refl)) w,
    attempt-Returns (warned "write-failed" false) written (send inputs payload)
        (λ e w'. (false, unfold warned in refl))
        (λ reply w'. (truthy reply, unfold written in refl)) w,
  )

  send-jittered :
      (inputs : Fields) (payload : Json) (n : ℕ)
      → 0 < c.ttl_seconds
      → randint 0 (c.ttl_seconds * 10 / 100) ≡ pos n
      → n ≤ c.ttl_seconds * 10 / 100
      → send inputs payload
        ≡ client_set
            (cache_key inputs)
            (encode_envelope c.family c.schema_version payload)
            (expiring (c.ttl_seconds - n))
  unfolding send
  send-jittered inputs payload n positive chosen small =
      rw (jittered_ttl_succeeds c.ttl_seconds 10 100 n randint positive (omega arith) chosen small)

  read-IsCalm :
      (inputs : Fields) (w : World)
      → IsCalm w
      → (read inputs w).0
        ≡ ok (decode_envelope (view w.backend (cache_key inputs)) c.family c.schema_version)
  unfolding read decoded view
  read-IsCalm inputs w calm = rw (client_get-IsCalm w calm (cache_key inputs))

  write-IsCalm :
      (inputs : Fields) (payload : Json) (n : ℕ) (w : World)
      → IsCalm w
      → send inputs payload
        ≡ client_set
            (cache_key inputs)
            (encode_envelope c.family c.schema_version payload)
            (expiring n)
      → let w' = (write inputs payload w).1 in
        IsCalm w'
        × (w'.backend
            ≡ (set
                (cache_key inputs)
                (encode_envelope c.family c.schema_version payload)
                (expiring n)
                w.backend).1)
  unfolding write
  write-IsCalm inputs payload n w calm sent =
      rw
        (
          sent,
          client_set-IsCalm w calm (cache_key inputs)
              (encode_envelope c.family c.schema_version payload) (expiring n),
        )
        (
          record {
            enabled = calm.enabled;
            faultless = refl;
            internal =
                external_now-set w.backend (cache_key inputs)
                  (encode_envelope c.family c.schema_version payload) (expiring n)
                ∙ calm.internal;
          },
          refl,
        )

  -- Where no command fails and the cache is enabled, a payload that was written is read back, its
  -- dicts with their keys in order, until its jittered lifetime is over, and never after.
  pub read-write :
      (inputs : Fields) (payload : Json) (n elapsed : ℕ) (w : World)
      → IsCalm w
      → 0 < c.ttl_seconds
      → randint 0 (c.ttl_seconds * 10 / 100) ≡ pos n
      → n ≤ c.ttl_seconds * 10 / 100
      → (read inputs (pass elapsed (write inputs payload w).1)).0
        ≡ ok (if ltb elapsed ((c.ttl_seconds - n) * second) then canonical payload else null)
  read-write inputs payload n elapsed w calm positive chosen small =
      let (calm', stored) =
        write-IsCalm inputs payload (c.ttl_seconds - n) w calm
          (send-jittered inputs payload n positive chosen small) in
      rw (read-IsCalm inputs (pass elapsed (write inputs payload w).1) (pass-IsCalm elapsed calm'))
        (rw
          (
            stored,
            view-advance-set w.backend (cache_key inputs)
                (encode_envelope c.family c.schema_version payload) (c.ttl_seconds - n) elapsed
                calm.internal,
          )
          (ground (
            arith,
            decode_envelope-none c.family c.schema_version,
            decode-encode_envelope c.family c.family c.schema_version c.schema_version payload,
            eq_refl c.family,
          )))
