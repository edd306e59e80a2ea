-- ===== src/Cache/Claims/Exclusion.antt =====
-- runtime_cache/claims.py: a claim among the claims and releases of other workers, whose commands may
-- fail.
use policyengine_api.Base.{
  ℕ, ◌+◌, ◌*◌, ◌<◌, ◌≡◌, ◌≢◌, refl, String, List, [], ◌∷◌, none, some, Bool, true, false, ◌&&◌,
  str_eq, arith, eq_iff, eq_refl, All,
}
use policyengine_api.Json.{CacheText}
use policyengine_api.Json.Equality.{text_eq_iff}
use policyengine_api.Effect.{Result, ok, Exec, pure, ◌>>◌}
use policyengine_api.Cache.Backend.Commands.{
  Backend, second, advance, get, set, compare_delete, eval,
}
use policyengine_api.Cache.Backend.Expiry.{view}
use policyengine_api.Cache.Client.{World, client_get, client_set, client_eval}
use policyengine_api.Cache.Claims.Methods.{acquire, release, claim_options}

-- What the other workers do between a claim and its release.
pub data Rival : Type 0 where
  acquires : String → CacheText → ℕ → Rival
  releases : String → CacheText → Rival
  reads : String → Rival
  waits : ℕ → Rival

unfoldable pub act : String → Rival → Exec World Bool
unfolding acquire release client_get advance
act family (acquires key token ttl_seconds) w = acquire family key token ttl_seconds w
act family (releases key token) w = (do release family key token; pure false) w
act family (reads key) w = (do client_get key; pure false) w
act family (waits microseconds) w =
    (ok false, record w { backend = (advance microseconds w.backend).1 })

abbrev won : String → Rival → Result Bool → Bool
won k (acquires key token ttl) (ok acquired) = acquired && str_eq key k
won k _ _ = false

-- Whether each step took the claim `k`, and the world after all of them.
unfoldable pub rivalry : String → String → List Rival → World → List Bool × World
unfolding act
rivalry family k [] w = ([], w)
rivalry family k (r ∷ rest) w =
    let (result, w') = act family r w in
    let (wins, w'') = rivalry family k rest w' in (won k r result ∷ wins, w'')

abbrev pub pause : Rival → ℕ
pause (waits microseconds) = microseconds
pause _ = 0

abbrev pub pauses : List Rival → ℕ
pauses [] = 0
pauses (r ∷ rest) = pause r + pauses rest

-- no rival presents the owner's token to release the key
abbrev pub IsRival : String → CacheText → Rival → Type 0
IsRival k token (releases key other) = (key ≡ k) → other ≢ token
IsRival k token _ = Unit

-- The key holds the token until the deadline, at the time t of a clock of the backend's own.
record Held (b : Backend) (k : String) (token : CacheText) (deadline t : ℕ) : Type 0 where
  pub value : b.values k ≡ some token
  pub expires : b.expires k ≡ some deadline
  pub internal : b.external_now ≡ none
  pub time : b.time ≡ t

module _ (b : Backend) (k : String) (token : CacheText) (deadline t : ℕ)
    (h : Held b k token deadline t) (alive : t < deadline) where
  Held-view : view b k ≡ some token
  unfolding view get
  Held-view = ground arith

  Held-get : (j : String) → Held (get j b).1 k token deadline t
  unfolding get
  Held-get j = ground (arith, eq_iff j k)

  Held-set :
      (j : String) (other : CacheText) (ttl : ℕ)
      → Held (set j other (claim_options ttl) b).1 k token deadline t
  unfolding set
  Held-set j other ttl = ground (arith, eq_iff j k)

  set_loses : (other : CacheText) (ttl : ℕ) → (set k other (claim_options ttl) b).0 ≡ none
  unfolding set
  set_loses other ttl = ground arith

  Held-compare_delete :
      (j : String) (other : CacheText)
      → ((j ≡ k) → other ≢ token)
      → Held (compare_delete j other b).1 k token deadline t
  unfolding compare_delete
  Held-compare_delete j other differs =
      ground (arith, eq_iff j k, text_eq_iff other token, text_eq_iff token other)

module _ (family k : String) (token : CacheText) (deadline t : ℕ) where
  act-Held :
      (r : Rival) (w : World)
      → Held w.backend k token deadline t
      → t < deadline
      → IsRival k token r
      → Held (act family r w).1.backend k token deadline (t + pause r)
  unfolding act acquire release client_get client_set client_eval eval
  act-Held (acquires j other ttl) w h alive fair =
      ground (arith, Held-set w.backend k token deadline t h alive j other ttl)
  act-Held (releases j other) w h alive fair =
      ground (arith, Held-compare_delete w.backend k token deadline t h alive j other fair)
  act-Held (reads j) w h alive fair =
      ground (arith, Held-get w.backend k token deadline t h alive j)
  act-Held (waits n) w h alive fair = ground arith

  act-loses :
      (r : Rival) (w : World)
      → Held w.backend k token deadline t
      → t < deadline
      → won k r (act family r w).0 ≡ false
  unfolding act acquire client_set
  act-loses (acquires j other ttl) w h alive =
      ground (arith, set_loses w.backend k token deadline t h alive other ttl, eq_iff j k)
  act-loses (releases j other) w h alive = refl
  act-loses (reads j) w h alive = refl
  act-loses (waits n) w h alive = refl

module _ (family k : String) (token : CacheText) (deadline : ℕ) where
  rivalry-Held :
      (rivals : List Rival) (t finish : ℕ) (w : World)
      → Held w.backend k token deadline t
      → t + pauses rivals ≡ finish
      → finish < deadline
      → All (IsRival k token) rivals
      → All (λ win. win ≡ false) (rivalry family k rivals w).0
        × Held (rivalry family k rivals w).1.backend k token deadline finish
  unfolding rivalry
  rivalry-Held [] t finish w h e alive fair = (tt, ground arith)
  rivalry-Held (r ∷ rest) t finish w h e alive fair =
      let now_alive : t < deadline = omega arith in
      let held = act-Held family k token deadline t r w h now_alive fair.0 in
      let later =
        rivalry-Held rest (t + pause r) finish (act family r w).1 held (omega arith) alive fair.1 in
      ((act-loses family k token deadline t r w h now_alive, later.0), later.1)

module _ (family k : String) (token : CacheText) (ttl : ℕ) where
  acquire-Held :
      (w w' : World)
      → w.backend.external_now ≡ none
      → acquire family k token ttl w ≡ (ok true, w')
      → Held w'.backend k token (w.backend.time + ttl * second) w.backend.time × (0 < ttl)
  unfolding acquire client_set set
  acquire-Held w w' internal h = ground (arith, eq_refl k)

  -- Once `acquire` has returned True, no other worker acquires the key and the key still holds the
  -- token, as long as the pauses of the other workers add up to less than the TTL. They may call
  -- `acquire` and `release` on any keys with any tokens, but not release this key by this token, and
  -- any of their commands may fail before or after it is applied. The clock is the backend's own.
  pub acquire_excludes :
      (rivals : List Rival) (w w' : World)
      → w.backend.external_now ≡ none
      → acquire family k token ttl w ≡ (ok true, w')
      → All (IsRival k token) rivals
      → pauses rivals < ttl * second
      → All (λ win. win ≡ false) (rivalry family k rivals w').0
        × (view (rivalry family k rivals w').1.backend k ≡ some token)
  acquire_excludes rivals w w' internal won fair short =
      let (held, positive) = acquire-Held w w' internal won in
      let t = w.backend.time in
      let deadline = t + ttl * second in
      let (losses, still) =
        rivalry-Held family k token deadline rivals t (t + pauses rivals) w' held refl (omega arith)
          fair in
      (losses, Held-view _ k token deadline (t + pauses rivals) still (omega arith))
