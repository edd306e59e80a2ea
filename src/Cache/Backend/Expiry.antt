-- ===== src/Cache/Backend/Expiry.antt =====
-- runtime_cache/fake.py: what a reader sees of the backend, the unexpired value of each key.
use policyengine_api.Base.{
  ℕ, ◌*◌, ◌≡◌, String, Option, none, some, Bool, true, false, ◌≢◌, not, ◌&&◌, ◌||◌, arith, eq_iff,
  str_eq, ltb, is_some, if◌then◌else◌, eq_refl,
}
use policyengine_api.Json.{CacheText}
use policyengine_api.Cache.Backend.Commands.{
  Backend, SetOptions, advance, purge, get, set, compare_delete, holds, second,
}

-- the value that GET would return
unfoldable pub view : Backend → String → Option CacheText
unfolding get
view b key = (get key b).0

module _ (b : Backend) (k j : String) where
  pub view-purge : view (purge k b) j ≡ view b j
  unfolding view
  view-purge = ground (arith, eq_iff k j)

  pub view-get : view (get k b).1 j ≡ view b j
  unfolding view
  view-get = ground (arith, eq_iff k j)

-- the condition of SET's `nx` and `xx` options on the value that the key has
abbrev pub permitted : SetOptions → Option CacheText → Bool
permitted options old = not ((options.nx && is_some old) || (options.xx && not (is_some old)))

-- an expiry of no seconds would lapse at once
abbrev pub Lasting : SetOptions → Type 0
Lasting options = options.ex ≢ some 0

module _ (b : Backend) (k : String) (v : CacheText) (options : SetOptions) where
  pub set-reply : (set k v options b).0 ≡ (if permitted options (view b k) then some true else none)
  unfolding set view
  set-reply = ground (arith, eq_refl k)

  pub view-set :
      (j : String)
      → Lasting options
      → view (set k v options b).1 j
        ≡ (if permitted options (view b k) && str_eq k j then some v else view b j)
  unfolding set view
  view-set j lasting = ground (arith, eq_refl k, eq_iff k j)

  pub external_now-set : (set k v options b).1.external_now ≡ b.external_now
  unfolding set
  external_now-set = ground arith

module _ (b : Backend) (k : String) (expected : CacheText) where
  pub compare_delete-reply :
      (compare_delete k expected b).0 ≡ (if holds (view b k) expected then 1 else 0)
  unfolding compare_delete view
  compare_delete-reply = ground (arith, eq_refl k)

  pub view-compare_delete :
      (j : String)
      → view (compare_delete k expected b).1 j
        ≡ (if holds (view b k) expected && str_eq k j then none else view b j)
  unfolding compare_delete view
  view-compare_delete j = ground (arith, eq_refl k, eq_iff k j)

  pub external_now-compare_delete : (compare_delete k expected b).1.external_now ≡ b.external_now
  unfolding compare_delete
  external_now-compare_delete = ground arith

-- The lifetime of a value is exact: it is read until the clock has moved by the seconds of `ex`.
pub view-advance-set :
    (b : Backend) (k : String) (v : CacheText) (seconds elapsed : ℕ)
    → b.external_now ≡ none
    → view
        (advance elapsed (set k v (record { ex = some seconds; nx = false; xx = false }) b).1).1
        k
      ≡ (if ltb elapsed (seconds * second) then some v else none)
unfolding advance set view
view-advance-set b k v seconds elapsed internal = ground (arith, eq_refl k)

-- the same of a claim, which is only taken of a free key
pub view-advance-claim :
    (b : Backend) (k : String) (v : CacheText) (seconds elapsed : ℕ)
    → b.external_now ≡ none
    → view b k ≡ none
    → view (advance elapsed (set k v (record { ex = some seconds; nx = true; xx = false }) b).1).1 k
      ≡ (if ltb elapsed (seconds * second) then some v else none)
unfolding advance set view
view-advance-claim b k v seconds elapsed internal free = ground (arith, eq_refl k, internal, free)
