-- ===== src/BudgetWindow/Store/Reads.antt =====
-- services/budget_window_cache.py: `BudgetWindowCache.get_state`, for each stored text and for a
-- cache that fails.
use policyengine_api.Base.{
  ◌≡◌, refl, ◌∙◌, String, Option, none, some, Bool, false, not, ◌&&◌, is_some, if◌then◌else◌, arith,
  str_eq,
}
use policyengine_api.Json.{CacheText}
use policyengine_api.Json.Equality.{text_eq_self}
use policyengine_api.Effect.{ok, raised, coordination_error, attempt-reply}
use policyengine_api.Cache.Backend.Commands.{holds}
use policyengine_api.Cache.Backend.Expiry.{view, view-get}
use policyengine_api.Cache.Client.{
  World, client_get, IsCalm, client_get-IsCalm, events-IsCalm, get-IsCalm,
}
use policyengine_api.Cache.Claims.Methods.{release}
use policyengine_api.Cache.Claims.Replies.{release_lem}
use policyengine_api.Cache.Core.{decode-encode_envelope}
use policyengine_api.BudgetWindow.State.RoundTrip.{from_payload-to_payload}
use policyengine_api.BudgetWindow.State.{State, validated, sorted}
use policyengine_api.BudgetWindow.Store.{
  family, state_key, encoded_state, decode_state, report_state, report_read, clear_invalid_state,
  get_state, unavailable, handle_cache_error,
}

-- A valid state's text decodes to that state, its dicts with their keys in order.
pub decode_state-encoded_state :
    (s : State) → validated s ≡ ok s → decode_state (encoded_state s) ≡ some (sorted s)
unfolding encoded_state decode_state
decode_state-encoded_state s valid = rw decode-encode_envelope (from_payload-to_payload s valid)

abbrev pub read_view : Option CacheText → Option State
read_view none = none
read_view (some encoded) = decode_state encoded

-- the text is one that `get_state` clears away
abbrev pub unreadable : Option CacheText → Bool
unreadable none = false
unreadable (some encoded) = not (is_some (decode_state encoded))

clear_invalid_state-total :
    (k : String) (t : CacheText) (w : World) → (clear_invalid_state k t w).0 ≡ ok tt
unfolding clear_invalid_state release
clear_invalid_state-total k t w = ground arith

report_state-total :
    (k : String) (t : CacheText) (o : Option State) (w : World) → (report_state k t o w).0 ≡ ok o
unfolding report_state
report_state-total k t none w = rw clear_invalid_state-total
report_state-total k t (some s) w = refl

report_read-total :
    (k : String) (o : Option CacheText) (w : World) → (report_read k o w).0 ≡ ok (read_view o)
unfolding report_read
report_read-total k none w = refl
report_read-total k (some t) w = report_state-total k t (decode_state t) w

-- Whatever the read meets, `get_state` returns the state that the stored text decodes to, None
-- for a missing or invalid one, or raises CacheCoordinationError when the read fails.
pub get_state_lem :
    (k : String) (w : World)
    → (get_state k w).0 ≡ elim (client_get (state_key k) w).0 [
      | ok value ↦ ok (read_view value)
      | raised e ↦ raised (coordination_error "budget-window coordination state is unavailable")
    ]
unfolding get_state
get_state_lem k w =
    attempt-reply
      (λ r. elim r [
        | ok value ↦ ok (read_view value)
        | raised e ↦ raised (coordination_error "budget-window coordination state is unavailable")
      ])
      (client_get (state_key k)) (unavailable "read-state") (report_read k)
      (λ e s. unfold handle_cache_error in refl) (λ o s. report_read-total k o s) w

clear_invalid_state-IsCalm :
    (k : String) (t : CacheText) (w : World) (j : String)
    → IsCalm w
    → (view (clear_invalid_state k t w).1.backend j
        ≡ (if holds (view w.backend k) t && str_eq k j then none else view w.backend j))
      × IsCalm (clear_invalid_state k t w).1
unfolding clear_invalid_state
clear_invalid_state-IsCalm k t w j calm =
    let r = release_lem family k t w calm j in rw r.0 (r.1, r.2)

report_state-IsCalm :
    (k : String) (t : CacheText) (o : Option State) (w : World) (j : String)
    → IsCalm w
    → view w.backend (state_key k) ≡ some t
    → (view (report_state k t o w).1.backend j
        ≡ (if not (is_some o) && str_eq (state_key k) j then none else view w.backend j))
      × IsCalm (report_state k t o w).1
unfolding report_state
report_state-IsCalm k t none w j calm same =
    let r = clear_invalid_state-IsCalm (state_key k) t _ j (events-IsCalm _ calm) in
    rw clear_invalid_state-total (r.0 ∙ rw same (rw (text_eq_self t)), r.1)
report_state-IsCalm k t (some s) w j calm same = (refl, events-IsCalm _ calm)

report_read-IsCalm :
    (k : String) (o : Option CacheText) (w : World) (j : String)
    → IsCalm w
    → view w.backend (state_key k) ≡ o
    → (view (report_read k o w).1.backend j
        ≡ (if unreadable o && str_eq (state_key k) j then none else view w.backend j))
      × IsCalm (report_read k o w).1
unfolding report_read
report_read-IsCalm k none w j calm same = (refl, events-IsCalm _ calm)
report_read-IsCalm k (some t) w j calm same = report_state-IsCalm k t (decode_state t) w j calm same

-- Where no command fails, `get_state` returns the state of the stored text, and an invalid text is
-- gone afterwards; all else in the cache is left as it was.
pub get_state-IsCalm :
    (k : String) (w : World) (j : String)
    → IsCalm w
    → ((get_state k w).0 ≡ ok (read_view (view w.backend (state_key k))))
      × (view (get_state k w).1.backend j ≡ (
          if unreadable (view w.backend (state_key k)) && str_eq (state_key k) j
          then none
          else view w.backend j))
      × IsCalm (get_state k w).1
unfolding get_state
get_state-IsCalm k w j calm =
    let found = view-get w.backend (state_key k) in
    let r =
      report_read-IsCalm k (view w.backend (state_key k)) _ j (get-IsCalm (state_key k) calm)
        (found (state_key k)) in
    rw (client_get-IsCalm w calm (state_key k)) (report_read-total k _ _, r.0 ∙ rw (found j), r.1)
