-- ===== src/Cache/Client.antt =====
-- The cache client of a request (runtime_cache/core.py: `CacheBackend`, `record_cache_event`), with
-- `DisabledCacheBackend` of runtime_cache/fake.py. A command may fail on its way: the list of
-- outcomes says, for each command that is still to come, what the network does to it.
pub mod Pipeline
pub mod Invariants
pub mod Calm
use policyengine_api.Base.{
  ℕ, String, List, [], ◌∷◌, ◌++◌, Option, none, some, Bool, true, false, ◌≡◌, arith,
}
use policyengine_api.Json.{CacheText}
use policyengine_api.Effect.{runtime_error, client_error, Result, ok, raised, Exec}
use policyengine_api.Cache.Backend.Commands
use policyengine_api.Cache.Backend.Commands.{Backend, SetOptions, Script}
use policyengine_api.Cache.Backend.Expiry.{view}

-- `refused`: the command is not applied; `reply_lost`: it is applied, and the caller sees an error.
pub data Outcome : Type 0 where
  answered refused reply_lost : Outcome

pub record CacheEvent : Type 0 where
  pub family : String
  pub event : String
  pub operation : Option String
  pub severity : String

pub record World : Type 0 where
  pub backend : Backend
  pub disabled : Bool
  pub outcomes : List Outcome
  pub events : List CacheEvent

-- record_cache_event; the latency is not modelled
unfoldable pub record_cache_event : String → String → Option String → String → Exec World (Unit {0})
record_cache_event family event operation severity w = (
  ok tt,
  record w {
    events =
        w.events
        ++ record { family = family; event = event; operation = operation; severity = severity }
          ∷ [];
  },
)

abbrev pub first_outcome : List Outcome → Outcome
first_outcome [] = Outcome.answered
first_outcome (o ∷ rest) = o

abbrev pub later_outcomes : List Outcome → List Outcome
later_outcomes [] = []
later_outcomes (o ∷ rest) = rest

abbrev pub meet : {A : Type 0} → Outcome → Result A × Backend → World → Result A × World
meet Outcome.answered (r, b) w = (r, record w { backend = b })
meet Outcome.refused (r, b) w = (raised client_error, w)
meet Outcome.reply_lost (r, b) w = (raised client_error, record w { backend = b })

-- One command of the client. A disabled backend stores nothing: its reply is the given one.
unfoldable pub command : {A : Type 0} → (Backend → Result A × Backend) → Result A → Exec World A
command run when_disabled w = elim w.disabled [
  | true ↦ (when_disabled, w)
  | false ↦
      meet (first_outcome w.outcomes) (run w.backend)
        (record w { outcomes = later_outcomes w.outcomes })
]

abbrev pub total : {A : Type 0} → (Backend → A × Backend) → Backend → Result A × Backend
total run b = let (a, b') = run b in (ok a, b')

unfoldable pub client_get : String → Exec World (Option CacheText)
unfolding command Commands.get
client_get key = command (total (Commands.get key)) (ok none)

-- `some false` is the reply of a disabled backend
unfoldable pub client_set : String → CacheText → SetOptions → Exec World (Option Bool)
unfolding command Commands.set
client_set key value options = command (total (Commands.set key value options)) (ok (some false))

unfoldable pub client_eval : Script → ℕ → List CacheText → Exec World ℕ
unfolding command Commands.eval
client_eval script numkeys args =
    command (Commands.eval script numkeys args)
      (raised (runtime_error "the shared runtime cache is disabled"))

-- bool(reply of SET)
abbrev pub truthy : Option Bool → Bool
truthy none = false
truthy (some b) = b

-- time passes
abbrev pub pass : ℕ → World → World
pass microseconds w = record w { backend = (Commands.advance microseconds w.backend).1 }

-- An enabled cache whose commands all succeed, on the backend's own clock.
pub record IsCalm (w : World) : Type 0 where
  pub enabled : w.disabled ≡ false
  pub faultless : w.outcomes ≡ []
  pub internal : w.backend.external_now ≡ none

module _ (w : World) (calm : IsCalm w) where
  pub client_get-IsCalm :
      (key : String)
      → client_get key w ≡ (
        ok (view w.backend key),
        record w { backend = (Commands.get key w.backend).1; outcomes = [] },
      )
  unfolding client_get view
  client_get-IsCalm key = rw (calm.enabled, calm.faultless)

  pub client_set-IsCalm :
      (key : String) (value : CacheText) (options : SetOptions)
      → client_set key value options w ≡ (
        ok (Commands.set key value options w.backend).0,
        record w { backend = (Commands.set key value options w.backend).1; outcomes = [] },
      )
  unfolding client_set
  client_set-IsCalm key value options = rw (calm.enabled, calm.faultless)

pub pass-IsCalm : {w : World} (microseconds : ℕ) → IsCalm w → IsCalm (pass microseconds w)
unfolding Commands.advance
pass-IsCalm microseconds calm = ground arith

pub events-IsCalm :
    {w : World} (events : List CacheEvent) → IsCalm w → IsCalm (record w { events = events })
events-IsCalm events calm = record {
  enabled = calm.enabled;
  faultless = calm.faultless;
  internal = calm.internal;
}

pub get-IsCalm :
    {w : World} (key : String)
    → IsCalm w
    → IsCalm (record w { backend = (Commands.get key w.backend).1; outcomes = [] })
unfolding Commands.get
get-IsCalm key calm = ground arith
