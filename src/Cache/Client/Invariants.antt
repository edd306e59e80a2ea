-- ===== src/Cache/Client/Invariants.antt =====
-- The methods of the cache client that keep an invariant of the backend.
use policyengine_api.Base.{ℕ, String, List, Option, Bool, true, false}
use policyengine_api.Base.Int.{ℤ}
use policyengine_api.Json.{CacheText}
use policyengine_api.Effect.{Result}
use policyengine_api.Effect.Keeps.{Keeps}
use policyengine_api.Cache.Backend.Commands.{Backend, Script}
use policyengine_api.Cache.Backend.Indexes.{
  IsBounded, get-IsBounded, zrevrange-IsBounded, pttl-IsBounded, eval-IsBounded,
}
use policyengine_api.Cache.Client.{
  World, Outcome, record_cache_event, command, client_get, client_eval, first_outcome,
  later_outcomes, meet,
}
use policyengine_api.Cache.Client.Pipeline.{
  Operation, execute, client_execute, client_zrevrange, client_pttl,
}

module _ (P : Backend → Type 0) where
  abbrev pub OfBackend : World → Type 0
  OfBackend w = P w.backend

  module _ {A : Type 0} where
    meet-keeps :
        (o : Outcome) (r : Result A × Backend) (w : World)
        → P w.backend
        → P r.1
        → P (meet o r w).1.backend
    meet-keeps Outcome.answered r w before after = after
    meet-keeps Outcome.refused r w before after = before
    meet-keeps Outcome.reply_lost r w before after = after

    -- A command keeps what its run on the backend keeps, whatever the network does.
    pub Keeps-command :
        (run : Backend → Result A × Backend) (when_disabled : Result A)
        → ((b : Backend) → P b → P (run b).1)
        → Keeps OfBackend (command run when_disabled)
    unfolding command
    Keeps-command run when_disabled keep = record {
      at = λ w p.
          let later = record w { outcomes = later_outcomes w.outcomes } in
          let met = meet (first_outcome w.outcomes) (run w.backend) later in
          let answer : (Bool → Result A × World) =
            λ d. elim d [ true ↦ (when_disabled, w) | false ↦ met ] in
          elim w.disabled as (λ d. P (answer d).1.backend) [
            | true ↦ p
            | false ↦
                meet-keeps (first_outcome w.outcomes) (run w.backend) later p (keep w.backend p)
          ];
    }

  pub Keeps-event :
      (family event : String) (operation : Option String) (severity : String)
      → Keeps OfBackend (record_cache_event family event operation severity)
  unfolding record_cache_event
  Keeps-event family event operation severity = record { at = λ w p. p }

module _ (n : ℕ) where
  pub Keeps-get : (key : String) → Keeps (OfBackend (IsBounded n)) (client_get key)
  unfolding client_get
  Keeps-get key = Keeps-command (IsBounded n) _ _ (get-IsBounded n key)

  pub Keeps-zrevrange :
      (key : String) (start : ℕ) (last : ℤ)
      → Keeps (OfBackend (IsBounded n)) (client_zrevrange key start last)
  unfolding client_zrevrange
  Keeps-zrevrange key start last =
      Keeps-command (IsBounded n) _ _ (zrevrange-IsBounded n key start last)

  pub Keeps-pttl : (key : String) → Keeps (OfBackend (IsBounded n)) (client_pttl key)
  unfolding client_pttl
  Keeps-pttl key = Keeps-command (IsBounded n) _ _ (pttl-IsBounded n key)

  pub Keeps-eval :
      (script : Script) (numkeys : ℕ) (args : List CacheText)
      → Keeps (OfBackend (IsBounded n)) (client_eval script numkeys args)
  unfolding client_eval
  Keeps-eval script numkeys args =
      Keeps-command (IsBounded n) _ _ (eval-IsBounded n script numkeys args)

  pub Keeps-execute :
      (operations : List Operation)
      → ((b : Backend) → IsBounded n b → IsBounded n (execute operations b).1)
      → Keeps (OfBackend (IsBounded n)) (client_execute operations)
  unfolding client_execute
  Keeps-execute operations = Keeps-command (IsBounded n) _ _
