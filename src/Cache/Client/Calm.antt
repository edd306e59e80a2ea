-- ===== src/Cache/Client/Calm.antt =====
-- The methods of an enabled cache client while no command fails.
use policyengine_api.Base.{ℕ, String, List, [], none, ◌≡◌, refl}
use policyengine_api.Base.Int.{ℤ}
use policyengine_api.Effect.{ok}
use policyengine_api.Cache.Backend.Commands
use policyengine_api.Cache.Backend.Commands.{Backend, Script, pttl_missing_key}
use policyengine_api.Cache.Client.{World, IsCalm}
use policyengine_api.Cache.Client.Pipeline.{
  Operation, execute, client_execute, client_zrevrange, client_pttl,
}

-- the world after a command
abbrev pub after : Backend → World → World
after b w = record w { backend = b; outcomes = [] }

pub after-IsCalm : {w : World} (b : Backend) → IsCalm w → b.external_now ≡ none → IsCalm (after b w)
after-IsCalm b calm clock = record { enabled = calm.enabled; faultless = refl; internal = clock }

module _ (w : World) (calm : IsCalm w) where
  pub client_execute-IsCalm :
      (operations : List Operation)
      → client_execute operations w
        ≡ (ok (execute operations w.backend).0, after (execute operations w.backend).1 w)
  unfolding client_execute
  client_execute-IsCalm operations = rw (calm.enabled, calm.faultless) refl

  pub client_zrevrange-IsCalm :
      (key : String) (start : ℕ) (last : ℤ)
      → client_zrevrange key start last w ≡ (
        ok (Commands.zrevrange key start last w.backend).0,
        after (Commands.zrevrange key start last w.backend).1 w,
      )
  unfolding client_zrevrange
  client_zrevrange-IsCalm key start last = rw (calm.enabled, calm.faultless) refl

  pub client_pttl-IsCalm :
      (key : String)
      → client_pttl key w
        ≡ (ok (Commands.pttl key w.backend).0, after (Commands.pttl key w.backend).1 w)
  unfolding client_pttl
  client_pttl-IsCalm key = rw (calm.enabled, calm.faultless) refl
