-- ===== src/Cache/Client/Pipeline.antt =====
-- The transactional pipelines of the cache client (runtime_cache/fake.py: `InMemoryPipeline`, and
-- `DisabledCacheBackend` under it), and the reads of sorted sets and lifetimes.
use policyengine_api.Base.{ℕ, String, List, [], ◌∷◌, map, Option, some, Bool, false}
use policyengine_api.Base.Int.{ℤ}
use policyengine_api.Json.{CacheText}
use policyengine_api.Effect.{ok, Exec}
use policyengine_api.Cache.Backend.Commands
use policyengine_api.Cache.Backend.Commands.{Backend, SetOptions, pttl_missing_key}
use policyengine_api.Cache.Client.{World, command, total}

-- one queued call: the method's name and its arguments
pub data Operation : Type 0 where
  set : String → CacheText → SetOptions → Operation
  delete : List String → Operation
  expire : String → ℕ → Operation
  zadd : String → List (String × ℕ) → Operation
  zrem : String → List String → Operation
  zremrangebyrank : String → ℕ → ℤ → Operation

pub data Reply : Type 0 where
  written : Option Bool → Reply
  counted : ℕ → Reply
  flag : Bool → Reply

-- getattr(self.backend, name)(*args, **kwargs)
unfoldable pub replay : Operation → Backend → Reply × Backend
unfolding Commands.set Commands.delete Commands.expire Commands.zadd Commands.zrem
    Commands.zremrangebyrank
replay (Operation.set key value options) b =
    let (r, b') = Commands.set key value options b in (written r, b')
replay (Operation.delete keys) b = let (n, b') = Commands.delete keys b in (counted n, b')
replay (Operation.expire key seconds) b =
    let (r, b') = Commands.expire key seconds b in (flag r, b')
replay (Operation.zadd key mapping) b = let (n, b') = Commands.zadd key mapping b in (counted n, b')
replay (Operation.zrem key members) b = let (n, b') = Commands.zrem key members b in (counted n, b')
replay (Operation.zremrangebyrank key start last) b =
    let (n, b') = Commands.zremrangebyrank key start last b in (counted n, b')

-- the same call on a DisabledCacheBackend, which holds no key
unfoldable pub disabled_reply : Operation → Reply
disabled_reply (Operation.set key value options) = written (some false)
disabled_reply (Operation.expire key seconds) = flag false
disabled_reply _ = counted 0

-- the queued operations, replayed under one lock
unfoldable pub execute : List Operation → Backend → List Reply × Backend
unfolding replay
execute [] b = ([], b)
execute (operation ∷ rest) b =
    let (r, b') = replay operation b in let (rs, b'') = execute rest b' in (r ∷ rs, b'')

unfoldable pub client_execute : List Operation → Exec World (List Reply)
unfolding command execute disabled_reply
client_execute operations =
    command (total (execute operations)) (ok (map disabled_reply operations))

unfoldable pub client_zrevrange : String → ℕ → ℤ → Exec World (List String)
unfolding command Commands.zrevrange
client_zrevrange key start last = command (total (Commands.zrevrange key start last)) (ok [])

unfoldable pub client_pttl : String → Exec World ℤ
unfolding command Commands.pttl
client_pttl key = command (total (Commands.pttl key)) (ok pttl_missing_key)
