-- ===== src/ReformImpacts/Repository/Stored.antt =====
-- runtime_cache/reform_impacts.py: a record that is written, read back and updated.
use policyengine_api.Base.{
  ℕ, ◌<◌, String, List, [], ◌∷◌, ◌++◌, Option, none, some, Bool, not, ◌&&◌, ◌||◌, ◌≡◌, refl, ◌∙◌,
  ap, str_eq, is_some, if◌then◌else◌, arith,
}
use policyengine_api.Base.Int.{negsuc}
use policyengine_api.Json.{CacheText}
use policyengine_api.Effect.{ok}
use policyengine_api.Cache.Backend.Commands
use policyengine_api.Cache.Backend.Commands.{Backend, zadd, zremrangebyrank, expire}
use policyengine_api.Cache.Backend.Expiry.{view, view-set, set-reply, external_now-set, Lasting}
use policyengine_api.Cache.Backend.Unchanged.{
  Unchanged, Unchanged-trans, zadd-Unchanged, zremrangebyrank-Unchanged, expire-Unchanged,
}
use policyengine_api.Cache.Client.{World, IsCalm}
use policyengine_api.Cache.Client.Pipeline.{written, Reply, execute}
use policyengine_api.Cache.Client.Calm.{after, after-IsCalm, client_execute-IsCalm}
use policyengine_api.Cache.Core.{completed_result_ttl, jittered_ttl_bounds}
use policyengine_api.ReformImpacts.Records.{CachedReformImpact}
use policyengine_api.ReformImpacts.Repository.{
  Setting, ttl_seconds, index_limit, scope_index, recent_index, score, encoded_impact,
  record_options, seconds_or, index_operations, operations, is_stored, store,
}
use policyengine_api.ReformImpacts.Repository.Bounded.{indexed}

indexed-Unchanged :
    (ttl : ℕ) (member : String) (score : ℕ) (index : String) (b : Backend)
    → 0 < ttl
    → Unchanged b (indexed ttl member score index b)
indexed-Unchanged ttl member score index b lasting =
    let added = (zadd index ((member, score) ∷ []) b).1 in
    let trimmed = (zremrangebyrank index 0 (negsuc index_limit) added).1 in
    Unchanged-trans (zadd-Unchanged index ((member, score) ∷ []) b) (
      Unchanged-trans (zremrangebyrank-Unchanged index 0 (negsuc index_limit) added)
        (expire-Unchanged index ttl trimmed lasting))

seconds_or-lasting : (record_ttl : Option ℕ) (ttl : ℕ) → 0 < ttl → 0 < seconds_or record_ttl ttl
seconds_or-lasting none ttl h = h
seconds_or-lasting (some ℕ.zero) ttl h = h
seconds_or-lasting (some (ℕ.suc n)) ttl h = omega arith

-- whether the write is permitted by the value that the record has
abbrev pub admitted : Bool → Option CacheText → Bool
admitted only_if_present old = not only_if_present || is_some old

is_stored-written :
    (set : Setting) (o : Option Bool) (rest : List Reply)
    → is_stored set (written o ∷ rest) ≡ is_some o
is_stored-written set none rest = refl
is_stored-written set (some b) rest = refl

module _ (set : Setting) (ttl : ℕ)
    (chosen : completed_result_ttl ttl_seconds set.choose_reduction ≡ ok ttl) where
  ttl-positive : 0 < ttl
  ttl-positive = (jittered_ttl_bounds ttl_seconds 10 100 ttl set.choose_reduction chosen).0

  module _ (key : String) (impact : CachedReformImpact) (record_ttl : Option ℕ) (xx : Bool) where
    -- the backend after the transaction of a write
    abbrev written_backend : Backend → Backend
    written_backend b = (execute (operations set key impact record_ttl xx ttl) b).1

    written-Unchanged :
        (b : Backend)
        → Unchanged
            (Commands.set key
              (encoded_impact set impact)
              (record_options set record_ttl xx ttl)
              b).1
            (written_backend b)
    unfolding operations execute
    written-Unchanged b =
        let options = record_options set record_ttl xx ttl in
        let b1 = (Commands.set key (encoded_impact set impact) options b).1 in
        let b2 = indexed ttl key (score set impact) (scope_index set impact) b1 in
        Unchanged-trans
          (indexed-Unchanged ttl key (score set impact) (scope_index set impact) b1 ttl-positive)
          (indexed-Unchanged ttl key (score set impact) (recent_index set) b2 ttl-positive)

    options-Lasting : Lasting (record_options set record_ttl xx ttl)
    options-Lasting e =
        let positive = seconds_or-lasting record_ttl ttl ttl-positive in grind (arith, positive, e)

    view-written :
        (b : Backend) (j : String)
        → view (written_backend b) j ≡ (
            if admitted xx (view b key) && str_eq key j
            then some (encoded_impact set impact)
            else view b j)
    view-written b j =
        let options = record_options set record_ttl xx ttl in
        (written-Unchanged b).values j
        ∙ view-set b key (encoded_impact set impact) options j options-Lasting
        ∙ ground arith

    is_stored-operations :
        (b : Backend)
        → is_stored set (execute (operations set key impact record_ttl xx ttl) b).0
          ≡ admitted xx (view b key)
    unfolding operations execute
    is_stored-operations b =
        let options = record_options set record_ttl xx ttl in
        let text = encoded_impact set impact in
        let b1 = (Commands.set key text options b).1 in
        let later =
          index_operations set ttl key (score set impact) (scope_index set impact)
          ++ index_operations set ttl key (score set impact) (recent_index set) in
        is_stored-written set (Commands.set key text options b).0 (execute later b1).0
        ∙ ap is_some (set-reply b key text options)
        ∙ ground arith

    module _ (w : World) (calm : IsCalm w) where
      store-IsCalm : store set key impact record_ttl xx w ≡ (
        ok (
            not xx
            || is_stored set (execute (operations set key impact record_ttl xx ttl) w.backend).0),
        after (written_backend w.backend) w,
      )
      unfolding store
      store-IsCalm =
          rw chosen
            (rw (client_execute-IsCalm w calm (operations set key impact record_ttl xx ttl)) refl)

      -- A write: its answer, what every reader sees after it, and that the cache works on.
      pub store_lem :
          let done = store set key impact record_ttl xx w in
          (done.0 ≡ ok (admitted xx (view w.backend key)))
          × ((j : String)
              → view done.1.backend j ≡ (
                  if admitted xx (view w.backend key) && str_eq key j
                  then some (encoded_impact set impact)
                  else view w.backend j))
          × IsCalm done.1
      store_lem = rw store-IsCalm (
        rw (is_stored-operations w.backend) (ground arith),
        view-written w.backend,
        after-IsCalm (written_backend w.backend) calm (
            (written-Unchanged w.backend).clock
            ∙ external_now-set w.backend key (encoded_impact set impact)
                (record_options set record_ttl xx ttl)
            ∙ calm.internal),
      )
