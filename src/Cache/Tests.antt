-- ===== src/Cache/Tests.antt =====
-- The theorems on the cache at concrete inputs, and runs of its methods.
use policyengine_api.Base.{
  suc, length, ℕ, ◌*◌, ◌<◌, ◌≤◌, ◌≡◌, refl, String, List, [], ◌∷◌, none, some, Bool, true, false,
  All, ltb, if◌then◌else◌, str_eq, arith, not, ◌&&◌, is_some, ◌+◌, ◌/◌, ◌-◌,
}
use policyengine_api.Base.Int.{ℤ, pos, negsuc}
use policyengine_api.Json.{Json, null, num, str, obj, Fields, end, field, CacheText, plain}
use policyengine_api.Json.Canonical.{canonical}
use policyengine_api.Json.Equality.{text_eq, text_eq_iff}
use policyengine_api.Effect.{ok}
use policyengine_api.Cache.Backend.Commands.{
  Backend, second, empty, advance, zadd, zrevrange, zremrangebyrank, pttl,
}
use policyengine_api.Cache.Backend.Trimming.{IsUnique, index, trimmed_index}
use policyengine_api.Cache.Backend.Expiry.{view}
use policyengine_api.Cache.Backend.Refinement.{
  Request, perform_all, answers, perform_all-answers, read, write, remove_if,
}
use policyengine_api.Cache.Client.{World, Outcome, IsCalm, pass}
use policyengine_api.Cache.Claims.Methods.{acquire}
use policyengine_api.Cache.Claims.Replies.{acquire_lem}
use policyengine_api.Cache.Claims.Exclusion.{
  Rival, acquires, releases, reads, waits, IsRival, rivalry, acquire_excludes,
}
use policyengine_api.Cache.Core.{jittered_ttl, jittered_ttl_bounds}
use policyengine_api.Cache.Core.Recoverable
use policyengine_api.Cache.Core.Recoverable.{RecoverableJsonCache, recoverable_total, read-write}

abbrev world : World
world = record { backend = empty; disabled = false; outcomes = []; events = [] }

world-IsCalm : IsCalm world
world-IsCalm = record { enabled = refl; faultless = refl; internal = refl }

abbrev failing : World
failing = record world { outcomes = Outcome.reply_lost ∷ [] }

abbrev mine : CacheText
mine = plain "worker-1"

abbrev theirs : CacheText
theirs = plain "worker-2"

abbrev claimed : World
unfolding acquire
claimed = (acquire "budget-window" "report" mine 300 world).1

abbrev rivals : List Rival
rivals =
    acquires "report" theirs 60
    ∷ waits 200_000_000
    ∷ releases "report" theirs
    ∷ reads "report"
    ∷ acquires "report" theirs 300
    ∷ []

claimed_wins : acquire "budget-window" "report" mine 300 world ≡ (ok true, claimed)
unfolding acquire claimed
claimed_wins = refl

rivals-IsRival : All (IsRival "report" mine) rivals
rivals-IsRival = (
  tt,
  (
    tt,
    ((λ same e. unfold text_eq in grind (arith, (text_eq_iff theirs mine).1 e)), (tt, (tt, tt))),
  ),
)

acquire_excludes_example :
    All (λ win. win ≡ false) (rivalry "budget-window" "report" rivals claimed).0
    × (view (rivalry "budget-window" "report" rivals claimed).1.backend "report" ≡ some mine)
acquire_excludes_example =
    acquire_excludes "budget-window" "report" mine 300 rivals world claimed refl claimed_wins
      rivals-IsRival (omega arith)

acquire_lem_example :
    ((acquire "budget-window" "report" theirs 60 claimed).0
      ≡ ok (not (is_some (view claimed.backend "report"))))
    × (view (acquire "budget-window" "report" theirs 60 claimed).1.backend "report" ≡ (
        if not (is_some (view claimed.backend "report")) && str_eq "report" "report"
        then some theirs
        else view claimed.backend "report"))
    × IsCalm (acquire "budget-window" "report" theirs 60 claimed).1
unfolding claimed
acquire_lem_example =
    acquire_lem "budget-window" "report" theirs claimed claimed-IsCalm 60 "report" (omega arith)
      refl
  where
    claimed-IsCalm : IsCalm claimed
    claimed-IsCalm = record { enabled = refl; faultless = refl; internal = refl }

abbrev history : List Request
history =
    write "a" mine (record { ex = some 60; nx = true; xx = false })
    ∷ write "a" theirs (record { ex = none; nx = true; xx = false })
    ∷ read "a"
    ∷ remove_if "a" theirs
    ∷ remove_if "a" mine
    ∷ read "a"
    ∷ write "a" theirs (record { ex = some 0; nx = false; xx = false })
    ∷ read "a"
    ∷ []

perform_all-answers_example : perform_all history empty ≡ answers history (λ k. none)
perform_all-answers_example =
    perform_all-answers history empty (λ k. none) (λ j. unfold view in refl)

abbrev halve : ℕ → ℕ → ℤ
halve low high = pos (high / 2)

jittered_ttl_bounds_example :
    (0 < 82_080) × (82_080 ≤ 86_400) × (86_400 ≤ 82_080 + 86_400 * 10 / 100)
jittered_ttl_bounds_example =
    jittered_ttl_bounds 86_400 10 100 82_080 halve (unfold jittered_ttl in refl)

abbrev payload : Json
payload = obj (field "status" (str "ok") (field "impact" (num 12) end))

abbrev digest : CacheText → String
digest text = "d41d8cd98f00b204e9800998ecf8427e"

abbrev results : RecoverableJsonCache
results = record {
  namespace = record { environment = "production"; service = "api" };
  family = "economy";
  schema_version = 2;
  ttl_seconds = 600;
}

abbrev inputs : Fields
inputs = field "policy" (num 2) end

recoverable_total_example :
    ((p : Json) × ((Recoverable.read digest halve results inputs failing).0 ≡ ok p))
    × ((b : Bool) × ((Recoverable.write digest halve results inputs payload failing).0 ≡ ok b))
recoverable_total_example = recoverable_total digest halve results inputs payload failing

read-write_example :
    (Recoverable.read digest halve results inputs
      (pass 569_000_000 (Recoverable.write digest halve results inputs payload world).1)).0
    ≡ ok (if ltb 569_000_000 ((600 - 30) * second) then canonical payload else null)
read-write_example =
    read-write digest halve results inputs payload 30 569_000_000 world world-IsCalm (omega arith)
      refl (omega arith)

-- A page of the index, newest first, and the removal of all but the two newest.
abbrev indexed : Backend
unfolding zadd
indexed = (zadd "index" (("a", 3) ∷ ("b", 1) ∷ ("c", 2) ∷ []) empty).1

newest_first : (zrevrange "index" 0 (negsuc 0) indexed).0 ≡ "a" ∷ "c" ∷ "b" ∷ []
unfolding zrevrange indexed
newest_first = refl

two_newest :
    let (removed, b) = zremrangebyrank "index" 0 (negsuc 2) indexed in
    (removed ≡ 1) × ((zrevrange "index" 0 (negsuc 0) b).0 ≡ "a" ∷ "c" ∷ [])
unfolding zremrangebyrank zrevrange indexed
two_newest = (refl, refl)

claim_expires : (pttl "report" (pass 299_999_500 claimed).backend).0 ≡ pos 1
unfolding pttl advance claimed
claim_expires = refl

index_before-IsUnique : IsUnique (index "index" empty)
index_before-IsUnique = tt

trimmed_index_example :
    let trimmed =
      index "index"
        (zremrangebyrank "index" 0
          (negsuc (suc 1))
          (zadd "index" (("a", 3) ∷ ("b", 1) ∷ ("c", 2) ∷ []) empty).1).1 in
    (length trimmed ≤ suc 1) × IsUnique trimmed
trimmed_index_example =
    trimmed_index "index" (("a", 3) ∷ ("b", 1) ∷ ("c", 2) ∷ []) 1 empty index_before-IsUnique
