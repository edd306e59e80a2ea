-- ===== src/ReformImpacts/Service/Waits.antt =====
-- services/reform_impacts_service.py: the wait that `get_reform_impact_seconds_until` tells.
use policyengine_api.Base.{ℕ, ◌+◌, ◌*◌, ◌≤◌, ◌<◌, ◌≡◌, ◌⊎◌, inl, inr, some, arith, dec_lt}
use policyengine_api.Cache.Backend.Commands.{second}
use policyengine_api.ReformImpacts.Records.{instant, DateTime, CachedReformImpact}
use policyengine_api.ReformImpacts.Service.{seconds_until_end, get_reform_impact_seconds_until}

-- The wait is at most the seconds asked for, it is not early, and a second less would be.
abbrev pub IsExactWait : ℕ → ℕ → ℕ → ℕ → Type 0
IsExactWait end_time now seconds wait =
    (wait ≤ seconds)
    × (end_time + seconds * second ≤ now + wait * second)
    × ((wait ≡ 0) ⊎ (now + wait * second < end_time + seconds * second + second))

pub seconds_until_end-IsExactWait :
    (end_time now seconds : ℕ)
    → end_time ≤ now
    → IsExactWait end_time now seconds (seconds_until_end now seconds end_time)
seconds_until_end-IsExactWait end_time now seconds past = (
  omega arith,
  omega arith,
  elim (dec_lt 0 (seconds_until_end now seconds end_time)) [
    | yes waits ↦ inr (omega arith)
    | no none_left ↦ inl (omega arith)
  ],
)

-- The wait is at most the seconds asked for. A caller that waits this long after an end that is not
-- in the future is not early, and one that waits a second less, if there is a wait at all, is.
pub seconds_until_bounds :
    (now seconds : ℕ) (end_time : DateTime) (impact : CachedReformImpact)
    → impact.end_time ≡ some end_time
    → instant end_time ≤ now
    → IsExactWait
        (instant end_time)
        now
        seconds
        (get_reform_impact_seconds_until now impact seconds)
unfolding get_reform_impact_seconds_until
seconds_until_bounds now seconds end_time impact ended past =
    rw ended (seconds_until_end-IsExactWait (instant end_time) now seconds past)
