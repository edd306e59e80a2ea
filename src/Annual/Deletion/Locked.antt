-- ===== src/Annual/Deletion/Locked.antt =====
-- services/economy_service.py: what a DELETE of a failed impact may remove.
use policyengine_api.Base.{
  ℕ, zero, suc, ◌+◌, ◌*◌, ◌≤◌, String, Option, none, some, Bool, true, false, not, ltb, ◌≡◌, refl,
  ◌∙◌, str_eq, eq_iff, arith, inl, if◌then◌else◌,
}
use policyengine_api.Json.{CacheText}
use policyengine_api.Effect.{Result, ok, raised, Exec, lift, modify, ◌>>=◌}
use policyengine_api.Effect.Keeps.{Keeps}
use policyengine_api.Cache.Backend.Commands.{Backend, second}
use policyengine_api.ReformImpacts.Records.{
  DateTime, naive, aware, instant, time_eq, CachedReformImpact, impact_eq-parts,
}
use policyengine_api.ReformImpacts.Repository.{decode_impact}
use policyengine_api.ReformImpacts.Repository.Removal.{is_failure}
use policyengine_api.ReformImpacts.Repository.Removal.{delete_failure}
use policyengine_api.ReformImpacts.Repository.OneGone.{OneRemoved, delete_failure-Deletes}
use policyengine_api.Annual.Deletion.Reads.{Untouched, get_reusable_impact-Untouched}
use policyengine_api.ReformImpacts.Service.{seconds_until_end, get_reform_impact_seconds_until}
use policyengine_api.Annual.Setup.{SetupOptions}
use policyengine_api.Annual.Request.{
  Environment, Session, on_cache, FailedImpactDeletion, locked, not_a_failure, not_found,
}
use policyengine_api.Annual.Stored.{delete_lockout_seconds}
use policyengine_api.Annual.Deletion.{
  check_and_delete, check_stored, deleted_or_again, delete_loop, delete_attempts,
  delete_failed_economic_impact,
}

-- The failure ended at least the lockout before `now`, or has no end.
abbrev pub LockoutOver : ℕ → Option DateTime → Type 0
LockoutOver now none = Unit
LockoutOver now (some end_time) = instant end_time + delete_lockout_seconds * second ≤ now

LockoutOver-time_eq :
    (now : ℕ) (a b : Option DateTime) → time_eq a b ≡ true → LockoutOver now b → LockoutOver now a
LockoutOver-time_eq now none b h over = tt
LockoutOver-time_eq now (some (naive a)) none h over = cc h
LockoutOver-time_eq now (some (naive a)) (some (naive b)) h over = ground arith
LockoutOver-time_eq now (some (naive a)) (some (aware b)) h over = cc h
LockoutOver-time_eq now (some (aware a)) none h over = cc h
LockoutOver-time_eq now (some (aware a)) (some (naive b)) h over = cc h
LockoutOver-time_eq now (some (aware a)) (some (aware b)) h over = ground arith

no_wait-LockoutOver :
    (now : ℕ) (impact : CachedReformImpact) (end_time : Option DateTime)
    → impact.end_time ≡ end_time
    → ltb 0 (get_reform_impact_seconds_until now impact delete_lockout_seconds) ≡ false
    → LockoutOver now end_time
unfolding get_reform_impact_seconds_until
no_wait-LockoutOver now impact none e h = tt
no_wait-LockoutOver now impact (some end_time) e h =
    let passed : ltb 0 (seconds_until_end now delete_lockout_seconds (instant end_time)) ≡ false =
      rw e at h in
    ground arith

is_error : (status : String) → not (str_eq status "error") ≡ false → status ≡ "error"
is_error status h = (eq_iff status "error").0 (ground arith)

module _ (env : Environment) where
  -- the text of a stored failure whose lockout is over
  abbrev pub IsDeletable : CacheText → Type 0
  IsDeletable text =
      (impact : CachedReformImpact) × (decode_impact env.setting (some text) ≡ some impact)
      × (impact.status ≡ "error")
      × LockoutOver env.now impact.end_time

  deletable :
      (stored : CachedReformImpact) (text : CacheText) (found : Option CachedReformImpact)
      → decode_impact env.setting (some text) ≡ found
      → is_failure env.setting stored found ≡ true
      → stored.status ≡ "error"
      → LockoutOver env.now stored.end_time
      → IsDeletable text
  deletable stored text none e h failed over = cc h
  deletable stored text (some impact) e h failed over =
      let (status, end_time) = impact_eq-parts impact stored h in
      (
        impact,
        e,
        status ∙ failed,
        LockoutOver-time_eq env.now impact.end_time stored.end_time end_time over,
      )

  module _ (b : Backend) where
    -- From a cache as it was, the method removes at most one text, a deletable one.
    record AtMostOne {A : Type 0} (m : Exec Session A) : Type 0 where
      pub at : (s : Session) → Untouched env b s → OneRemoved IsDeletable b (m s).1.cache.backend

    none_removed : {A : Type 0} (r : Result A) → AtMostOne (lift r)
    none_removed r = record { at = λ s same. inl same }

    continued-AtMostOne :
        {A B : Type 0} (r : Result A) (f : A → Exec Session B)
        → ((a : A) → AtMostOne (f a))
        → AtMostOne (lift r >>= f)
    continued-AtMostOne (ok a) f one = one a
    continued-AtMostOne (raised e) f one = none_removed (raised e)

    bind-AtMostOne :
        {A B : Type 0} (m : Exec Session A) (f : A → Exec Session B)
        → Keeps (Untouched env b) m
        → ((a : A) → AtMostOne (f a))
        → AtMostOne (m >>= f)
    bind-AtMostOne m f km one = record {
      at = λ s same. (continued-AtMostOne (m s).0 f one).at (m s).1 (km.at s same);
    }

    -- The loop goes on only after a deletion that removed nothing.
    after_deletion :
        (r : Result Bool) (again : Exec Session FailedImpactDeletion) (s : Session)
        → AtMostOne again
        → OneRemoved IsDeletable b s.cache.backend
        → (r ≡ ok false → Untouched env b s)
        → OneRemoved IsDeletable b
            (◌>>=◌ (lift r) (λ removed. deleted_or_again env removed again) s).1.cache.backend
    after_deletion (ok true) again s one removed unless = removed
    after_deletion (ok false) again s one removed unless = one.at s (unless refl)
    after_deletion (raised e) again s one removed unless = removed

    if_then-AtMostOne :
        {A : Type 0} (test : Bool) (m n : Exec Session A)
        → (test ≡ true → AtMostOne m)
        → (test ≡ false → AtMostOne n)
        → AtMostOne (if test then m else n)
    if_then-AtMostOne true m n one other = one refl
    if_then-AtMostOne false m n one other = other refl

    check_and_delete-AtMostOne :
        (stored : CachedReformImpact) (again : Exec Session FailedImpactDeletion)
        → AtMostOne again
        → AtMostOne (check_and_delete env stored again)
    unfolding check_and_delete
    check_and_delete-AtMostOne stored again one =
        let wait = get_reform_impact_seconds_until env.now stored delete_lockout_seconds in
        let removal = λ (failed : stored.status ≡ "error") (over : ltb 0 wait ≡ false).
          delete_failure-Deletes IsDeletable b env.setting stored (λ text is.
            deletable stored text _ refl is failed
              (no_wait-LockoutOver env.now stored stored.end_time refl over)) in
        if_then-AtMostOne (not (str_eq stored.status "error")) _ _
          (λ other. none_removed (ok (not_a_failure stored.status)))
          (λ failed.
            if_then-AtMostOne (ltb 0 wait) _ _ (λ waits. none_removed (ok (locked wait)))
              (λ over. record {
                at = λ s same.
                    let deletion = (removal (is_error stored.status failed) over).at s.cache same in
                    let (r, s') = on_cache (delete_failure env.setting stored) s in
                    after_deletion r again s' one deletion.0 deletion.1;
              }))

    check_stored-AtMostOne :
        (stored : Option CachedReformImpact) (again : Exec Session FailedImpactDeletion)
        → AtMostOne again
        → AtMostOne (check_stored env stored again)
    check_stored-AtMostOne none again one = none_removed (ok not_found)
    check_stored-AtMostOne (some stored) again one = check_and_delete-AtMostOne stored again one

    delete_loop-AtMostOne :
        (setup : SetupOptions) (attempts : ℕ) → AtMostOne (delete_loop env setup attempts)
    unfolding delete_loop
    delete_loop-AtMostOne setup zero = none_removed (raised _)
    delete_loop-AtMostOne setup (suc attempts) =
        bind-AtMostOne {A = Unit {0}} (modify (λ s. record s { setup = setup })) _
          (record { at = λ s same. same })
          (λ _.
            bind-AtMostOne _ _ (get_reusable_impact-Untouched env b)
              (λ stored. check_stored-AtMostOne stored _ (delete_loop-AtMostOne setup attempts)))

  -- Whatever the network and the worker resolution do, a DELETE leaves every value of the whole cache
  -- as it was, except that one value, and no more than one, may be gone: one that decodes to a failed
  -- impact that ended at least ten seconds before the service's clock or has no end. A computing or
  -- finished impact is never removed, nor a failure within its lockout.
  pub delete_failed_removes_only_old_failures :
      (setup : SetupOptions) (s : Session)
      → OneRemoved IsDeletable s.cache.backend
          (delete_failed_economic_impact env setup s).1.cache.backend
  unfolding delete_failed_economic_impact
  delete_failed_removes_only_old_failures setup s =
      (delete_loop-AtMostOne s.cache.backend setup delete_attempts).at s (λ j. refl)
