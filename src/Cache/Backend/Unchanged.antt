-- ===== src/Cache/Backend/Unchanged.antt =====
-- runtime_cache/fake.py: the sorted-set commands, which leave what a reader of values sees.
use policyengine_api.Base.{
  ℕ, ◌<◌, ◌≡◌, refl, ◌∙◌, String, List, [], ◌∷◌, ◌&&◌, none, Bool, true, false, str_eq,
  if◌then◌else◌, arith, eq_iff,
}
use policyengine_api.Base.Int.{ℤ}
use policyengine_api.Json.{CacheText}
use policyengine_api.Cache.Backend.Commands.{
  Backend, purge, get, expire, pttl, zadd, zrevrange, zrem, zremrangebyrank, compare_delete,
  delete_record, holds, delete,
}
use policyengine_api.Cache.Backend.Expiry.{view, view-purge, view-compare_delete}

-- Every reader sees in `c` what it sees in `b`, and the clocks agree.
pub record Unchanged (b c : Backend) : Type 0 where
  pub values : (j : String) → view c j ≡ view b j
  pub clock : c.external_now ≡ b.external_now

pub Unchanged-trans : {b c d : Backend} → Unchanged b c → Unchanged c d → Unchanged b d
Unchanged-trans p q = record { values = λ j. q.values j ∙ p.values j; clock = q.clock ∙ p.clock }

pub purge-Unchanged : (key : String) (b : Backend) → Unchanged b (purge key b)
unfolding purge
purge-Unchanged key b = record { values = view-purge b key; clock = ground arith }

pub zadd-Unchanged :
    (key : String) (mapping : List (String × ℕ)) (b : Backend) → Unchanged b (zadd key mapping b).1
unfolding zadd view
zadd-Unchanged key mapping b = record {
  values = λ j. ground (arith, eq_iff key j);
  clock = ground arith;
}

pub zrem-Unchanged : (key : String) (ms : List String) (b : Backend) → Unchanged b (zrem key ms b).1
unfolding zrem view
zrem-Unchanged key ms b = record { values = λ j. ground arith; clock = ground arith }

pub zremrangebyrank-Unchanged :
    (key : String) (start : ℕ) (last : ℤ) (b : Backend)
    → Unchanged b (zremrangebyrank key start last b).1
unfolding zremrangebyrank
zremrangebyrank-Unchanged key start last b =
    Unchanged-trans (purge-Unchanged key b) (zrem-Unchanged key _ (purge key b))

pub expire-Unchanged :
    (key : String) (seconds : ℕ) (b : Backend) → 0 < seconds → Unchanged b (expire key seconds b).1
unfolding expire view
expire-Unchanged key seconds b lasting = record {
  values = λ j. ground (arith, eq_iff key j);
  clock = ground arith;
}

pub get-Unchanged : (key : String) (b : Backend) → Unchanged b (get key b).1
unfolding get
get-Unchanged = purge-Unchanged

pub zrevrange-Unchanged :
    (key : String) (start : ℕ) (last : ℤ) (b : Backend) → Unchanged b (zrevrange key start last b).1
unfolding zrevrange
zrevrange-Unchanged key start last = purge-Unchanged key

pub pttl-Unchanged : (key : String) (b : Backend) → Unchanged b (pttl key b).1
unfolding pttl
pttl-Unchanged key b = ground (arith, purge-Unchanged key b)

same_choice :
    (chosen : Bool) (n m : ℕ) (c d e : Backend) (j : String)
    → view c j ≡ view d j
    → let choice : (ℕ → Backend → ℕ × Backend) = λ k b. if chosen then (k, b) else (0, e) in
      view (choice n c).1 j ≡ view (choice m d).1 j
same_choice true n m c d e j same = same
same_choice false n m c d e j same = refl

-- What readers see after the record script. On values it does what the compare-and-delete does.
pub view-delete_record :
    (r s q : String) (expected : CacheText) (b : Backend) (j : String)
    → view (delete_record r s q expected b).1 j
      ≡ (if holds (view b r) expected && str_eq r j then none else view b j)
unfolding delete_record compare_delete
view-delete_record r s q expected b j =
    let b1 = (get r b).1 in
    let deleted = delete (r ∷ []) b1 in
    let b3 = (zrem s (r ∷ []) deleted.1).1 in
    let b4 = (zrem q (r ∷ []) b3).1 in
    same_choice (holds (get r b).0 expected) 1 deleted.0 b4 deleted.1 b1 j
      ((zrem-Unchanged q (r ∷ []) b3).values j ∙ (zrem-Unchanged s (r ∷ []) deleted.1).values j)
    ∙ view-compare_delete b r expected j
