-- ===== src/Cache/Backend/Indexes.antt =====
-- runtime_cache/fake.py: sorted sets that stay small. Every command but ZADD keeps the size of all
-- sorted sets within any bound; ZADD does when the lowest ranks are removed after it.
use policyengine_api.Base.{
  ℕ, suc, ◌≤◌, ◌≡◌, String, List, [], ◌∷◌, Bool, true, false, str_eq, if◌then◌else◌, length, arith,
  eq_iff, Bool-cases, inl, inr, ◌==◌,
}
use policyengine_api.Base.Int.{ℤ, negsuc}
use policyengine_api.Json.{CacheText, plain}
use policyengine_api.Effect.{Result, ok}
use policyengine_api.Cache.Backend.SortedSet.{SortedSet, pop, pop_all}
use policyengine_api.Cache.Backend.Commands.{
  Backend, SetOptions, purge, get, set, delete_one, delete, expire, pttl, zadd, zrevrange, zrem,
  zremrangebyrank, Script, compare_delete, delete_record, eval, holds,
}
use policyengine_api.Cache.Backend.Trimming.{
  IsUnique, index, length-pop, pop-IsUnique, trimmed_index,
}

-- either branch
if-keeps {ℓ} :
    {A : Type ℓ} (P : A → Type 0) (b : Bool) (x y : A) → P x → P y → P (if b then x else y)
if-keeps P true x y hx hy = hx
if-keeps P false x y hx hy = hy

module _ (n : ℕ) where
  abbrev pub IsSmall : SortedSet → Type 0
  IsSmall z = (length z ≤ n) × IsUnique z

  -- every sorted set has at most `n` members, each of them once
  abbrev pub IsBounded : Backend → Type 0
  IsBounded b = (k : String) → IsSmall (index k b)

  pop-IsSmall : (m : String) (z : SortedSet) → IsSmall z → IsSmall (pop m z)
  pop-IsSmall m z (bound, unique) = (omega (arith, length-pop m z), pop-IsUnique m z unique)

  pop_all-IsSmall : (ms : List String) (z : SortedSet) → IsSmall z → IsSmall (pop_all ms z)
  unfolding pop_all
  pop_all-IsSmall [] z small = small
  pop_all-IsSmall (m ∷ rest) z small = pop_all-IsSmall rest (pop m z) (pop-IsSmall m z small)

  pub purge-IsBounded : (key : String) (b : Backend) → IsBounded b → IsBounded (purge key b)
  unfolding purge
  purge-IsBounded key b bounded k = ground (arith, bounded k)

  pub get-IsBounded : (key : String) (b : Backend) → IsBounded b → IsBounded (get key b).1
  unfolding get
  get-IsBounded = purge-IsBounded

  pub zrevrange-IsBounded :
      (key : String) (start : ℕ) (last : ℤ) (b : Backend)
      → IsBounded b
      → IsBounded (zrevrange key start last b).1
  unfolding zrevrange
  zrevrange-IsBounded key start last = purge-IsBounded key

  pub pttl-IsBounded : (key : String) (b : Backend) → IsBounded b → IsBounded (pttl key b).1
  unfolding pttl
  pttl-IsBounded key b bounded k = ground (arith, purge-IsBounded key b bounded k)

  pub set-IsBounded :
      (key : String) (value : CacheText) (options : SetOptions) (b : Backend)
      → IsBounded b
      → IsBounded (set key value options b).1
  unfolding set
  set-IsBounded key value options b bounded k = ground (arith, purge-IsBounded key b bounded k)

  delete_one-IsBounded : (key : String) (b : Backend) → IsBounded b → IsBounded (delete_one key b).1
  unfolding delete_one
  delete_one-IsBounded key b bounded k = ground (arith, purge-IsBounded key b bounded k)

  pub delete-IsBounded :
      (keys : List String) (b : Backend) → IsBounded b → IsBounded (delete keys b).1
  unfolding delete
  delete-IsBounded [] b bounded = bounded
  delete-IsBounded (key ∷ rest) b bounded =
      delete-IsBounded rest (delete_one key b).1 (delete_one-IsBounded key b bounded)

  pub expire-IsBounded :
      (key : String) (seconds : ℕ) (b : Backend) → IsBounded b → IsBounded (expire key seconds b).1
  unfolding expire
  expire-IsBounded key seconds b bounded k = ground (arith, purge-IsBounded key b bounded k)

  pub zrem-IsBounded :
      (key : String) (ms : List String) (b : Backend) → IsBounded b → IsBounded (zrem key ms b).1
  unfolding zrem
  zrem-IsBounded key ms b bounded k =
      ground (arith, bounded k, pop_all-IsSmall ms (index key b), bounded key, eq_iff key k)

  compare_delete-IsBounded :
      (key : String) (expected : CacheText) (b : Backend)
      → IsBounded b
      → IsBounded (compare_delete key expected b).1
  unfolding compare_delete get
  compare_delete-IsBounded key expected b bounded =
      let purged = purge-IsBounded key b bounded in
      if-keeps (λ (r : ℕ × Backend). IsBounded r.1) (holds ((purge key b).values key) expected)
        (delete (key ∷ []) (purge key b)) (0, purge key b)
        (delete-IsBounded (key ∷ []) (purge key b) purged) purged

  delete_record-IsBounded :
      (r s q : String) (expected : CacheText) (b : Backend)
      → IsBounded b
      → IsBounded (delete_record r s q expected b).1
  unfolding delete_record get
  delete_record-IsBounded r s q expected b bounded =
      let b1 = purge r b in
      let purged = purge-IsBounded r b bounded in
      let b2 = (delete (r ∷ []) b1).1 in
      let deleted = delete-IsBounded (r ∷ []) b1 purged in
      let b3 = (zrem s (r ∷ []) b2).1 in
      let removed = zrem-IsBounded s (r ∷ []) b2 deleted in
      let last = zrem-IsBounded q (r ∷ []) b3 removed in
      if-keeps (λ (o : ℕ × Backend). IsBounded o.1) (holds (b1.values r) expected)
        (1, (zrem q (r ∷ []) b3).1) (0, b1) last purged

  pub eval-IsBounded :
      (script : Script) (numkeys : ℕ) (args : List CacheText) (b : Backend)
      → IsBounded b
      → IsBounded (eval script numkeys args b).1
  unfolding eval
  eval-IsBounded Script.delete_unchanged_record numkeys
        (plain r ∷ plain s ∷ plain q ∷ expected ∷ []) b bounded =
      let done = delete_record r s q expected b in
      if-keeps (λ (o : Result ℕ × Backend). IsBounded o.1) (numkeys == 3) (ok done.0, done.1) (_, b)
        (delete_record-IsBounded r s q expected b bounded) bounded
  eval-IsBounded Script.delete_unchanged_record numkeys args b bounded = bounded
  eval-IsBounded Script.compare_and_delete numkeys (plain key ∷ expected ∷ []) b bounded =
      let done = compare_delete key expected b in
      if-keeps (λ (o : Result ℕ × Backend). IsBounded o.1) (numkeys == 1) (ok done.0, done.1) (_, b)
        (compare_delete-IsBounded key expected b bounded) bounded
  eval-IsBounded Script.compare_and_delete numkeys args b bounded = bounded

module _ (key : String) where
  index-purge_other :
      (k : String) (b : Backend) → str_eq key k ≡ false → index k (purge key b) ≡ index k b
  unfolding purge
  index-purge_other k b other = ground arith

  index-zadd_other :
      (mapping : List (String × ℕ)) (k : String) (b : Backend)
      → str_eq key k ≡ false
      → index k (zadd key mapping b).1 ≡ index k b
  unfolding zadd
  index-zadd_other mapping k b other = rw other (index-purge_other k b other)

  index-zremrangebyrank_other :
      (start : ℕ) (last : ℤ) (k : String) (b : Backend)
      → str_eq key k ≡ false
      → index k (zremrangebyrank key start last b).1 ≡ index k b
  unfolding zremrangebyrank zrem
  index-zremrangebyrank_other start last k b other = ground (arith, index-purge_other k b other)

module _ (m : ℕ) where
  -- ZADD, and the removal of the lowest ranks
  pub trim-IsBounded :
      (key : String) (mapping : List (String × ℕ)) (b : Backend)
      → IsBounded (suc m) b
      → IsBounded (suc m) (zremrangebyrank key 0 (negsuc (suc m)) (zadd key mapping b).1).1
  trim-IsBounded key mapping b bounded k = elim (Bool-cases (str_eq key k)) [
    | inl same ↦ rw (← (eq_iff key k).0 same) (trimmed_index key mapping m b (bounded key).1)
    | inr other ↦
        rw
          (
            index-zremrangebyrank_other key 0 (negsuc (suc m)) k (zadd key mapping b).1 other,
            index-zadd_other key mapping k b other,
          )
          (bounded k)
  ]
