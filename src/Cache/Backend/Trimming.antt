-- ===== src/Cache/Backend/Trimming.antt =====
-- runtime_cache/fake.py: the size of a sorted set whose lowest ranks are removed, as
-- runtime_cache/reform_impacts.py does with its indexes.
use Prim.Native.Nat.{min}
use policyengine_api.Base.{
  ℕ, zero, suc, ◌+◌, ◌-◌, ◌≤◌, ◌≡◌, refl, sym, ◌∙◌, ap, String, List, [], ◌∷◌, map, true, false,
  ◌||◌, str_eq, if◌then◌else◌, length, take, length-take, arith, eq_iff, eq_refl,
}
use policyengine_api.Base.Int.{negsuc}
use policyengine_api.Cache.Backend.SortedSet.{
  SortedSet, has, pop, pop_all, insert_item, ascending, rank_slice, member, upsert, update,
}
use policyengine_api.Cache.Backend.Commands.{Backend, purge, zadd, zrem, zremrangebyrank, set_of}

-- a member stands once, as in a dict
abbrev pub IsUnique : SortedSet → Type 0
IsUnique [] = Unit
IsUnique ((m, s) ∷ rest) = (has m rest ≡ false) × IsUnique rest

pub length-pop :
    (m : String) (z : SortedSet) → length (pop m z) + (if has m z then 1 else 0) ≡ length z
unfolding has pop
length-pop m [] = omega arith
length-pop m ((k, s) ∷ rest) = ground (arith, length-pop m rest)

has-pop : (k m : String) (z : SortedSet) → str_eq m k ≡ false → has k (pop m z) ≡ has k z
unfolding has pop
has-pop k m [] differs = refl
has-pop k m ((j, s) ∷ rest) differs = ground (arith, has-pop k m rest differs, eq_iff j m)

length-pop_all :
    (ys z : SortedSet)
    → IsUnique ys
    → ((k : String) → has k ys ≡ true → has k z ≡ true)
    → length (pop_all (map member ys) z) + length ys ≡ length z
unfolding has pop_all
length-pop_all [] z unique inside = omega arith
length-pop_all ((m, s) ∷ rest) z unique inside =
    let present : has m z ≡ true = inside m (ground (arith, eq_refl m)) in
    let popped = length-pop m z in
    let later = length-pop_all rest (pop m z) unique.1 (λ k h.
      has-pop k m z (ground (arith, eq_iff m k, h, unique.0)) ∙ inside k (ground (arith, h))) in
    grind (arith, present, popped, later)

has-insert_item :
    (k : String) (m : String) (s : ℕ) (z : SortedSet)
    → has k (insert_item (m, s) z) ≡ (str_eq m k || has k z)
unfolding has insert_item
has-insert_item k m s [] = refl
has-insert_item k m s ((j, t) ∷ rest) = ground (arith, has-insert_item k m s rest)

insert_item-IsUnique :
    (m : String) (s : ℕ) (z : SortedSet)
    → has m z ≡ false
    → IsUnique z
    → IsUnique (insert_item (m, s) z)
unfolding has insert_item
insert_item-IsUnique m s [] absent unique = (refl, tt)
insert_item-IsUnique m s ((j, t) ∷ rest) absent unique =
    ground
      (arith, has-insert_item j m s rest, insert_item-IsUnique m s rest, eq_iff m j, eq_iff j m)

has-ascending : (k : String) (z : SortedSet) → has k (ascending z) ≡ has k z
unfolding has ascending
has-ascending k [] = refl
has-ascending k ((m, s) ∷ rest) =
    has-insert_item k m s (ascending rest) ∙ rw (has-ascending k rest) refl

ascending-IsUnique : (z : SortedSet) → IsUnique z → IsUnique (ascending z)
unfolding ascending
ascending-IsUnique [] unique = tt
ascending-IsUnique ((m, s) ∷ rest) unique =
    insert_item-IsUnique m s (ascending rest) (has-ascending m rest ∙ unique.0)
      (ascending-IsUnique rest unique.1)

length-insert_item : (x : String × ℕ) (z : SortedSet) → length (insert_item x z) ≡ suc (length z)
unfolding insert_item
length-insert_item x [] = refl
length-insert_item x (y ∷ rest) = ground (arith, length-insert_item x rest)

length-ascending : (z : SortedSet) → length (ascending z) ≡ length z
unfolding ascending
length-ascending [] = refl
length-ascending (x ∷ rest) = length-insert_item x (ascending rest) ∙ ap suc (length-ascending rest)

has-take : (k : String) (n : ℕ) (z : SortedSet) → has k (take n z) ≡ true → has k z ≡ true
unfolding has
has-take k zero z h = ground arith
has-take k (suc n) [] h = h
has-take k (suc n) ((m, s) ∷ rest) h = ground (arith, has-take k n rest)

take-IsUnique : (n : ℕ) (z : SortedSet) → IsUnique z → IsUnique (take n z)
take-IsUnique zero z unique = tt
take-IsUnique (suc n) [] unique = tt
take-IsUnique (suc n) ((m, s) ∷ rest) unique =
    (ground (arith, has-take m n rest, unique.0), take-IsUnique n rest unique.1)

-- the members that are left by the removal of the ranks from 0 to -(limit + 1)
length-trimmed :
    (m : ℕ) (z : SortedSet)
    → IsUnique z
    → length (pop_all (map member (rank_slice 0 (negsuc (suc m)) (ascending z))) z)
      ≡ min (length z) (suc m)
unfolding rank_slice
length-trimmed m z unique =
    let left = length (ascending z) - suc m in
    let lowest = take left (ascending z) in
    let removed =
      length-pop_all lowest z (take-IsUnique left (ascending z) (ascending-IsUnique z unique))
        (λ k h. let found = has-take k left (ascending z) h in sym (has-ascending k z) ∙ found) in
    omega (arith, removed, length-take left (ascending z), length-ascending z)

has-pop_any : (k m : String) (z : SortedSet) → has k z ≡ false → has k (pop m z) ≡ false
unfolding has pop
has-pop_any k m [] absent = refl
has-pop_any k m ((j, s) ∷ rest) absent = ground (arith, has-pop_any k m rest)

pub pop-IsUnique : (m : String) (z : SortedSet) → IsUnique z → IsUnique (pop m z)
unfolding has pop
pop-IsUnique m [] unique = tt
pop-IsUnique m ((j, s) ∷ rest) unique = ground (arith, has-pop_any j m rest, pop-IsUnique m rest)

pop_all-IsUnique : (ms : List String) (z : SortedSet) → IsUnique z → IsUnique (pop_all ms z)
unfolding pop_all
pop_all-IsUnique [] z unique = unique
pop_all-IsUnique (m ∷ rest) z unique = pop_all-IsUnique rest (pop m z) (pop-IsUnique m z unique)

has-upsert : (k m : String) (s : ℕ) (z : SortedSet) → has k (upsert m s z) ≡ (str_eq m k || has k z)
unfolding has upsert
has-upsert k m s [] = refl
has-upsert k m s ((j, t) ∷ rest) = ground (arith, has-upsert k m s rest, eq_iff j m)

upsert-IsUnique : (m : String) (s : ℕ) (z : SortedSet) → IsUnique z → IsUnique (upsert m s z)
unfolding has upsert
upsert-IsUnique m s [] unique = (refl, tt)
upsert-IsUnique m s ((j, t) ∷ rest) unique =
    ground (arith, has-upsert j m s rest, upsert-IsUnique m s rest, eq_iff m j, eq_iff j m)

update-IsUnique :
    (mapping : List (String × ℕ)) (z : SortedSet) → IsUnique z → IsUnique (update mapping z)
unfolding update
update-IsUnique [] z unique = unique
update-IsUnique ((m, s) ∷ rest) z unique =
    update-IsUnique rest (upsert m s z) (upsert-IsUnique m s z unique)

purge-IsUnique :
    (key : String) (b : Backend)
    → IsUnique (set_of (b.sorted_sets key))
    → IsUnique (set_of ((purge key b).sorted_sets key))
unfolding purge
purge-IsUnique key b unique = ground (arith, eq_refl key)

-- the set of the key
abbrev pub index : String → Backend → SortedSet
index key b = set_of (b.sorted_sets key)

pub index-zadd :
    (key : String) (mapping : List (String × ℕ)) (b : Backend)
    → index key (zadd key mapping b).1 ≡ update mapping (index key (purge key b))
unfolding zadd
index-zadd key mapping b = rw (eq_refl key) refl

pop_all-empty : (ms : List String) → pop_all ms [] ≡ []
unfolding pop_all pop
pop_all-empty [] = refl
pop_all-empty (m ∷ rest) = pop_all-empty rest

index-zrem :
    (key : String) (ms : List String) (b : Backend)
    → index key (zrem key ms b).1 ≡ pop_all ms (index key b)
unfolding zrem
index-zrem key ms b = ground (arith, eq_refl key, pop_all-empty ms)

-- An index that gets new members and then loses the ranks from 0 to -(limit + 1) has at most `limit`
-- members, each of them once.
pub trimmed_index :
    (key : String) (mapping : List (String × ℕ)) (m : ℕ) (b : Backend)
    → IsUnique (index key b)
    → let trimmed = index key (zremrangebyrank key 0 (negsuc (suc m)) (zadd key mapping b).1).1 in
      (length trimmed ≤ suc m) × IsUnique trimmed
unfolding zremrangebyrank
trimmed_index key mapping m b unique =
    let b' = (zadd key mapping b).1 in
    let added : IsUnique (index key b') =
      rw (index-zadd key mapping b)
        (update-IsUnique mapping (index key (purge key b)) (purge-IsUnique key b unique)) in
    let z = index key (purge key b') in
    let z-IsUnique = purge-IsUnique key b' added in
    let bound = length-trimmed m z z-IsUnique in
    rw index-zrem (
      omega (arith, bound),
      pop_all-IsUnique (map member (rank_slice 0 (negsuc (suc m)) (ascending z))) z z-IsUnique,
    )
