-- ===== src/Cache/Backend/SortedSet.antt =====
-- The sorted sets of `InMemoryCacheBackend`: a dict from member to score, in insertion order.
use Prim.Native.Nat.{Ordering}
use Prim.Native.String.{compare}
use policyengine_api.Base.{
  ℕ, suc, ◌+◌, ◌-◌, String, List, [], ◌∷◌, Bool, true, false, ◌&&◌, ◌||◌, ltb, ◌==◌, str_eq,
  if◌then◌else◌, length, take, drop,
}
use policyengine_api.Base.Int.{ℤ, pos, negsuc}

abbrev pub SortedSet : Type 0
SortedSet = List (String × ℕ)

unfoldable pub has : String → SortedSet → Bool
has m [] = false
has m ((k, s) ∷ rest) = str_eq k m || has m rest

-- values[member] = score
unfoldable pub upsert : String → ℕ → SortedSet → SortedSet
upsert m s [] = (m, s) ∷ []
upsert m s ((k, t) ∷ rest) =
    let others = upsert m s rest in if str_eq k m then (k, s) ∷ rest else (k, t) ∷ others

-- values.pop(member, None)
unfoldable pub pop : String → SortedSet → SortedSet
pop m [] = []
pop m ((k, s) ∷ rest) = let others = pop m rest in if str_eq k m then rest else (k, s) ∷ others

-- values.update(mapping)
unfoldable pub update : List (String × ℕ) → SortedSet → SortedSet
unfolding upsert
update [] z = z
update ((m, s) ∷ rest) z = update rest (upsert m s z)

unfoldable pub pop_all : List String → SortedSet → SortedSet
unfolding pop
pop_all [] z = z
pop_all (m ∷ rest) z = pop_all rest (pop m z)

-- sum(member in values for member in members)
unfoldable pub count_present : List String → SortedSet → ℕ
unfolding has
count_present [] z = 0
count_present (m ∷ rest) z = (if has m z then 1 else 0) + count_present rest z

abbrev str_le : String → String → Bool
str_le a b = elim (compare a b) [ Ordering.gt ↦ false | _ ↦ true ]

-- (item[1], item[0]) <= (other[1], other[0])
unfoldable pub item_le : String × ℕ → String × ℕ → Bool
item_le (m, s) (k, t) = ltb s t || (s == t && str_le m k)

unfoldable pub insert_item : String × ℕ → SortedSet → SortedSet
unfolding item_le
insert_item x [] = x ∷ []
insert_item x (y ∷ rest) =
    let others = insert_item x rest in if item_le x y then x ∷ y ∷ rest else y ∷ others

-- sorted(values.items(), key=lambda item: (item[1], item[0]))
unfoldable pub ascending : SortedSet → SortedSet
unfolding insert_item
ascending [] = []
ascending (x ∷ rest) = insert_item x (ascending rest)

-- ordered[start:stop], where `stop` is None for an end of -1, and end + 1 otherwise
unfoldable pub rank_slice {ℓ} : {A : Type ℓ} → ℕ → ℤ → List A → List A
rank_slice start (pos n) xs = drop start (take (suc n) xs)
rank_slice start (negsuc ℕ.zero) xs = drop start xs
rank_slice start (negsuc (suc n)) xs = drop start (take (length xs - suc n) xs)

abbrev pub member : String × ℕ → String
member (m, s) = m
