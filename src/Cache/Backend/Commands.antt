-- ===== src/Cache/Backend/Commands.antt =====
-- The state of `InMemoryCacheBackend` and its methods, one function each.
use mathlib.Core.List.{reverse}
use policyengine_api.Base.{
  ℕ, ◌+◌, ◌-◌, ◌*◌, ◌/◌, String, List, [], ◌∷◌, map, Option, none, some, Bool, true, false, not,
  ◌&&◌, ◌||◌, leb, ◌==◌, str_eq, if◌then◌else◌, is_some, length,
}
use policyengine_api.Base.Int.{ℤ, pos, negsuc}
use policyengine_api.Json.{CacheText, plain}
use policyengine_api.Json.Equality.{text_eq}
use policyengine_api.Effect.{value_error, runtime_error, Result, ok, raised}
use policyengine_api.Cache.Backend.SortedSet.{
  SortedSet, update, pop_all, count_present, ascending, rank_slice, member,
}

-- A dict that is never iterated over.
abbrev pub Dict : Type 0 → Type 0
Dict V = String → Option V

abbrev pub put : {V : Type 0} → String → V → Dict V → Dict V
put k v d j = if str_eq k j then some v else d j

abbrev pub drop_key : {V : Type 0} → String → Dict V → Dict V
drop_key k d j = if str_eq k j then none else d j

abbrev pub second : ℕ
second = 1_000_000

pub record Backend : Type 0 where
  pub external_now : Option ℕ
  pub time : ℕ
  pub values : Dict CacheText
  pub expires : Dict ℕ
  pub sorted_sets : Dict SortedSet

abbrev pub empty : Backend
empty = record {
  external_now = none;
  time = 0;
  values = λ k. none;
  expires = λ k. none;
  sorted_sets = λ k. none;
}

abbrev pub now : Backend → ℕ
now b = elim b.external_now [ none ↦ b.time | some t ↦ t ]

unfoldable pub advance : ℕ → Backend → Result (Unit {0}) × Backend
advance microseconds b = elim b.external_now [
  | some t ↦ (raised (runtime_error "cannot advance an externally clocked fake"), b)
  | none ↦ (ok tt, record b { time = b.time + microseconds })
]

abbrev forget : String → Backend → Backend
forget key b = record b {
  values = drop_key key b.values;
  expires = drop_key key b.expires;
  sorted_sets = drop_key key b.sorted_sets;
}

abbrev lapsed : Option ℕ → ℕ → Bool
lapsed none t = false
lapsed (some expires_at) t = leb expires_at t

unfoldable pub purge : String → Backend → Backend
purge key b = if lapsed (b.expires key) (now b) then forget key b else b

unfoldable pub get : String → Backend → Option CacheText × Backend
unfolding purge
get key b = let b' = purge key b in (b'.values key, b')

pub record SetOptions : Type 0 where
  pub ex : Option ℕ
  pub nx : Bool
  pub xx : Bool

-- `some true` is True, `none` is None
unfoldable pub set : String → CacheText → SetOptions → Backend → Option Bool × Backend
unfolding purge
set key value options b =
    let b' = purge key b in
    if (options.nx && is_some (b'.values key)) || (options.xx && not (is_some (b'.values key)))
    then (none, b')
    else (
      some true,
      record b' {
        values = put key value b'.values;
        expires = elim options.ex [
          | none ↦ drop_key key b'.expires
          | some seconds ↦ put key (now b' + seconds * second) b'.expires
        ];
      },
    )

abbrev pub exists : String → Backend → Bool
exists key b = is_some (b.values key) || is_some (b.sorted_sets key)

unfoldable pub delete_one : String → Backend → ℕ × Backend
unfolding purge
delete_one key b = let b' = purge key b in ((if exists key b' then 1 else 0), forget key b')

unfoldable pub delete : List String → Backend → ℕ × Backend
unfolding delete_one
delete [] b = (0, b)
delete (key ∷ rest) b =
    let (n, b') = delete_one key b in let (m, b'') = delete rest b' in (n + m, b'')

unfoldable pub expire : String → ℕ → Backend → Bool × Backend
unfolding purge
expire key seconds b =
    let b' = purge key b in
    if exists key b'
    then (true, record b' { expires = put key (now b' + seconds * second) b'.expires })
    else (false, b')

-- PTTL_MISSING_KEY and PTTL_NO_EXPIRY of runtime_cache/core.py
abbrev pub pttl_missing_key : ℤ
pttl_missing_key = negsuc 1

abbrev pub pttl_no_expiry : ℤ
pttl_no_expiry = negsuc 0

-- math.ceil of microseconds over 1000
abbrev pub milliseconds_up : ℕ → ℕ
milliseconds_up n = (n + 999) / 1000

unfoldable pub pttl : String → Backend → ℤ × Backend
unfolding purge
pttl key b =
    let b' = purge key b in
    if exists key b'
    then (
      elim (b'.expires key) [
        | none ↦ pttl_no_expiry
        | some expires_at ↦ pos (milliseconds_up (expires_at - now b'))
      ],
      b',
    )
    else (pttl_missing_key, b')

abbrev pub set_of : Option SortedSet → SortedSet
set_of none = []
set_of (some z) = z

unfoldable pub zadd : String → List (String × ℕ) → Backend → ℕ × Backend
unfolding purge update count_present
zadd key mapping b =
    let b' = purge key b in
    let z = set_of (b'.sorted_sets key) in
    (
      length mapping - count_present (map member mapping) z,
      record b' { sorted_sets = put key (update mapping z) b'.sorted_sets },
    )

unfoldable pub zrevrange : String → ℕ → ℤ → Backend → List String × Backend
unfolding purge ascending rank_slice
zrevrange key start last b =
    let b' = purge key b in
    (map member (rank_slice start last (reverse (ascending (set_of (b'.sorted_sets key))))), b')

-- `self._sorted_sets.get(key, {})`: without the key the removal acts on a dict that is dropped
unfoldable pub zrem : String → List String → Backend → ℕ × Backend
unfolding pop_all count_present
zrem key members b = elim (b.sorted_sets key) [
  | none ↦ (0, b)
  | some z ↦ (
    count_present members z,
    record b { sorted_sets = put key (pop_all members z) b.sorted_sets },
  )
]

unfoldable pub zremrangebyrank : String → ℕ → ℤ → Backend → ℕ × Backend
unfolding purge ascending rank_slice zrem
zremrangebyrank key start last b =
    let b' = purge key b in
    zrem key (map member (rank_slice start last (ascending (set_of (b'.sorted_sets key))))) b'

-- The two Lua scripts of the runtime cache: claims.py and reform_impacts.py.
pub data Script : Type 0 where
  compare_and_delete delete_unchanged_record : Script

abbrev pub holds : Option CacheText → CacheText → Bool
holds none expected = false
holds (some v) expected = text_eq v expected

unfoldable pub compare_delete : String → CacheText → Backend → ℕ × Backend
unfolding get delete text_eq
compare_delete key expected b =
    let (value, b') = get key b in if holds value expected then delete (key ∷ []) b' else (0, b')

unfoldable pub delete_record : String → String → String → CacheText → Backend → ℕ × Backend
unfolding get delete zrem text_eq
delete_record record_key scope_index recent_index expected b =
    let (value, b1) = get record_key b in
    let (n, b2) = delete (record_key ∷ []) b1 in
    let (k, b3) = zrem scope_index (record_key ∷ []) b2 in
    let (m, b4) = zrem recent_index (record_key ∷ []) b3 in
    if holds value expected then (1, b4) else (0, b1)

-- The keys and arguments of EVAL are texts; a key is `plain`.
unfoldable pub eval : Script → ℕ → List CacheText → Backend → Result ℕ × Backend
unfolding compare_delete delete_record
eval delete_unchanged_record numkeys (plain r ∷ plain s ∷ plain q ∷ expected ∷ []) b =
    if numkeys == 3
    then (let (n, b') = delete_record r s q expected b in (ok n, b'))
    else (raised (value_error "the record delete takes three keys and one argument"), b)
eval delete_unchanged_record numkeys args b =
    (raised (value_error "the record delete takes three keys and one argument"), b)
eval compare_and_delete numkeys (plain key ∷ expected ∷ []) b =
    if numkeys == 1
    then (let (n, b') = compare_delete key expected b in (ok n, b'))
    else (raised (value_error "fake supports one-key compare-and-delete only"), b)
eval compare_and_delete numkeys args b =
    (raised (value_error "fake supports one-key compare-and-delete only"), b)
