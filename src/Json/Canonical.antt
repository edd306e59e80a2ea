-- ===== src/Json/Canonical.antt =====
-- `json.dumps(..., sort_keys=True)`: every dict in a value is written with its keys in order.
use Prim.Native.Nat.{Ordering}
use Prim.Native.String.{compare}
use mathlib.Core.Option
use text.Mathlib.TextPositions.{compare_refl}
use policyengine_api.Base.{
  String, ◌≡◌, refl, Bool, true, false, str_eq, eq_iff, arith, some, if◌then◌else◌,
}
use policyengine_api.Json.{
  Json, null, bool, num, lit, str, arr, obj, Items, nil, cons, Fields, end, field, CacheText, doc,
  lookup, get,
}

abbrev key_le : String → String → Bool
key_le a b = elim (compare a b) [ Ordering.gt ↦ false | _ ↦ true ]

unfoldable pub insert_key : String → Json → Fields → Fields
insert_key k v end = field k v end
insert_key k v (field j w rest) =
    let later = insert_key k v rest in
    if key_le k j then field k v (field j w rest) else field j w later

unfoldable mutual
  pub canonical : Json → Json
  canonical null = null
  canonical (bool b) = bool b
  canonical (num n) = num n
  canonical (lit t) = lit t
  canonical (str s) = str s
  canonical (arr xs) = arr (canonical_items xs)
  canonical (obj f) = obj (canonical_fields f)

  pub canonical_items : Items → Items
  canonical_items nil = nil
  canonical_items (cons x rest) = cons (canonical x) (canonical_items rest)

  pub canonical_fields : Fields → Fields
  canonical_fields end = end
  canonical_fields (field k v rest) = insert_key k (canonical v) (canonical_fields rest)

-- json.dumps(value, sort_keys=True, separators=(",", ":"), default=str)
unfoldable pub dumps : Json → CacheText
unfolding canonical canonical_fields canonical_items insert_key
dumps j = doc (canonical j)

key_le_self : (k : String) → key_le k k ≡ true
key_le_self k = ground (arith, compare_refl k)

lookup-insert_key :
    (i k : String) (v : Json) (f : Fields)
    → lookup i (insert_key k v f) ≡ (if str_eq k i then some v else lookup i f)
unfolding lookup insert_key
lookup-insert_key i k v end = refl
lookup-insert_key i k v (field j w rest) =
    ground (arith, lookup-insert_key i k v rest, eq_iff k i, eq_iff j i, key_le_self k)

-- Sorting the keys changes no dict's content.
pub lookup-canonical_fields :
    (i : String) (f : Fields) → lookup i (canonical_fields f) ≡ Option.map canonical (lookup i f)
unfolding lookup canonical_fields
lookup-canonical_fields i end = refl
lookup-canonical_fields i (field k v rest) =
    rw lookup-insert_key (ground (arith, lookup-canonical_fields i rest))

get-lookup : (i : String) (f : Fields) → get i f ≡ Option.get_or (lookup i f) null
unfolding get lookup
get-lookup i end = refl
get-lookup i (field k v rest) = ground (arith, get-lookup i rest)

pub get-canonical_fields :
    (i : String) (f : Fields) → get i (canonical_fields f) ≡ canonical (get i f)
unfolding canonical
get-canonical_fields i f =
    ground (arith, get-lookup i f, get-lookup i (canonical_fields f), lookup-canonical_fields i f)
