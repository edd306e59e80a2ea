-- ===== src/Cache/Core.antt =====
-- runtime_cache/core.py: keys, envelopes and TTL jitter; its completed-result cache is in
-- Core/Recoverable.
pub mod Recoverable
use Prim.Native.String.{◌++◌}
use native.Mathlib.Nat.{div-lt_iff_lt-mul}
use policyengine_api.Base.{
  ℕ, zero, ◌+◌, ◌-◌, ◌*◌, ◌/◌, ◌≤◌, ◌<◌, ◌≡◌, refl, String, Option, none, some, Bool, true, false,
  not, ltb, leb, ◌==◌, str_eq, if◌then◌else◌, arith, ◌↔◌, eq_refl,
}
use policyengine_api.Base.Int.{ℤ, pos, negsuc}
use policyengine_api.Base.Decimal.{decimal}
use policyengine_api.Json.{
  Json, null, bool, num, str, obj, Fields, end, field, CacheText, doc, plain, get,
}
use policyengine_api.Json.Equality.{json_eq}
use policyengine_api.Json.Canonical.{dumps, canonical, get-canonical_fields}
use policyengine_api.Effect.{Result, ok, raised, value_error}

abbrev pub cache_key_root : String
cache_key_root = "policyengine"

pub record CacheNamespace : Type 0 where
  pub environment : String
  pub service : String

unfoldable pub family_key : CacheNamespace → String → ℕ → String → String
unfolding decimal
family_key ns family version name =
    cache_key_root
    ++ (":"
        ++ (ns.environment
            ++ (":"
                ++ (ns.service
                    ++ (":" ++ (family ++ (":v" ++ (decimal version ++ (":" ++ name)))))))))

-- CacheNamespace.key without a suffix; `sha256` is the hexadecimal digest of the encoded inputs
unfoldable pub key : (CacheText → String) → CacheNamespace → String → ℕ → Fields → String
unfolding family_key dumps
key sha256 ns family version inputs = family_key ns family version (sha256 (dumps (obj inputs)))

unfoldable pub encode_envelope : String → ℕ → Json → CacheText
encode_envelope family version payload = dumps (
    obj (
      field "family" (str family)
        (field "payload" payload (field "schema_version" (num version) end))))

-- `value == n` of Python, where True is 1 and False is 0
abbrev pub equals_number : Json → ℕ → Bool
equals_number (num m) n = m == n
equals_number (bool true) n = n == 1
equals_number (bool false) n = n == 0
equals_number j n = false

-- None is `null`
unfoldable pub decode_envelope : Option CacheText → String → ℕ → Json
unfolding get json_eq
decode_envelope none family version = null
decode_envelope (some (plain s)) family version = null
decode_envelope (some (doc (obj decoded))) family version =
    if not (json_eq (get "family" decoded) (str family))
    then null
    else if not (equals_number (get "schema_version" decoded) version)
    then null
    else get "payload" decoded
decode_envelope (some (doc j)) family version = null

pub decode_envelope-none :
    (family : String) (version : ℕ) → decode_envelope none family version ≡ null
unfolding decode_envelope
decode_envelope-none family version = refl

-- `jitter_fraction` is the fraction part / whole, and `choose_reduction` may return any integer.
unfoldable pub jittered_ttl : ℕ → ℕ → ℕ → (ℕ → ℕ → ℤ) → Result ℕ
jittered_ttl ttl_seconds part whole choose_reduction =
    if leb ttl_seconds 0
    then raised (value_error "cache TTL must be positive")
    else if not (ltb part whole)
    then raised (value_error "TTL jitter fraction must be at least 0 and less than 1")
    else elim (choose_reduction 0 (ttl_seconds * part / whole)) [
      | negsuc n ↦ raised (value_error "TTL jitter reduction is outside the permitted range")
      | pos reduction ↦
          (if leb reduction (ttl_seconds * part / whole)
            then ok (ttl_seconds - reduction)
            else raised (value_error "TTL jitter reduction is outside the permitted range"))
    ]

-- COMPLETED_RESULT_TTL_JITTER_FRACTION is 10 / 100
abbrev pub completed_result_ttl : ℕ → (ℕ → ℕ → ℤ) → Result ℕ
completed_result_ttl ttl_seconds = jittered_ttl ttl_seconds 10 100

-- What was encoded is decoded, its dicts written with their keys in order, by a reader of the same
-- family and version; a reader of another family or version has None.
pub decode-encode_envelope :
    (family other : String) (version later : ℕ) (payload : Json)
    → decode_envelope (some (encode_envelope family version payload)) other later ≡ (
        if str_eq family other
        then (if version == later then canonical payload else null)
        else null)
unfolding decode_envelope encode_envelope dumps
decode-encode_envelope family other version later payload = ground arith

reduction-lt-ttl : (ttl part whole : ℕ) → 0 < ttl → part < whole → ttl * part / whole < ttl
reduction-lt-ttl ttl part whole positive fraction =
    (div-lt_iff_lt-mul {k = whole} (omega arith)).1 (grind arith)

-- A jittered TTL is positive and at most the TTL, and falls short of it by no more than the fraction,
-- whatever number the random choice returns.
pub jittered_ttl_bounds :
    (ttl part whole r : ℕ) (choose : ℕ → ℕ → ℤ)
    → jittered_ttl ttl part whole choose ≡ ok r
    → (0 < r) × (r ≤ ttl) × (ttl ≤ r + ttl * part / whole)
unfolding jittered_ttl
jittered_ttl_bounds ttl part whole r choose h = ground (arith, reduction-lt-ttl ttl part whole)

-- A positive TTL with a fraction below 1 and a choice in the permitted range gives the TTL less the
-- choice.
pub jittered_ttl_succeeds :
    (ttl part whole n : ℕ) (choose : ℕ → ℕ → ℤ)
    → 0 < ttl
    → part < whole
    → choose 0 (ttl * part / whole) ≡ pos n
    → n ≤ ttl * part / whole
    → jittered_ttl ttl part whole choose ≡ ok (ttl - n)
unfolding jittered_ttl
jittered_ttl_succeeds ttl part whole n choose positive fraction chosen small = ground arith
