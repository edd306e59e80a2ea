-- ===== src/Json.antt =====
-- JSON values as Python's `json` reads and writes them, the Python `dict` operations on them, and
-- the texts that a cache stores (`runtime_cache/core.py` encodes every value by `json.dumps`).
pub mod Equality
pub mod Canonical
use policyengine_api.Base.{ℕ, String, Option, none, some, Bool, true, false, str_eq, if◌then◌else◌}

mutual
  -- `num n` is a number equal to the natural number n (4 and 4.0 alike); `lit t` is any other
  -- number, by its text.
  pub data Json : Type 0 where
    null : Json
    bool : Bool → Json
    num : ℕ → Json
    lit : String → Json
    str : String → Json
    arr : Items → Json
    obj : Fields → Json

  pub data Items : Type 0 where
    nil : Items
    cons : Json → Items → Items

  -- a dict, in the order that `sort_keys` or the text gives; a key stands once
  pub data Fields : Type 0 where
    end : Fields
    field : String → Json → Fields → Fields

-- A stored text: what `json.dumps` writes for a value, or a text that `json.loads` refuses.
pub data CacheText : Type 0 where
  doc : Json → CacheText
  plain : String → CacheText

-- d.get(key), with the key's absence kept apart from a null
unfoldable pub lookup : String → Fields → Option Json
lookup k end = none
lookup k (field j v rest) = if str_eq j k then some v else lookup k rest

-- d.get(key), where an absent key reads as None
unfoldable pub get : String → Fields → Json
get k end = null
get k (field j v rest) = if str_eq j k then v else get k rest
