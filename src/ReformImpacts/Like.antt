-- ===== src/ReformImpacts/Like.antt =====
-- runtime_cache/reform_impacts.py: `_like_matches`, a SQL LIKE pattern that is compiled to a regular
-- expression, and services/economy_stored_impacts.py: the pattern that looks up an options hash.
-- A text is the list of its code points.
pub mod Exact
pub mod Lookup
use Prim.Native.Char.{code}
use policyengine_api.Base.{
  ℕ, String, List, [], ◌∷◌, ◌++◌, Bool, true, false, not, ◌&&◌, ◌||◌, ◌==◌, if◌then◌else◌,
}

abbrev pub Codes : Type 0
Codes = List ℕ

abbrev pub codes : String → Codes
codes String.[] = []
codes (String.◌∷◌ c s) = code c ∷ codes s

abbrev pub newline : ℕ
newline = 10

abbrev pub backslash : ℕ
backslash = 92

-- the parts of the regular expression: `.*`, `.` and an escaped character
pub data Item : Type 0 where
  star : Item
  any : Item
  literal : ℕ → Item

abbrev pub Expression : Type 0
Expression = List Item

-- the loop over the pattern, with its flag; a last escape character stands for itself
unfoldable pub expression : Bool → Codes → Expression
expression true [] = literal backslash ∷ []
expression false [] = []
expression true (c ∷ rest) = literal c ∷ expression false rest
expression false (c ∷ rest) =
    let escape = expression true rest in
    let later = expression false rest in
    if c == backslash
    then escape
    else if c == b'%'
    then star ∷ later
    else if c == b'_'
    then any ∷ later
    else literal c ∷ later

-- `$`: at the end, or before a newline that ends the text
abbrev pub at_end : Codes → Bool
at_end [] = true
at_end (c ∷ []) = c == newline
at_end _ = false

-- Python's search for a match of `^...$`; the dot stands for no newline
unfoldable pub accepted : Expression → Codes → Bool
accepted [] s = at_end s
accepted (literal c ∷ p) [] = false
accepted (literal c ∷ p) (d ∷ s) = (c == d) && accepted p s
accepted (any ∷ p) [] = false
accepted (any ∷ p) (d ∷ s) = not (d == newline) && accepted p s
accepted (star ∷ p) [] = accepted p []
accepted (star ∷ p) (d ∷ s) = accepted p (d ∷ s) || (not (d == newline) && accepted (star ∷ p) s)

unfoldable pub like_matches : Codes → Codes → Bool
unfolding expression accepted
like_matches value pattern = accepted (expression false pattern) value

-- text.replace(c, new), for a single character
unfoldable pub replace : ℕ → Codes → Codes → Codes
replace c new [] = []
replace c new (d ∷ s) = let later = replace c new s in if d == c then new ++ later else d ∷ later

abbrev ends_with : ℕ → Codes → Bool
ends_with c [] = false
ends_with c (d ∷ []) = d == c
ends_with c (d ∷ s) = ends_with c s

-- text[:-1]
abbrev pub init : Codes → Codes
init [] = []
init (c ∷ []) = []
init (c ∷ s) = c ∷ init s

abbrev pub escaped : Codes → Codes
escaped s =
    replace b'_' (backslash ∷ b'_' ∷ [])
      (replace b'%' (backslash ∷ b'%' ∷ []) (replace backslash (backslash ∷ backslash ∷ []) s))

-- _build_options_hash_lookup_pattern
unfoldable pub lookup_pattern : Codes → Codes
unfolding replace
lookup_pattern options_hash =
    if ends_with b']' options_hash
    then init (escaped options_hash) ++ b'&' ∷ b'%' ∷ []
    else escaped options_hash ++ b'%' ∷ []
