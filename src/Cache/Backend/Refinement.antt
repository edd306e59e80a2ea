-- ===== src/Cache/Backend/Refinement.antt =====
-- runtime_cache/fake.py: the string commands of the backend beside a plain map of texts with no
-- clock.
use policyengine_api.Base.{
  ℕ, ◌≡◌, refl, String, List, [], ◌∷◌, Option, some, Bool, true, ◌∙◌, str_eq, arith, ap, ◌&&◌,
  eq_iff, eq_refl, none, if◌then◌else◌,
}
use policyengine_api.Json.{CacheText}
use policyengine_api.Cache.Backend.Commands.{Backend, SetOptions, get, set, compare_delete, holds}
use policyengine_api.Cache.Backend.Expiry.{
  view, view-get, permitted, set-reply, compare_delete-reply, view-compare_delete,
}

pub data Request : Type 0 where
  read : String → Request
  write : String → CacheText → SetOptions → Request
  remove_if : String → CacheText → Request

pub data Reply : Type 0 where
  value : Option CacheText → Reply
  written : Option Bool → Reply
  removed : ℕ → Reply

abbrev pub Cells : Type 0
Cells = String → Option CacheText

-- what a write leaves at once: an expiry of zero seconds leaves nothing
abbrev lasting_value : CacheText → SetOptions → Option CacheText
lasting_value v options = elim options.ex [
  | none ↦ some v
  | some ℕ.zero ↦ none
  | some (ℕ.suc n) ↦ some v
]

-- The specification.
unfoldable pub answer : Request → Cells → Reply × Cells
answer (read k) m = (value (m k), m)
answer (write k v options) m =
    if permitted options (m k)
    then (written (some true), λ j. if str_eq k j then lasting_value v options else m j)
    else (written none, m)
answer (remove_if k expected) m =
    if holds (m k) expected
    then (removed 1, λ j. if str_eq k j then none else m j)
    else (removed 0, m)

unfoldable pub answers : List Request → Cells → List Reply
unfolding answer
answers [] m = []
answers (r ∷ rest) m = let (reply, m') = answer r m in reply ∷ answers rest m'

-- The backend's methods.
unfoldable pub perform : Request → Backend → Reply × Backend
perform (read k) b = let (v, b') = get k b in (value v, b')
perform (write k v options) b = let (r, b') = set k v options b in (written r, b')
perform (remove_if k expected) b = let (n, b') = compare_delete k expected b in (removed n, b')

unfoldable pub perform_all : List Request → Backend → List Reply
unfolding perform
perform_all [] b = []
perform_all (r ∷ rest) b = let (reply, b') = perform r b in reply ∷ perform_all rest b'

view-write :
    (b : Backend) (k : String) (v : CacheText) (options : SetOptions) (j : String)
    → view (set k v options b).1 j
      ≡ (if permitted options (view b k) && str_eq k j then lasting_value v options else view b j)
unfolding set view
view-write b k v options j = ground (arith, eq_refl k, eq_iff k j)

answer-perform :
    (r : Request) (b : Backend) (m : Cells)
    → ((j : String) → view b j ≡ m j)
    → ((perform r b).0 ≡ (answer r m).0)
      × ((j : String) → view (perform r b).1 j ≡ (answer r m).1 j)
unfolding perform answer
answer-perform (read k) b m same = (unfold view in ap value (same k), λ j. view-get b k j ∙ same j)
answer-perform (write k v options) b m same = (
  ground (arith, set-reply b k v options, same k),
  λ j. ground (arith, view-write b k v options j, same k, same j),
)
answer-perform (remove_if k expected) b m same = (
  ground (arith, compare_delete-reply b k expected, same k),
  λ j. ground (arith, view-compare_delete b k expected j, same k, same j),
)

-- Every history of reads, writes and conditional removals, made at one time on one backend, gets
-- the replies of the plain map that holds what a reader sees of that backend. A write with an expiry
-- of zero seconds succeeds there and leaves nothing under its key.
pub perform_all-answers :
    (history : List Request) (b : Backend) (m : Cells)
    → ((j : String) → view b j ≡ m j)
    → perform_all history b ≡ answers history m
unfolding perform_all answers
perform_all-answers [] b m same = refl
perform_all-answers (r ∷ rest) b m same =
    let (reply, later) = answer-perform r b m same in
    cc (reply, perform_all-answers rest (perform r b).1 (answer r m).1 later)
