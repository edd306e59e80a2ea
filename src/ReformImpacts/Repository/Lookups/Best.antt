-- ===== src/ReformImpacts/Repository/Lookups/Best.antt =====
-- runtime_cache/reform_impacts.py: which impacts `matching` returns, and in which order.
use mathlib.Core.Bool.{false≢true}
use policyengine_api.Json.Equality.{json_eq_iff}
use policyengine_api.Base.{
  ◌<◌, ◌≤◌, ◌↔◌, ◌⊎◌, sym, dec_lt, String, List, [], ◌∷◌, Option, none, some, Bool, true, false,
  ◌||◌, ◌≡◌, refl, ◌∙◌, ap, if◌then◌else◌, arith, All, filter, Bool-cases, inl, inr,
}
use mathlib.Core.List.Perm
use mathlib.Core.List.{Perm}
use policyengine_api.Json.{Json, str}
use policyengine_api.Effect.{ok, pure, lift, >>=-ok, ◌>>=◌}
use policyengine_api.Cache.Client.{World}
use policyengine_api.ReformImpacts.{ReformImpactIdentity, or_none}
use policyengine_api.ReformImpacts.Like.{Codes, codes, like_matches}
use policyengine_api.ReformImpacts.Records.{CachedReformImpact}
use policyengine_api.ReformImpacts.Repository.{Setting, index_limit, scope_index}
use policyengine_api.ReformImpacts.Repository.Lookups.{
  is_selected, then_list, select, is_exact, key_ge, insert_impact, sort_impacts, from_index, probe,
  matching, start_or_min,
}

-- the hash is a text or None
abbrev pub HasTextHash : CachedReformImpact → Type 0
HasTextHash impact = (hash : Option String) × (impact.options_hash ≡ or_none hash)

-- The impact's hash is the one asked for, or is a text that the pattern matches.
abbrev like_or_not : Json → Option Codes → Bool
like_or_not (str value) (some pattern) = like_matches (codes value) pattern
like_or_not j pattern = false

abbrev pub fits : Option String → Option Codes → CachedReformImpact → Bool
fits options_hash pattern impact =
    is_exact options_hash impact || like_or_not impact.options_hash pattern

is_selected-fits :
    (options_hash : Option String) (pattern : Option Codes) (impact : CachedReformImpact)
    → HasTextHash impact
    → is_selected options_hash pattern impact ≡ ok (fits options_hash pattern impact)
is_selected-fits options_hash none impact (none, e) = rw e (ground arith)
is_selected-fits options_hash (some p) impact (none, e) = rw e (ground arith)
is_selected-fits options_hash none impact (some h, e) = rw e (ground arith)
is_selected-fits options_hash (some p) impact (some h, e) = rw e (ground arith)

then_list-if :
    (b : Bool) (impact : CachedReformImpact) (rest : List CachedReformImpact)
    → then_list (ok b) impact (ok rest) ≡ ok (if b then impact ∷ rest else rest)
then_list-if true impact rest = refl
then_list-if false impact rest = refl

select-filter :
    (options_hash : Option String) (pattern : Option Codes) (impacts : List CachedReformImpact)
    → All HasTextHash impacts
    → select options_hash pattern impacts ≡ ok (filter (fits options_hash pattern) impacts)
unfolding select
select-filter options_hash pattern [] texts = refl
select-filter options_hash pattern (impact ∷ rest) texts =
    rw (is_selected-fits options_hash pattern impact texts.0) (
      rw (select-filter options_hash pattern rest texts.1) (
        then_list-if (fits options_hash pattern impact) impact
          (filter (fits options_hash pattern) rest)))

module _ (options_hash : Option String) where
  key_ge-total :
      (a b : CachedReformImpact) → key_ge options_hash a b ≡ false → key_ge options_hash b a ≡ true
  unfolding key_ge
  key_ge-total a b h = ground arith

  -- The hash is the one asked for.
  abbrev pub IsExact : CachedReformImpact → Type 0
  IsExact impact = impact.options_hash ≡ or_none options_hash

  -- The start of `a` is later than that of `b`, or the same with an identifier that is no smaller.
  abbrev pub NoOlder : CachedReformImpact → CachedReformImpact → Type 0
  NoOlder a b =
      (start_or_min b < start_or_min a)
      ⊎ ((start_or_min a ≡ start_or_min b) × (b.reform_impact_id ≤ a.reform_impact_id))

  -- `a` is at least as good a match as `b`: an exact hash comes first, and then the newest.
  abbrev pub NoWorse : CachedReformImpact → CachedReformImpact → Type 0
  NoWorse a b = (IsExact a × ¬ IsExact b) ⊎ ((IsExact a ↔ IsExact b) × NoOlder a b)

  -- each impact is at least as good a match as the next one
  abbrev pub IsBestFirst : List CachedReformImpact → Type 0
  IsBestFirst [] = Unit
  IsBestFirst (a ∷ []) = Unit
  IsBestFirst (a ∷ b ∷ rest) = NoWorse a b × IsBestFirst (b ∷ rest)

  -- the same, by the test that the sort makes
  abbrev IsSorted : List CachedReformImpact → Type 0
  IsSorted [] = Unit
  IsSorted (a ∷ []) = Unit
  IsSorted (a ∷ b ∷ rest) = (key_ge options_hash a b ≡ true) × IsSorted (b ∷ rest)

  is_exact_iff : (a : CachedReformImpact) → (is_exact options_hash a ≡ true) ↔ IsExact a
  is_exact_iff a = json_eq_iff a.options_hash (or_none options_hash)

  is_exact_not : (a : CachedReformImpact) → is_exact options_hash a ≡ false → ¬ IsExact a
  is_exact_not a h e = absurd (false≢true (sym h ∙ (is_exact_iff a).1 e))

  key_ge-NoOlder :
      (a b : CachedReformImpact)
      → is_exact options_hash a ≡ is_exact options_hash b
      → key_ge options_hash a b ≡ true
      → NoOlder a b
  unfolding key_ge
  key_ge-NoOlder a b same h = elim (dec_lt (start_or_min b) (start_or_min a)) [
    | yes later ↦ inl later
    | no other ↦ inr (ground arith, ground arith)
  ]

  key_ge-NoWorse : (a b : CachedReformImpact) → key_ge options_hash a b ≡ true → NoWorse a b
  unfolding key_ge
  key_ge-NoWorse a b h =
      let (a_in, a_out) = is_exact_iff a in
      let (b_in, b_out) = is_exact_iff b in
      elim (Bool-cases (is_exact options_hash a)) [
        | inl ea ↦ elim (Bool-cases (is_exact options_hash b)) [
          | inl eb ↦ inr ((λ e. b_in eb, λ e. a_in ea), key_ge-NoOlder a b (ea ∙ sym eb) h)
          | inr nb ↦ inl (a_in ea, is_exact_not b nb)
        ]
        | inr na ↦ elim (Bool-cases (is_exact options_hash b)) [
          | inl eb ↦ absurd (false≢true (rw (na, eb) at h))
          | inr nb ↦ inr (
            (λ e. absurd (is_exact_not a na e), λ e. absurd (is_exact_not b nb e)),
            key_ge-NoOlder a b (na ∙ sym nb) h,
          )
        ]
      ]

  IsSorted-IsBestFirst :
      (impacts : List CachedReformImpact) → IsSorted impacts → IsBestFirst impacts
  IsSorted-IsBestFirst [] h = tt
  IsSorted-IsBestFirst (a ∷ []) h = tt
  IsSorted-IsBestFirst (a ∷ b ∷ rest) h =
      (key_ge-NoWorse a b h.0, IsSorted-IsBestFirst (b ∷ rest) h.1)

  insert_impact-IsSorted :
      (x : CachedReformImpact) (impacts : List CachedReformImpact)
      → IsSorted impacts
      → IsSorted (insert_impact options_hash x impacts)
  unfolding insert_impact
  insert_impact-IsSorted x [] best = tt
  insert_impact-IsSorted x (a ∷ []) best = ground (arith, key_ge-total x a)
  insert_impact-IsSorted x (a ∷ b ∷ rest) best =
      ground (arith, key_ge-total x a, insert_impact-IsSorted x (b ∷ rest))

  sort_impacts-IsSorted :
      (impacts : List CachedReformImpact) → IsSorted (sort_impacts options_hash impacts)
  unfolding sort_impacts
  sort_impacts-IsSorted [] = tt
  sort_impacts-IsSorted (x ∷ rest) =
      insert_impact-IsSorted x (sort_impacts options_hash rest) (sort_impacts-IsSorted rest)

  insert_impact-perm :
      (x : CachedReformImpact) (impacts : List CachedReformImpact)
      → Perm (insert_impact options_hash x impacts) (x ∷ impacts)
  unfolding insert_impact
  insert_impact-perm x [] = Perm.refl (x ∷ [])
  insert_impact-perm x (a ∷ rest) = elim (Bool-cases (key_ge options_hash x a)) [
    | inl first ↦ rw first (Perm.refl (x ∷ a ∷ rest))
    | inr later ↦
        rw later (Perm.trans (Perm.cons a (insert_impact-perm x rest)) (Perm.swap x a rest))
  ]

  sort_impacts-perm :
      (impacts : List CachedReformImpact) → Perm (sort_impacts options_hash impacts) impacts
  unfolding sort_impacts
  sort_impacts-perm [] = Perm.refl []
  sort_impacts-perm (x ∷ rest) =
      Perm.trans (insert_impact-perm x (sort_impacts options_hash rest))
        (Perm.cons x (sort_impacts-perm rest))

-- A search through the scope index, of which the read succeeded with impacts whose hashes are texts or
-- None, returns exactly those whose hash is the one asked for or matches the pattern. Each is at
-- least as good a match as the next: an exact hash comes first, then the later start, where a
-- missing one is the earliest, and then the larger identifier.
pub matching_lem :
    (set : Setting) (fail_closed : Bool) (identity : ReformImpactIdentity) (pattern : Option Codes)
    (impacts : List CachedReformImpact) (w : World)
    → (from_index set fail_closed
        (scope_index set (probe set fail_closed identity))
        index_limit
        w).0
      ≡ ok impacts
    → All HasTextHash impacts
    → (best : List CachedReformImpact) × ((matching set fail_closed identity pattern w).0 ≡ ok best)
      × IsBestFirst identity.options_hash best
      × Perm best (filter (fits identity.options_hash pattern) impacts)
unfolding matching
matching_lem set fail_closed identity pattern impacts w read texts =
    let hash = identity.options_hash in
    let kept = filter (fits hash pattern) impacts in
    (
      sort_impacts hash kept,
      ap (λ r. r.0)
            (>>=-ok
              (from_index set fail_closed (scope_index set (probe set fail_closed identity))
                index_limit)
              (λ impacts. lift (select hash pattern impacts) >>= λ selected.
                pure (sort_impacts hash selected))
              w impacts read)
          ∙ rw (select-filter hash pattern impacts texts) refl,
      IsSorted-IsBestFirst hash (sort_impacts hash kept) (sort_impacts-IsSorted hash kept),
      sort_impacts-perm hash kept,
    )
