-- ===== src/ReformImpacts/Repository/Deleted.antt =====
-- runtime_cache/reform_impacts.py: what `delete_failure` removes.
use policyengine_api.Base.{
  ℕ, ◌-◌, Bool-cases, String, List, [], ◌∷◌, Option, none, some, Bool, true, false, not, ◌&&◌, ◌≡◌,
  ◌⊎◌, inl, inr, refl, ◌∙◌, sym, ap, str_eq, if◌then◌else◌, eq_iff, &&-eq_true,
}
use policyengine_api.Base.Int.{pos}
use policyengine_api.Json.{CacheText}
use policyengine_api.Json.Equality.{text_eq_iff}
use policyengine_api.Effect.{Error, Exec, raised, value_error}
use policyengine_api.Effect.Keeps.{
  Keeps, keeps_rules, Keeps-pure, Keeps-bind, Keeps-attempt, Keeps-if, Keeps-raise,
}
use policyengine_api.Cache.Backend.Commands.{Backend, eval, get, zrevrange, delete_record, holds}
use policyengine_api.Cache.Backend.Expiry.{view}
use policyengine_api.Cache.Backend.Unchanged.{
  Unchanged, get-Unchanged, zrevrange-Unchanged, view-delete_record,
}
use policyengine_api.Cache.Client.{World, record_cache_event, client_get, client_eval}
use policyengine_api.Cache.Client.Pipeline.{client_zrevrange}
use policyengine_api.Cache.Client.Invariants.{OfBackend, Keeps-command, Keeps-event}
use policyengine_api.ReformImpacts.{ReformImpactIdentity}
use policyengine_api.ReformImpacts.Like.{Codes}
use policyengine_api.ReformImpacts.Records.{CachedReformImpact}
use policyengine_api.ReformImpacts.Repository.{
  Setting, index_limit, scope_index, recent_index, decode_impact,
}
use policyengine_api.ReformImpacts.Repository.Lookups.{
  Entry, read_all, read_index, unreadable, from_index, matching,
}
use policyengine_api.ReformImpacts.Repository.Removal.{
  is_failure, find_stored, remove_unchanged, delete_failure,
}

pub holds-some :
    (o : Option CacheText) (expected : CacheText) → holds o expected ≡ true → o ≡ some expected
holds-some none expected h = cc h
holds-some (some text) expected h = ap some ((text_eq_iff text expected).0 h)

-- A reader of the key sees in `c` what it saw in `b`, or saw a text of the kind `Q` there and now sees
-- nothing.
abbrev pub Removed : (CacheText → Type 0) → Backend → String → Backend → Type 0
Removed Q b j c =
    (view c j ≡ view b j)
    ⊎ ((view c j ≡ none) × ((text : CacheText) × (view b j ≡ some text) × Q text))

-- the text decodes to the failure
abbrev pub IsFailureText : Setting → CachedReformImpact → CacheText → Type 0
IsFailureText set failure text = is_failure set failure (decode_impact set (some text)) ≡ true

module _ (set : Setting) (failure : CachedReformImpact) where
  pub find_stored-failure :
      (entries : List Entry) (r : String) (text : CacheText)
      → find_stored set failure entries ≡ some (r, text)
      → IsFailureText set failure text
  unfolding find_stored
  find_stored-failure [] r text e = cc e
  find_stored-failure ((key, none) ∷ rest) r text e = find_stored-failure rest r text e
  find_stored-failure ((key, some value) ∷ rest) r text e =
      elim (Bool-cases (is_failure set failure (decode_impact set (some value)))) [
        | inl failed ↦
            let same : some (key, value) ≡ some (r, text) = rw failed at e in
            let texts : value ≡ text = cc same in rw (← texts) failed
        | inr other ↦ find_stored-failure rest r text (rw other at e)
      ]

module _ (Q : CacheText → Type 0) (b : Backend) (j : String) where
  Removed-Unchanged : (c d : Backend) → Unchanged c d → Removed Q b j c → Removed Q b j d
  Removed-Unchanged c d same (inl kept) = inl (same.values j ∙ kept)
  Removed-Unchanged c d same (inr (gone, was)) = inr (same.values j ∙ gone, was)

  Removed-or_kept :
      (hit : Bool) (old : Option CacheText) (c : Backend)
      → (hit ≡ true → (text : CacheText) × (old ≡ some text) × Q text)
      → view c j ≡ old
      → Removed Q b j c
      → (v : Option CacheText) → v ≡ (if hit then none else old)
      → (v ≡ view b j) ⊎ ((v ≡ none) × ((text : CacheText) × (view b j ≡ some text) × Q text))
  Removed-or_kept true old c was now (inl kept) v e =
      let (text, same, fits) = was refl in inr (e, (text, sym kept ∙ now ∙ same, fits))
  Removed-or_kept true old c was now (inr (gone, before)) v e = inr (e, before)
  Removed-or_kept false old c was now (inl kept) v e = inl (e ∙ sym now ∙ kept)
  Removed-or_kept false old c was now (inr (gone, before)) v e = inr (e ∙ sym now ∙ gone, before)

  hit-text :
      (r : String) (expected : CacheText) (old : Option CacheText) (c : Backend)
      → Q expected
      → view c j ≡ old
      → (holds (view c r) expected && str_eq r j) ≡ true
      → (text : CacheText) × (old ≡ some text) × Q text
  hit-text r expected old c fits now hit =
      let (held, named) = &&-eq_true (holds (view c r) expected) (str_eq r j) hit in
      let same = (eq_iff r j).0 named in
      (expected, sym now ∙ ap (view c) (sym same) ∙ holds-some (view c r) expected held, fits)

  delete_record-Removed :
      (r s q : String) (expected : CacheText)
      → Q expected
      → (c : Backend) → Removed Q b j c
      → Removed Q b j (delete_record r s q expected c).1
  delete_record-Removed r s q expected fits c kept =
      Removed-or_kept (holds (view c r) expected && str_eq r j) (view c j) c
        (hit-text r expected (view c j) c fits refl) refl kept
        (view (delete_record r s q expected c).1 j) (view-delete_record r s q expected c j)

  abbrev pub Safe : {A : Type 0} → Exec World A → Type 0
  Safe m = Keeps (OfBackend (Removed Q b j)) m

  event-Safe :
      (family event : String) (operation : Option String) (severity : String)
      → Safe (record_cache_event family event operation severity)
  event-Safe = Keeps-event (Removed Q b j)

  read-Safe : (key : String) → Safe (client_get key)
  unfolding client_get
  read-Safe key =
      Keeps-command (Removed Q b j) _ _
        (λ c kept. Removed-Unchanged c (get key c).1 (get-Unchanged key c) kept)

  read_all-Safe : (keys : List String) → Safe (read_all keys)
  unfolding read_all
  read_all-Safe [] = search keeps_rules
  read_all-Safe (key ∷ keys) =
      Keeps-bind _ _ (read-Safe key)
        (λ value. Keeps-bind _ _ (read_all-Safe keys) (λ rest. Keeps-pure _))

  pub read_index-Safe : (index : String) (limit : ℕ) → Safe (read_index index limit)
  unfolding read_index client_zrevrange
  read_index-Safe index limit =
      Keeps-bind _ _
        (Keeps-command (Removed Q b j) _ _ (λ c kept.
          Removed-Unchanged c (zrevrange index 0 (pos (limit - 1)) c).1
            (zrevrange-Unchanged index 0 (pos (limit - 1)) c) kept))
        read_all-Safe

  unreadable-Safe :
      (fail_closed : Bool) (e : Error) → Safe (unreadable {A = CachedReformImpact} fail_closed e)
  unreadable-Safe false e = search keeps_rules
  unreadable-Safe true e = search (keeps_rules, event-Safe)

  module _ (set : Setting) where
    -- A search removes nothing.
    pub matching-Safe :
        (fail_closed : Bool) (identity : ReformImpactIdentity) (pattern : Option Codes)
        → Safe (matching set fail_closed identity pattern)
    unfolding matching from_index
    matching-Safe fail_closed identity pattern =
        search (keeps_rules, read_index-Safe, unreadable-Safe) depth 9

    remove_unchanged-Safe :
        (index : String) (found : Option (String × CacheText))
        → ((r : String) (text : CacheText) → found ≡ some (r, text) → Q text)
        → Safe (remove_unchanged set index found)
    unfolding client_eval eval
    remove_unchanged-Safe index none fits = search keeps_rules
    remove_unchanged-Safe index (some (r, text)) fits =
        Keeps-bind _ _
          (Keeps-command (Removed Q b j) _ _
            (delete_record-Removed r index (recent_index set) text (fits r text refl)))
          (λ n. Keeps-pure _)

    -- A deletion removes only texts that decode to its failure.
    pub delete_failure-Safe :
        (failure : CachedReformImpact)
        → ((text : CacheText) → IsFailureText set failure text → Q text)
        → Safe (delete_failure set failure)
    unfolding delete_failure
    delete_failure-Safe failure fits =
        let index = scope_index set failure in
        let removed = Keeps-bind _ _ (read_index-Safe index index_limit) (λ entries.
          remove_unchanged-Safe index (find_stored set failure entries)
            (λ r text e. fits text (find_stored-failure set failure entries r text e))) in
        Keeps-if (not (str_eq failure.status "error")) (Keeps-raise _) (
          Keeps-attempt _ _ _ removed (λ e. search (keeps_rules, event-Safe))
            (λ deleted. search (keeps_rules, event-Safe)))

module _ (set : Setting) (failure : CachedReformImpact) where
  -- Whatever the network does, a deletion of a stored failure leaves every value of the cache as it
  -- was, except that a value that decodes to exactly this failure may be gone; for an impact that
  -- is no failure it raises ValueError.
  pub delete_failure_removes_only_it :
      (w : World) (j : String)
      → let done = delete_failure set failure w in
        Removed (IsFailureText set failure) w.backend j done.1.backend
        × ((failure.status ≡ "error")
            ⊎ (done.0 ≡ raised (value_error "only a failed reform impact can be deleted")))
  unfolding delete_failure
  delete_failure_removes_only_it w j = (
    (delete_failure-Safe (IsFailureText set failure) w.backend j set failure (λ text is. is)).at w
        (inl refl),
    elim (Bool-cases (str_eq failure.status "error")) [
      | inl failed ↦ inl ((eq_iff failure.status "error").0 failed)
      | inr other ↦ inr (rw other refl)
    ],
  )
