-- ===== src/ReformImpacts/Repository/OneGone.antt =====
-- runtime_cache/reform_impacts.py: how many values one `delete_failure` removes.
use policyengine_api.Base.{
  ℕ, String, List, Option, none, some, Bool, true, false, not, ltb, ◌≡◌, ◌⊎◌, inl, inr, refl, ◌∙◌,
  sym, ap, str_eq, if◌then◌else◌, Bool-cases,
}
use policyengine_api.Json.{CacheText}
use policyengine_api.Effect.{Error, Result, ok, raised, Exec, pure, lift, ◌>>=◌, ◌>>◌, attempt}
use policyengine_api.Effect.Keeps.{Keeps}
use policyengine_api.Cache.Client.Invariants.{OfBackend}
use policyengine_api.ReformImpacts.StartClaims.{family}
use policyengine_api.Cache.Backend.Commands.{Backend, eval, get, delete_record, holds}
use policyengine_api.Cache.Backend.Expiry.{view}
use policyengine_api.Cache.Backend.Unchanged.{view-delete_record}
use policyengine_api.Cache.Client.{
  World, Outcome, command, record_cache_event, client_eval, meet, first_outcome, later_outcomes,
}
use policyengine_api.ReformImpacts.Records.{CachedReformImpact}
use policyengine_api.ReformImpacts.Repository.{Setting, index_limit, scope_index, recent_index}
use policyengine_api.ReformImpacts.Repository.Lookups.{Entry, read_index}
use policyengine_api.ReformImpacts.Repository.Removal.{
  find_stored, remove_unchanged, not_deleted, delete_failure,
}
use policyengine_api.ReformImpacts.Repository.Deleted.{
  Removed, IsFailureText, holds-some, find_stored-failure, read_index-Safe,
}

-- Every reader sees in `c` what it saw in `b`.
abbrev pub Intact : Backend → Backend → Type 0
Intact b c = (j : String) → view c j ≡ view b j

-- At most one value of `b` is gone in `c`, one of the kind `Q`: every reader sees the same, or there is
-- one key whose text was of that kind and is gone, and the readers of the others see the same.
abbrev pub OneRemoved : (CacheText → Type 0) → Backend → Backend → Type 0
OneRemoved Q b c =
    Intact b c
    ⊎ ((k : String) × (text : CacheText) × (view b k ≡ some text)
        × Q text
        × ((j : String) → view c j ≡ (if str_eq k j then none else view b j)))

-- nothing may be gone
abbrev pub Nothing : CacheText → Type 0
Nothing text = ⊥

pub Removed-kept : (b c : Backend) (j : String) → Removed Nothing b j c → view c j ≡ view b j
Removed-kept b c j (inl kept) = kept
Removed-kept b c j (inr (gone, (text, was, never))) = absurd never

delete_record-reply :
    (r s q : String) (text : CacheText) (c : Backend)
    → (delete_record r s q text c).0 ≡ (if holds (view c r) text then 1 else 0)
unfolding delete_record view
delete_record-reply r s q text c = elim (Bool-cases (holds (get r c).0 text)) [
  | inl held ↦ rw held refl
  | inr other ↦ rw other refl
]

module _ (Q : CacheText → Type 0) (b : Backend) where
  -- The method's reply tells whether something is gone: nothing is after False.
  abbrev Deletion : Result Bool → Backend → Type 0
  Deletion r c = OneRemoved Q b c × (r ≡ ok false → Intact b c)

  pub record Deletes (m : Exec World Bool) : Type 0 where
    pub at : (w : World) → Intact b w.backend → Deletion (m w).0 (m w).1.backend

  one_deleted :
      (r s q : String) (text : CacheText) (c : Backend)
      → Q text
      → Intact b c
      → let (n, c') = delete_record r s q text c in Deletion (ok (ltb 0 n)) c'
  one_deleted r s q text c fits same = elim (Bool-cases (holds (view c r) text)) [
    | inl held ↦
        let replied : (delete_record r s q text c).0 ≡ 1 =
          (delete_record-reply r s q text c ∙ rw held refl) in
        (
          inr (
            r,
            text,
            sym (same r) ∙ holds-some (view c r) text held,
            fits,
            λ j.
                view-delete_record r s q text c j
                ∙ rw held (ap (λ v. if str_eq r j then none else v) (same j)),
          ),
          λ refused. absurd (cc (sym refused ∙ ap (λ n. ok (ltb 0 n)) replied)),
        )
    | inr other ↦
        let intact : Intact b (delete_record r s q text c).1 =
          (λ j. view-delete_record r s q text c j ∙ rw other (same j)) in
        (inl intact, λ refused. intact)
  ]

  meet-Deletion :
      (o : Outcome) (r : Result ℕ × Backend) (w : World)
      → Intact b w.backend
      → ((n : ℕ) → r.0 ≡ ok n → Deletion (ok (ltb 0 n)) r.1)
      → OneRemoved Q b r.1
      → let after = meet o r w in
        let replied = ((λ (w' : World). after) >>= (λ n. pure (ltb 0 n))) w in
        Deletion replied.0 replied.1.backend
  meet-Deletion Outcome.answered (ok n, c) w same answers one = answers n refl
  meet-Deletion Outcome.answered (raised e, c) w same answers one =
      (one, λ never. absurd (cc never))
  meet-Deletion Outcome.refused r w same answers one = (inl same, λ never. absurd (cc never))
  meet-Deletion Outcome.reply_lost r w same answers one = (one, λ never. absurd (cc never))

  command-Deletes :
      (run : Backend → Result ℕ × Backend) (e : Error)
      → ((c : Backend)
          → Intact b c
          → OneRemoved Q b (run c).1
            × ((n : ℕ) → (run c).0 ≡ ok n → Deletion (ok (ltb 0 n)) (run c).1))
      → Deletes (command run (raised e) >>= (λ n. pure (ltb 0 n)))
  unfolding command
  command-Deletes run e outcome = record {
    at = λ w same.
        let (one, answers) = outcome w.backend same in
        let later = record w { outcomes = later_outcomes w.outcomes } in
        let met = meet (first_outcome w.outcomes) (run w.backend) later in
        let answer : (Bool → Result ℕ × World) =
          λ d. elim d [ true ↦ (raised e, w) | false ↦ met ] in
        elim w.disabled
          as (λ d.
            let done = ((λ (w' : World). answer d) >>= (λ n. pure (ltb 0 n))) w in
            Deletion done.0 done.1.backend) [
              | true ↦ (inl same, λ never. absurd (cc never))
              | false ↦
                  meet-Deletion (first_outcome w.outcomes) (run w.backend) later same answers one
            ];
  }

  continued-Deletes :
      {A : Type 0} (r : Result A) (f : A → Exec World Bool)
      → ((a : A) → Deletes (f a))
      → Deletes (lift r >>= f)
  continued-Deletes (ok a) f df = df a
  continued-Deletes (raised e) f df = record {
    at = λ w same. (inl same, λ never. absurd (cc never));
  }

  bind-Deletes :
      {A : Type 0} (m : Exec World A) (f : A → Exec World Bool)
      → Keeps (OfBackend (Intact b)) m
      → ((a : A) → Deletes (f a))
      → Deletes (m >>= f)
  bind-Deletes m f km df = record {
    at = λ w same. (continued-Deletes (m w).0 f df).at (m w).1 (km.at w same);
  }

  module _ (set : Setting) where
    remove_unchanged-Deletes :
        (index : String) (found : Option (String × CacheText))
        → ((r : String) (text : CacheText) → found ≡ some (r, text) → Q text)
        → Deletes (remove_unchanged set index found)
    unfolding client_eval eval
    remove_unchanged-Deletes index none fits = record { at = λ w same. (inl same, λ _. same) }
    remove_unchanged-Deletes index (some (r, text)) fits = command-Deletes _ _ (λ c same.
        let deletion = one_deleted r index (recent_index set) text c (fits r text refl) same in
        let reply = (delete_record r index (recent_index set) text c).0 in
        (deletion.0, λ n is. let number : reply ≡ n = cc is in rw (← number) deletion))

    read_index-Intact :
        (index : String) (limit : ℕ) → Keeps (OfBackend (Intact b)) (read_index index limit)
    read_index-Intact index limit = record {
      at = λ w same j.
          Removed-kept b (read_index index limit w).1.backend j
            ((read_index-Safe Nothing b j index limit).at w (inl (same j)));
    }

    -- after the events
    reported-Deletes :
        (r : Result Bool) (w : World)
        → Deletion r w.backend
        → let done =
            attempt
              (lift r)
              (not_deleted set)
              (λ deleted.
                record_cache_event family
                  (if deleted then "deleted" else "delete-skipped")
                  (some "failure-delete")
                  "INFO"
                >> pure deleted)
              w in
          Deletion done.0 done.1.backend
    unfolding record_cache_event
    reported-Deletes (ok deleted) w deletion = deletion
    reported-Deletes (raised e) w (one, unless) = (one, λ never. absurd (cc never))

    -- A deletion removes at most one text of the cache, that decodes to its failure, and none where it
    -- returns False.
    pub delete_failure-Deletes :
        (failure : CachedReformImpact)
        → ((text : CacheText) → IsFailureText set failure text → Q text)
        → Deletes (delete_failure set failure)
    unfolding delete_failure
    delete_failure-Deletes failure fits =
        let index = scope_index set failure in
        let found = λ (entries : List Entry).
          remove_unchanged-Deletes index (find_stored set failure entries)
            (λ r text e. fits text (find_stored-failure set failure entries r text e)) in
        let removed = bind-Deletes _ _ (read_index-Intact index index_limit) found in
        elim (Bool-cases (not (str_eq failure.status "error"))) [
          | inl other ↦ rw other (record { at = λ w same. (inl same, λ never. absurd (cc never)) })
          | inr failed ↦
              rw failed (record { at = λ w same. reported-Deletes _ _ (removed.at w same) })
        ]
