-- ===== src/ReformImpacts/Repository/Lifetime.antt =====
-- runtime_cache/reform_impacts.py: the lifetime that `seconds_left` tells.
use policyengine_api.Base.{
  ℕ, ◌+◌, ◌*◌, ◌≤◌, ◌<◌, ◌⊎◌, dec_lt, String, some, Bool, true, false, ◌&&◌, ◌≡◌, ◌∙◌, sym, ap,
  arith, eq_iff, inl, inr,
}
use policyengine_api.Base.Int.{ℤ, pos, negsuc}
use policyengine_api.Effect.{ok}
use policyengine_api.Cache.Backend.Commands.{Backend, advance, pttl, second}
use policyengine_api.Cache.Backend.Lifetimes.{is_present, present_after, Foretells, pttl-Foretells}
use policyengine_api.Cache.Backend.Unchanged.{pttl-Unchanged}
use policyengine_api.Cache.Client.{World, IsCalm}
use policyengine_api.Cache.Client.Calm.{after, after-IsCalm, client_pttl-IsCalm}
use policyengine_api.ReformImpacts.Records.{CachedReformImpact}
use policyengine_api.ReformImpacts.Repository.{
  Setting, record_key, scope_index, nonempty, seconds_of, seconds_under, seconds_left,
}

pttl_again : (k j : String) (b : Backend) → (pttl j (pttl k b).1).0 ≡ (pttl j b).0
unfolding pttl
pttl_again k j b = ground (arith, eq_iff k j)

-- Both keys are there after a time.
abbrev both_after : ℕ → String → String → Backend → Bool
both_after elapsed k j b = present_after elapsed k b && present_after elapsed j b

seconds_of-Foretells :
    (set : Setting) (k j : String) (b : Backend) (r i : ℤ) (n elapsed : ℕ)
    → seconds_of set r i ≡ some n
    → Foretells r k b
    → Foretells i j b
    → (n * second ≤ elapsed → both_after elapsed k j b ≡ false)
      × (elapsed + second ≤ n * second → both_after elapsed k j b ≡ true)
unfolding seconds_of
seconds_of-Foretells set k j b (negsuc m) i n elapsed e fk fj = cc e
seconds_of-Foretells set k j b (pos r) (negsuc ℕ.zero) n elapsed e fk fj =
    ground (arith, fk elapsed, fj elapsed)
seconds_of-Foretells set k j b (pos r) (negsuc (ℕ.suc m)) n elapsed e fk fj =
    ground (arith, fk elapsed, fj elapsed)
seconds_of-Foretells set k j b (pos r) (pos i) n elapsed e fk fj =
    ground (arith, fk elapsed, fj elapsed)

-- What is told of one moment: not found from `n` seconds on, found up to a second before, and nothing of
-- the second between.
abbrev pub Foretold : ℕ → ℕ → Bool → Type 0
Foretold n elapsed found =
    ((n * second ≤ elapsed) × (found ≡ false))
    ⊎ ((elapsed + second ≤ n * second) × (found ≡ true))
    ⊎ ((elapsed < n * second) × (n * second < elapsed + second))

Foretold-of :
    (n elapsed : ℕ) (found : Bool)
    → (n * second ≤ elapsed → found ≡ false)
    → (elapsed + second ≤ n * second → found ≡ true)
    → Foretold n elapsed found
Foretold-of n elapsed found late early = elim (dec_lt elapsed (n * second)) [
  | no past ↦ let over : n * second ≤ elapsed = omega arith in inl (over, late over)
  | yes before ↦ elim (dec_lt (n * second) (elapsed + second)) [
    | yes soon ↦ inr (inr (before, soon))
    | no later ↦
        let still : elapsed + second ≤ n * second = omega arith in inr (inl (still, early still))
  ]
]

ok-injective : {A : Type 0} {a b : A} → ok a ≡ ok b → a ≡ b
ok-injective e = cc e

module _ (set : Setting) (impact : CachedReformImpact) where
  -- A lookup finds the impact through its record and its scope index.
  unfoldable pub is_findable : String → Backend → Bool
  unfolding is_present
  is_findable id b =
      is_present (record_key set (some id)) b && is_present (scope_index set impact) b

  seconds_left-IsCalm :
      (id : String) (w : World)
      → IsCalm w
      → nonempty impact.execution_id ≡ some id
      → (seconds_left set impact w).0
        ≡ ok (
            seconds_of set
              (pttl (record_key set (some id)) w.backend).0
              (pttl (scope_index set impact) w.backend).0)
  unfolding seconds_left
  seconds_left-IsCalm id w calm named =
      let key = record_key set (some id) in
      let read = (pttl key w.backend).1 in
      let still = after-IsCalm read calm ((pttl-Unchanged key w.backend).clock ∙ calm.internal) in
      ap (λ o. (seconds_under set o impact w).0) named
      ∙ rw (client_pttl-IsCalm w calm key) (
          rw (client_pttl-IsCalm (after read w) still (scope_index set impact)) (
            ap (λ i. ok (seconds_of set (pttl key w.backend).0 i))
              (pttl_again key (scope_index set impact) w.backend)))

  -- When `seconds_left` answers with a number of seconds, no lookup finds the impact any more once they
  -- have passed, and every lookup up to a second before that finds both its record and its index,
  -- where no command fails and nothing else writes.
  pub seconds_left_foretells :
      (id : String) (n elapsed : ℕ) (w : World)
      → IsCalm w
      → nonempty impact.execution_id ≡ some id
      → (seconds_left set impact w).0 ≡ ok (some n)
      → Foretold n elapsed (is_findable id (advance elapsed w.backend).1)
  unfolding is_findable
  seconds_left_foretells id n elapsed w calm named told =
      let key = record_key set (some id) in
      let index = scope_index set impact in
      let same : ok (seconds_of set (pttl key w.backend).0 (pttl index w.backend).0) ≡ ok (some n) =
        sym (seconds_left-IsCalm id w calm named) ∙ told in
      let foretold =
        seconds_of-Foretells set key index w.backend (pttl key w.backend).0 (pttl index w.backend).0
          n elapsed (ok-injective same) (pttl-Foretells key w.backend calm.internal)
          (pttl-Foretells index w.backend calm.internal) in
      Foretold-of n elapsed (both_after elapsed key index w.backend) foretold.0 foretold.1
