-- ===== src/ReformImpacts/Keys.antt =====
-- runtime_cache/reform_impacts.py: the keys of records and of start claims.
use Prim.Native.String.{◌++◌}
use text.Mathlib.TextLemmas.{append_cancel_left, append_assoc, append_inj}
use mathlib.Core.Bool.{false≢true}
use policyengine_api.Base.{
  String, Option, false, ◌≡◌, ◌≢◌, refl, ◌∙◌, sym, str_eq, eq_iff, Bool-cases, inl, inr,
}
use policyengine_api.Cache.Core.{CacheNamespace, family_key, key, cache_key_root}
use policyengine_api.ReformImpacts.{ReformImpactIdentity}
use policyengine_api.ReformImpacts.StartClaims.{family, start_claim_family, start_claim_key}
use policyengine_api.ReformImpacts.Repository.{Setting, record_key}

colon≢dash : ◌≢◌ {A = String} ":" "-"
colon≢dash e = absurd (false≢true ((eq_iff ":" "-").1 e))

families_differ : (a b : String) → family ++ (":v" ++ a) ≢ start_claim_family ++ (":v" ++ b)
families_differ a b e =
    let rest : ":v" ++ a ≡ "-start-claim" ++ (":v" ++ b) =
      append_cancel_left family (":v" ++ a) ("-start-claim" ++ (":v" ++ b))
        (e ∙ append_assoc family "-start-claim" (":v" ++ b)) in
    let heads : ":" ++ ("v" ++ a) ≡ "-" ++ ("start-claim" ++ (":v" ++ b)) =
      sym (append_assoc ":" "v" a) ∙ rest ∙ append_assoc "-" "start-claim" (":v" ++ b) in
    colon≢dash (append_inj {s₁ = ":"} {s₂ = "-"} heads refl).0

-- what stands before the family in a key
cancel_namespace :
    (ns : CacheNamespace) (s t : String)
    → cache_key_root ++ (":" ++ (ns.environment ++ (":" ++ (ns.service ++ (":" ++ s)))))
      ≡ cache_key_root ++ (":" ++ (ns.environment ++ (":" ++ (ns.service ++ (":" ++ t)))))
    → s ≡ t
cancel_namespace ns s t e = append_cancel_left ":" s t (
    append_cancel_left ns.service _ _ (
      append_cancel_left ":" _ _ (
        append_cancel_left ns.environment _ _
          (append_cancel_left ":" _ _ (append_cancel_left cache_key_root _ _ e)))))

keys_differ :
    (set : Setting) (identity : ReformImpactIdentity) (target : String) (id : Option String)
    → record_key set id ≢ start_claim_key set.sha256 set.namespace identity target
unfolding record_key start_claim_key key family_key
keys_differ set identity target id e = families_differ _ _ (cancel_namespace set.namespace _ _ e)

-- No record has the key of a start claim.
pub record_key-start_claim_key :
    (set : Setting) (identity : ReformImpactIdentity) (target : String) (id : Option String)
    → str_eq (record_key set id) (start_claim_key set.sha256 set.namespace identity target) ≡ false
record_key-start_claim_key set identity target id =
    let claim_key = start_claim_key set.sha256 set.namespace identity target in
    elim (Bool-cases (str_eq (record_key set id) claim_key)) [
      | inl same ↦
          absurd
            (keys_differ set identity target id ((eq_iff (record_key set id) claim_key).0 same))
      | inr other ↦ other
    ]
