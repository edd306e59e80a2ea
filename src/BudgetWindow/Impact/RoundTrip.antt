-- ===== src/BudgetWindow/Impact/RoundTrip.antt =====
-- services/economy_impact_types.py: the wire form of `BudgetWindowEconomicImpactResult`, written and
-- read back.
use mathlib.Core.Option
use policyengine_api.Base.{ℕ, ◌≡◌, refl, ap, String, List, [], ◌∷◌, Option, none, some}
use policyengine_api.Json.{str, arr, cons, Fields, lookup, get}
use policyengine_api.Json.Canonical.{
  canonical, canonical_fields, canonical_items, get-canonical_fields, lookup-canonical_fields,
}
use policyengine_api.BudgetWindow.Impact.{
  Impact, ImpactStatus, model_dump, model_validate, validate_impact, read_impact_status, read_items,
  read_words, read_number, read_object, status_value, items_of, dict_or_null, number_or_null,
  text_or_null,
}

-- the result as it reads back, the keys of its data in order
abbrev pub with_sorted_data : Impact → Impact
with_sorted_data r = record r { data_fields = Option.map canonical_fields r.data_fields }

canonical_items-items_of : (ys : List String) → canonical_items (items_of ys) ≡ items_of ys
unfolding canonical_items canonical
canonical_items-items_of [] = refl
canonical_items-items_of (y ∷ ys) = ap (cons (str y)) (canonical_items-items_of ys)

read_items-items_of : (ys : List String) → read_items (canonical_items (items_of ys)) ≡ some ys
unfolding read_items
read_items-items_of ys = rw canonical_items-items_of (plain_items ys)
  where
    plain_items : (ys : List String) → read_items (items_of ys) ≡ some ys
    plain_items [] = refl
    plain_items (y ∷ ys) = rw (plain_items ys)

read_impact_status-value :
    (x : ImpactStatus) → read_impact_status (canonical (str (status_value x))) ≡ some x
unfolding canonical
read_impact_status-value ImpactStatus.computing = refl
read_impact_status-value ImpactStatus.ok = refl
read_impact_status-value ImpactStatus.error = refl

read_words-text : (o : Option String) → read_words (canonical (text_or_null o)) ≡ some o
unfolding canonical
read_words-text none = refl
read_words-text (some t) = refl

read_number-number : (o : Option ℕ) → read_number (canonical (number_or_null o)) ≡ some o
unfolding canonical
read_number-number none = refl
read_number-number (some n) = refl

read_object-dict :
    (o : Option Fields)
    → read_object (canonical (dict_or_null o)) ≡ some (Option.map canonical_fields o)
unfolding canonical
read_object-dict none = refl
read_object-dict (some f) = refl

validate_impact-value :
    (r : Impact)
    → validate_impact
        (canonical (str (status_value r.status)))
        (canonical (dict_or_null r.data_fields))
        (canonical (number_or_null r.progress))
        (some (arr (canonical_items (items_of r.completed_years))))
        (some (arr (canonical_items (items_of r.computing_years))))
        (some (arr (canonical_items (items_of r.queued_years))))
        (canonical (text_or_null r.message))
        (canonical (text_or_null r.error))
        (canonical (text_or_null r.cache_status))
      ≡ some (with_sorted_data r)
unfolding validate_impact
validate_impact-value r = rw (
  read_impact_status-value r.status,
  read_object-dict r.data_fields,
  read_number-number r.progress,
  read_items-items_of r.completed_years,
  read_items-items_of r.computing_years,
  read_items-items_of r.queued_years,
  read_words-text r.message,
  read_words-text r.error,
  read_words-text r.cache_status,
)

-- A result that was dumped and stored with its keys in order is validated back to that result.
pub model_validate-model_dump :
    (r : Impact) → model_validate (canonical_fields (model_dump r)) ≡ some (with_sorted_data r)
unfolding model_validate
model_validate-model_dump r =
    let read = λ (i : String). get-canonical_fields i (model_dump r) in
    let listed = λ (i : String). lookup-canonical_fields i (model_dump r) in
    rw
      (
        read "status",
        read "data",
        read "progress",
        listed "completed_years",
        listed "computing_years",
        listed "queued_years",
        read "message",
        read "error",
        read "cache_status",
      )
      (unfold model_dump lookup get canonical in validate_impact-value r)
