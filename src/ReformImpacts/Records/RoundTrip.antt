-- ===== src/ReformImpacts/Records/RoundTrip.antt =====
-- runtime_cache/reform_impacts.py: an impact that is written and read back.
use mathlib.Core.Path.{fun_ext}
use policyengine_api.Base.{◌≡◌, refl, ◌∙◌, ap, ℕ, String, Option, none, some}
use policyengine_api.Json.{obj, lookup}
use policyengine_api.Json.Canonical.{canonical, lookup-canonical_fields}
use policyengine_api.ReformImpacts.{or_none}
use policyengine_api.ReformImpacts.Records.{
  DateTime, aware, CachedReformImpact, Conversions, naive_utc, datetime_to_wire, datetime_from_wire,
  impact_to_wire, impact_of, impact_from_wire, text_or_none,
}

abbrev pub naive_utc_or_none : Option DateTime → Option DateTime
naive_utc_or_none none = none
naive_utc_or_none (some d) = some (naive_utc d)

-- The impact as it is read back: its dicts with their keys in order, its times in UTC without a zone.
abbrev pub stored_form : CachedReformImpact → CachedReformImpact
stored_form impact = record impact {
  options_json = canonical impact.options_json;
  options_hash = canonical impact.options_hash;
  reform_impact_json = canonical impact.reform_impact_json;
  message = canonical impact.message;
  start_time = naive_utc_or_none impact.start_time;
  end_time = naive_utc_or_none impact.end_time;
  error_code = canonical impact.error_code;
  observability_id = canonical impact.observability_id;
}

module _ (py : Conversions)
    (parsed : (t : ℕ) → py.fromisoformat (py.isoformat t) ≡ some (aware t)) where
  datetime_from_wire-datetime_to_wire :
      (d : Option DateTime)
      → datetime_from_wire py (canonical (datetime_to_wire py d)) ≡ some (naive_utc_or_none d)
  unfolding datetime_from_wire datetime_to_wire canonical
  datetime_from_wire-datetime_to_wire none = refl
  datetime_from_wire-datetime_to_wire (some (DateTime.naive t)) = rw (parsed t) refl
  datetime_from_wire-datetime_to_wire (some (aware t)) = rw (parsed t) refl

  text_or_none-or_none : (o : Option String) → text_or_none py (canonical (or_none o)) ≡ o
  unfolding canonical
  text_or_none-or_none none = refl
  text_or_none-or_none (some s) = refl

  -- What the cache holds of an impact is read back as the impact, its dicts with their keys in order
  -- and its times in UTC without a zone, where the ISO form of an instant is parsed as that instant.
  pub impact_from_wire-impact_to_wire :
      (impact : CachedReformImpact)
      → impact_from_wire py (canonical (obj (impact_to_wire py impact))) ≡ some (stored_form impact)
  unfolding impact_from_wire canonical
  impact_from_wire-impact_to_wire impact =
      ap (impact_of py) (fun_ext (λ k. lookup-canonical_fields k (impact_to_wire py impact)))
      ∙ unfold impact_of impact_to_wire lookup canonical in
        rw
          (
            datetime_from_wire-datetime_to_wire impact.start_time,
            datetime_from_wire-datetime_to_wire impact.end_time,
            text_or_none-or_none impact.execution_id,
          )
          refl
