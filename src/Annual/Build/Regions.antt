-- ===== src/Annual/Build/Regions.antt =====
-- services/economy_simulation_requests.py: the breakdowns and regions that a request may have.
use policyengine_api.Base.{
  String, true, false, ◌≡◌, ◌≢◌, refl, ap, ◌↔◌, ◌⊎◌, inl, inr, str_eq, eq_iff, arith, Bool-cases,
}
use policyengine_api.Json.{Json, null, str}
use policyengine_api.Json.Equality.{json_eq}
use policyengine_api.Effect.{ok}
use policyengine_api.Annual.Tables.{EconomicImpactRequest, Tables, breakdown_regions, is_listed}
use policyengine_api.Annual.Build.{check_breakdown, validate_uk_region}

module _ (tables : Tables) where
  module _ (request : EconomicImpactRequest) where
    -- no breakdown, or the one that a UK request for a whole country may ask for
    abbrev pub IsBreakdown : Json → Type 0
    IsBreakdown breakdown =
        (breakdown ≡ null)
        ⊎ ((breakdown ≡ str "local_areas")
            × (request.country_id ≡ "uk")
            × (is_listed request.region breakdown_regions ≡ true)
            × (request.target ≢ "cliff"))

    check_breakdown_text :
        (s : String)
        → check_breakdown tables request (str s) ≡ ok tt
        → (s ≡ "local_areas")
          × (request.country_id ≡ "uk")
          × (is_listed request.region breakdown_regions ≡ true)
          × (request.target ≢ "cliff")
    unfolding json_eq
    check_breakdown_text s h = (
      (eq_iff s "local_areas").0 (ground arith),
      (eq_iff request.country_id "uk").0 (ground arith),
      ground arith,
      λ e. ground (arith, (eq_iff request.target "cliff").1 e),
    )

    differs : (s t : String) → s ≢ t → str_eq s t ≡ false
    differs s t n = ground (arith, eq_iff s t)

    text_check_breakdown :
        (s : String) → IsBreakdown (str s) → check_breakdown tables request (str s) ≡ ok tt
    unfolding json_eq
    text_check_breakdown s (inl e) = absurd (cc e)
    text_check_breakdown s (inr (e, uk, listed, general)) =
        let named : str_eq s "local_areas" ≡ true = (eq_iff s "local_areas").1 (cc e) in
        let home : str_eq request.country_id "uk" ≡ true = (eq_iff request.country_id "uk").1 uk in
        rw (named, home, listed, differs request.target "cliff" general) refl

    pub check_breakdown_iff :
        (breakdown : Json)
        → (check_breakdown tables request breakdown ≡ ok tt) ↔ IsBreakdown breakdown
    unfolding json_eq
    check_breakdown_iff null = (λ h. inl refl, λ h. refl)
    check_breakdown_iff (str s) = (
      λ h.
          let (e, uk, listed, general) = check_breakdown_text s h in
          inr (ap str e, uk, listed, general),
      text_check_breakdown s,
    )
    check_breakdown_iff _ =
        (λ h. absurd (cc h), λ k. elim k [ inl e ↦ absurd (cc e) | inr r ↦ absurd (cc r.0) ])

    -- a UK region is a known one
    abbrev pub IsPlace : Type 0
    IsPlace = request.country_id ≡ "uk" → tables.is_uk_region request.region ≡ true

    pub validate_uk_region_iff : (validate_uk_region tables request ≡ ok tt) ↔ IsPlace
    unfolding validate_uk_region
    validate_uk_region_iff =
        let uk = eq_iff request.country_id "uk" in
        (
          λ h e. ground (arith, uk),
          λ place. elim (Bool-cases (str_eq request.country_id "uk")) [
            | inl home ↦ rw (home, place (uk.0 home)) refl
            | inr other ↦ rw other refl
          ],
        )
