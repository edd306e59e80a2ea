-- ===== src/Annual/Build/Years.antt =====
-- services/economy_simulation_requests.py: the years that are offered for a country.
use mathlib.Core.Bool.{false≢true}
use policyengine_api.Base.{
  ℕ, ◌≤◌, ◌<◌, ◌+◌, String, Option, none, some, true, false, ◌≡◌, ◌≢◌, refl, ◌∙◌, sym, ◌↔◌, ◌⊎◌,
  inl, inr, str_eq, eq_iff, arith, Bool-cases,
}
use policyengine_api.Effect.{ok}
use policyengine_api.Annual.Tables.{Tables, economy_years, is_year, years_from}
use policyengine_api.Annual.Build.{check_year, validate_economy_year}

is_year-years_from :
    (year first n : ℕ)
    → (is_year year (years_from first n) ≡ true) ↔ ((first ≤ year) × (year < first + n))
is_year-years_from year first ℕ.zero = (λ h. absurd (false≢true h), λ h. ground arith)
is_year-years_from year first (ℕ.suc n) =
    let (into, back) = is_year-years_from year (ℕ.suc first) n in
    (λ h. ground (arith, into), λ h. ground (arith, back))

-- the years offered for a country
abbrev pub IsOffered : String → ℕ → Type 0
IsOffered country_id year =
    (2_024 ≤ year)
    × (((country_id ≡ "us") × (year ≤ 2_035)) ⊎ ((country_id ≡ "uk") × (year ≤ 2_032)))

module _ (tables : Tables) where
  module _ (country_id time_period : String) where
    check_year-years_from :
        (number : Option ℕ) (first n : ℕ)
        → (check_year tables country_id time_period number (some (years_from first n)) ≡ ok tt)
          ↔ ((year : ℕ) × (number ≡ some year) × (first ≤ year) × (year < first + n))
    check_year-years_from none first n = (λ h. cc h, λ (year, e, h, k). absurd (cc e))
    check_year-years_from (some year) first n =
        let (into, back) = is_year-years_from year first n in
        (
          λ h. let (low, high) = into (ground arith) in (year, refl, low, high),
          λ (y, e, low, high).
              let same : y ≡ year = cc e in
              let listed : is_year year (years_from first n) ≡ true =
                back (rw (← same) (low, high)) in
              rw listed refl,
        )

    -- the answer for each country, from what the text of the year reads as
    abbrev pub Offered : Type 0
    Offered = (year : ℕ) × (tables.number time_period ≡ some year) × IsOffered country_id year

    offered-us :
        str_eq country_id "us" ≡ true
        → (validate_economy_year tables country_id time_period ≡ ok tt) ↔ Offered
    unfolding validate_economy_year economy_years
    offered-us us =
        let (into, back) = check_year-years_from (tables.number time_period) 2_024 12 in
        (
          λ h.
              let (year, e, low, high) = into (rw us at h) in
              (year, e, (low, inl ((eq_iff country_id "us").0 us, omega arith))),
          λ (year, e, (low, last)). rw us (
              back (
                year,
                e,
                low,
                elim last [ inl l ↦ omega (arith, l.1) | inr l ↦ omega (arith, l.1) ],
              )),
        )

    not_us : str_eq country_id "us" ≡ false → country_id ≢ "us"
    not_us other e = false≢true (sym other ∙ (eq_iff country_id "us").1 e)

    offered-uk :
        str_eq country_id "us" ≡ false
        → str_eq country_id "uk" ≡ true
        → (validate_economy_year tables country_id time_period ≡ ok tt) ↔ Offered
    unfolding validate_economy_year economy_years
    offered-uk other uk =
        let (into, back) = check_year-years_from (tables.number time_period) 2_024 9 in
        (
          λ h.
              let (year, e, low, high) = into (rw (other, uk) at h) in
              (year, e, (low, inr ((eq_iff country_id "uk").0 uk, omega arith))),
          λ (year, e, (low, last)).
              rw (other, uk)
                (back (
                  year,
                  e,
                  low,
                  elim last [ inl l ↦ absurd (not_us other l.0) | inr l ↦ omega (arith, l.1) ],
                )),
        )

    offered-elsewhere :
        str_eq country_id "us" ≡ false
        → str_eq country_id "uk" ≡ false
        → (validate_economy_year tables country_id time_period ≡ ok tt) ↔ Offered
    unfolding validate_economy_year economy_years
    offered-elsewhere other neither = (
      λ h. absurd (cc (rw (other, neither) at h)),
      λ (year, e, (low, last)). elim last [
        | inl l ↦ absurd (not_us other l.0)
        | inr l ↦ absurd (false≢true (sym neither ∙ (eq_iff country_id "uk").1 l.0))
      ],
    )

    pub validate_economy_year_iff :
        (validate_economy_year tables country_id time_period ≡ ok tt) ↔ Offered
    validate_economy_year_iff = elim (Bool-cases (str_eq country_id "us")) [
      | inl us ↦ offered-us us
      | inr other ↦ elim (Bool-cases (str_eq country_id "uk")) [
        | inl uk ↦ offered-uk other uk
        | inr neither ↦ offered-elsewhere other neither
      ]
    ]
