-- ===== src/PolicyData/Tests.antt =====
-- The theorems on policy data at concrete inputs, and entries that are found.
use policyengine_api.Base.{
  ◌≡◌, refl, String, [], ◌∷◌, map, Bool, true, false, ◌&&◌, ◌↔◌, str_eq, not, arith,
}
use policyengine_api.Json.{Json, num, lit, str, obj, Fields, end, field}
use policyengine_api.PolicyData.Dates.{
  codes, Date, is_calendar_date, date_le, is_readable_period_key,
}
use policyengine_api.PolicyData.Dates.Written.{FitsPlaces, readable-date_range}
use policyengine_api.PolicyData.Entries.{find_invalid_periods_and_values}
use policyengine_api.PolicyData.Entries.Readable.{readable_policy, find_invalid-readable}

abbrev leap_day : Date
leap_day = record { year = 2028; month = 2; day = 29 }

abbrev year_end : Date
year_end = record { year = 2028; month = 12; day = 31 }

leap_day-FitsPlaces : FitsPlaces leap_day
leap_day-FitsPlaces = record { year = omega arith; month = omega arith; day = omega arith }

year_end-FitsPlaces : FitsPlaces year_end
year_end-FitsPlaces = record { year = omega arith; month = omega arith; day = omega arith }

readable-date_range_example :
    is_readable_period_key "2028-02-29.2028-12-31"
    ≡ (is_calendar_date leap_day && is_calendar_date year_end && date_le leap_day year_end)
readable-date_range_example =
    readable-date_range "2028-02-29.2028-12-31" leap_day year_end leap_day-FitsPlaces
      year_end-FitsPlaces (unfold codes in refl)

leap_days :
    (is_readable_period_key "2028-02-29" ≡ true)
    × (is_readable_period_key "2027-02-29" ≡ false)
    × (is_readable_period_key "2028-12-31.2028-02-29" ≡ false)
    × (is_readable_period_key "2028-1-1" ≡ false)
unfolding is_readable_period_key
leap_days = (refl, refl, refl, refl)

abbrev finite : String → Bool
finite text = not (str_eq text "NaN")

abbrev dumped : Json → String
dumped (str s) = s
dumped _ = "NaN"

abbrev reform : Fields
reform = field "gov.tax.rate" (obj (field "2026-02-30" (lit "NaN") end)) (
    field "gov.benefit.amount" (obj (field "2026-01-01" (num 10) end))
      (field "gov.broken" (num 1) end))

-- the path of each entry, in the order of the parameters
entries_found :
    map (λ e. e.path) (find_invalid_periods_and_values finite dumped reform)
    ≡ "data.gov.broken" ∷ "data.gov.tax.rate.2026-02-30" ∷ "data.gov.tax.rate.2026-02-30" ∷ []
unfolding find_invalid_periods_and_values
entries_found = refl

find_invalid-readable_example :
    (find_invalid_periods_and_values finite dumped reform ≡ [])
    ↔ (readable_policy finite dumped reform ≡ true)
find_invalid-readable_example = find_invalid-readable finite dumped reform
