-- ===== src/PolicyData/Dates/Written.antt =====
-- utils/policy_data_validation.py: period keys that write one date, or two joined by a dot.
use policyengine_api.Base.{
  ℕ, ◌+◌, ◌*◌, ◌/◌, ◌%◌, ◌≤◌, ◌≡◌, refl, String, List, [], ◌∷◌, ◌++◌, none, some, Bool, true, false,
  ◌&&◌, leb, ◌==◌, if◌then◌else◌, All, arith,
}
use policyengine_api.PolicyData.Dates.{
  codes, two_digits, cons_date, zero_padded, Date, is_calendar_date, from_iso, split_dots,
  read_dates, ordered, date_le, is_readable_period_key,
}

-- a digit of n, the one that counts the given power of ten
abbrev digit_at : ℕ → ℕ → ℕ
digit_at n power = 48 + n / power % 10

-- the codes of YYYY-MM-DD
abbrev pub written : Date → List ℕ
written d =
    digit_at d.year 1000
    ∷ digit_at d.year 100
    ∷ digit_at d.year 10
    ∷ digit_at d.year 1
    ∷ 45
    ∷ digit_at d.month 10
    ∷ digit_at d.month 1
    ∷ 45
    ∷ digit_at d.day 10
    ∷ digit_at d.day 1
    ∷ []

-- the numbers fit their places
pub record FitsPlaces (d : Date) : Type 0 where
  pub year : d.year ≤ 9999
  pub month : d.month ≤ 99
  pub day : d.day ≤ 99

split_dots-plain : (xs : List ℕ) → All (λ c. (c == 46) ≡ false) xs → split_dots xs ≡ xs ∷ []
unfolding split_dots
split_dots-plain [] plain = refl
split_dots-plain (c ∷ rest) plain = rw (split_dots-plain rest plain.1, plain.0) refl

split_dots-joined :
    (xs ys : List ℕ)
    → All (λ c. (c == 46) ≡ false) xs
    → split_dots (xs ++ 46 ∷ ys) ≡ xs ∷ split_dots ys
unfolding split_dots
split_dots-joined [] ys plain = refl
split_dots-joined (c ∷ rest) ys plain = rw (split_dots-joined rest ys plain.1, plain.0) refl

digit_at-plain : (n power : ℕ) → (digit_at n power == 46) ≡ false
digit_at-plain n power = ground arith

written-plain : (d : Date) → All (λ c. (c == 46) ≡ false) (written d)
written-plain d = (
  digit_at-plain d.year 1000,
  (
    digit_at-plain d.year 100,
    (
      digit_at-plain d.year 10,
      (
        digit_at-plain d.year 1,
        (
          refl,
          (
            digit_at-plain d.month 10,
            (
              digit_at-plain d.month 1,
              (refl, (digit_at-plain d.day 10, (digit_at-plain d.day 1, tt))),
            ),
          ),
        ),
      ),
    ),
  ),
)

digit_at-digit : (n power : ℕ) → (leb 48 (digit_at n power) && leb (digit_at n power) 57) ≡ true
digit_at-digit n power = ground arith

zero_padded-written : (d : Date) → zero_padded (written d) ≡ true
unfolding zero_padded
zero_padded-written d = simp digit_at-digit refl

four_places :
    (y : ℕ)
    → y ≤ 9999
    → 100 * two_digits (digit_at y 1000) (digit_at y 100)
        + two_digits (digit_at y 10) (digit_at y 1)
      ≡ y
four_places y small = omega arith

two_places : (n : ℕ) → n ≤ 99 → two_digits (digit_at n 10) (digit_at n 1) ≡ n
two_places n small = omega arith

from_iso-written :
    (d : Date) → FitsPlaces d → from_iso (written d) ≡ (if is_calendar_date d then some d else none)
unfolding from_iso
from_iso-written d fits =
    rw (four_places d.year fits.year, two_places d.month fits.month, two_places d.day fits.day) refl

ordered-two :
    (d e : Date) (real real' : Bool)
    → ordered (
        cons_date
          (if real then some d else none)
          (cons_date (if real' then some e else none) (some [])))
      ≡ (real && real' && date_le d e)
ordered-two d e true true = refl
ordered-two d e true false = refl
ordered-two d e false real' = refl

-- A key that writes two dates joined by a dot is readable exactly when the calendar has both and the
-- first is no later than the second.
pub readable-date_range :
    (period_key : String) (d e : Date)
    → FitsPlaces d
    → FitsPlaces e
    → codes period_key ≡ written d ++ 46 ∷ written e
    → is_readable_period_key period_key ≡ (is_calendar_date d && is_calendar_date e && date_le d e)
unfolding is_readable_period_key read_dates
readable-date_range period_key d e fits fits' same =
    rw
      (
        same,
        split_dots-joined (written d) (written e) (written-plain d),
        split_dots-plain (written e) (written-plain e),
        zero_padded-written d,
        zero_padded-written e,
        from_iso-written d fits,
        from_iso-written e fits',
      )
      (ordered-two d e (is_calendar_date d) (is_calendar_date e))
