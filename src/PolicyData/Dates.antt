-- ===== src/PolicyData/Dates.antt =====
-- utils/policy_data_validation.py: the dates of a period key. A text is read as the list of its
-- characters' codes.
pub mod Written
use Prim.Native.Char.{code}
use Prim.Native.String.{[] as []ₛ, ◌∷◌ as ◌∷ₛ◌}
use policyengine_api.Base.{
  ℕ, ◌+◌, ◌-◌, ◌*◌, ◌%◌, String, List, [], ◌∷◌, Option, none, some, Bool, true, false, not, ◌&&◌,
  ◌||◌, ltb, leb, ◌==◌, if◌then◌else◌, length, all,
}

unfoldable pub codes : String → List ℕ
codes []ₛ = []
codes (c ∷ₛ s) = code c ∷ codes s

-- [0-9]
abbrev pub is_digit : ℕ → Bool
is_digit c = leb 48 c && leb c 57

-- `_ZERO_PADDED_DATE.fullmatch`
unfoldable pub zero_padded : List ℕ → Bool
zero_padded (a ∷ b ∷ c ∷ d ∷ h ∷ e ∷ f ∷ i ∷ g ∷ j ∷ []) =
    all is_digit (a ∷ b ∷ c ∷ d ∷ e ∷ f ∷ g ∷ j ∷ []) && (h == 45) && (i == 45)
zero_padded _ = false

pub record Date : Type 0 where
  pub year : ℕ
  pub month : ℕ
  pub day : ℕ

abbrev pub is_leap : ℕ → Bool
is_leap year = (year % 4 == 0) && (not (year % 100 == 0) || (year % 400 == 0))

abbrev pub days_in_month : ℕ → ℕ → ℕ
days_in_month year month =
    if month == 2
    then (if is_leap year then 29 else 28)
    else if (month == 4) || (month == 6) || (month == 9) || (month == 11)
    then 30
    else 31

-- the dates that Python's `date` has
unfoldable pub is_calendar_date : Date → Bool
is_calendar_date d =
    leb 1 d.year
    && leb d.year 9999
    && leb 1 d.month
    && leb d.month 12
    && leb 1 d.day
    && leb d.day (days_in_month d.year d.month)

abbrev pub two_digits : ℕ → ℕ → ℕ
two_digits a b = 10 * (a - 48) + (b - 48)

-- date.fromisoformat, of a zero-padded text
unfoldable pub from_iso : List ℕ → Option Date
unfolding is_calendar_date
from_iso (a ∷ b ∷ c ∷ d ∷ h ∷ e ∷ f ∷ i ∷ g ∷ j ∷ []) =
    let read : Date = record {
      year = 100 * two_digits a b + two_digits c d;
      month = two_digits e f;
      day = two_digits g j;
    } in
    if is_calendar_date read then some read else none
from_iso _ = none

-- str.split(".")
abbrev prepend : ℕ → List (List ℕ) → List (List ℕ)
prepend c [] = (c ∷ []) ∷ []
prepend c (part ∷ parts) = (c ∷ part) ∷ parts

unfoldable pub split_dots : List ℕ → List (List ℕ)
split_dots [] = [] ∷ []
split_dots (c ∷ rest) =
    let parts = split_dots rest in if c == 46 then [] ∷ parts else prepend c parts

-- `d <= e` of two dates
unfoldable pub date_le : Date → Date → Bool
date_le d e =
    ltb d.year e.year
    || ((d.year == e.year) && (ltb d.month e.month || ((d.month == e.month) && leb d.day e.day)))

abbrev cons_date : Option Date → Option (List Date) → Option (List Date)
cons_date (some d) (some rest) = some (d ∷ rest)
cons_date _ _ = none

unfoldable pub read_dates : List (List ℕ) → Option (List Date)
unfolding from_iso
read_dates [] = some []
read_dates (part ∷ parts) = cons_date (from_iso part) (read_dates parts)

abbrev last_date : Date → List Date → Date
last_date d [] = d
last_date d (e ∷ rest) = last_date e rest

-- dates[0] <= dates[-1]
abbrev pub ordered : Option (List Date) → Bool
ordered none = false
ordered (some []) = false
ordered (some (d ∷ rest)) = date_le d (last_date d rest)

abbrev pub max_dates_in_period_key : ℕ
max_dates_in_period_key = 2

unfoldable pub is_readable_period_key : String → Bool
unfolding codes split_dots zero_padded read_dates date_le
is_readable_period_key period_key =
    let date_texts = split_dots (codes period_key) in
    if ltb max_dates_in_period_key (length date_texts)
    then false
    else if not (all zero_padded date_texts)
    then false
    else ordered (read_dates date_texts)
