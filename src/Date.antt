-- ===== src/Date.antt =====
-- Business dates: `parseBusinessDate` and `toDateOnly` of
-- apps/api/src/trading-day/trading-day.service.ts. A database date is a day of the calendar.
pub mod Printing
use coffee_shop_pos_multi_ag.Base.{
  ℕ, ◌+◌, ◌*◌, ◌/◌, ◌%◌, ◌-◌, Bool, ◌&&◌, ◌||◌, not, [], ◌∷◌, Option, none, some, leb, ◌==◌,
  if◌then◌else◌,
}
use coffee_shop_pos_multi_ag.Text.{Text}

pub record Date : Type 0 where
  pub year : ℕ
  pub month : ℕ
  pub day : ℕ

unfoldable pub is_leap_year : ℕ → Bool
is_leap_year y = (y % 4) == 0 && (not ((y % 100) == 0) || (y % 400) == 0)

unfoldable pub days_in_month : ℕ → ℕ → ℕ
unfolding is_leap_year
days_in_month y m =
    if m == 2
    then (if is_leap_year y then 29 else 28)
    else if m == 4 || m == 6 || m == 9 || m == 11
    then 30
    else 31

-- The days that a four-digit year can name.
unfoldable pub is_calendar_date : Date → Bool
unfolding days_in_month
is_calendar_date d =
    leb d.year 9999
    && (leb 1 d.month && leb d.month 12)
    && (leb 1 d.day && leb d.day (days_in_month d.year d.month))

abbrev pub is_digit : ℕ → Bool
is_digit c = leb b'0' c && leb c b'9'

-- `/^\d{4}-\d{2}-\d{2}$/`, with the number that the digits of each part make.
unfoldable pub match_date : Text → Option Date
match_date (a ∷ b ∷ c ∷ d ∷ s ∷ e ∷ f ∷ t ∷ g ∷ h ∷ []) =
    if is_digit a
      && is_digit b
      && is_digit c
      && is_digit d
      && s == b'-'
      && is_digit e
      && is_digit f
      && t == b'-'
      && is_digit g
      && is_digit h
    then some (record {
      year = (a - b'0') * 1000 + (b - b'0') * 100 + (c - b'0') * 10 + (d - b'0');
      month = (e - b'0') * 10 + (f - b'0');
      day = (g - b'0') * 10 + (h - b'0');
    })
    else none
match_date _ = none

-- `parseBusinessDate` on what `validateOpenInput` lets it see: its one caller there tests the form first. A text of
-- that form which names no day of the calendar gives an invalid `Date`, or one that
-- prints otherwise; both are refused.
unfoldable pub parse_business_date : Text → Option Date
unfolding match_date is_calendar_date
parse_business_date value = elim (match_date value) [
  | none ↦ none
  | some d ↦ if is_calendar_date d then some d else none
]

-- `value.toISOString().slice(0, 10)`
unfoldable pub to_date_only : Date → Text
to_date_only d =
    (d.year / 1000 + b'0')
    ∷ (d.year / 100 % 10 + b'0')
    ∷ (d.year / 10 % 10 + b'0')
    ∷ (d.year % 10 + b'0')
    ∷ b'-'
    ∷ (d.month / 10 + b'0')
    ∷ (d.month % 10 + b'0')
    ∷ b'-'
    ∷ (d.day / 10 + b'0')
    ∷ (d.day % 10 + b'0')
    ∷ []

unfoldable pub date_eq : Date → Date → Bool
date_eq a b = a.year == b.year && a.month == b.month && a.day == b.day

unfoldable pub date_before : Date → Date → Bool
date_before a b =
    leb (a.year * 10000 + a.month * 100 + a.day + 1) (b.year * 10000 + b.month * 100 + b.day)
