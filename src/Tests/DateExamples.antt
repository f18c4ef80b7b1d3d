-- ===== src/Tests/DateExamples.antt =====
-- Examples of business dates.
use coffee_shop_pos_multi_ag.Base.{◌≡◌, refl, true, none, some, [], ◌∷◌}
use coffee_shop_pos_multi_ag.Text.{Text}
use coffee_shop_pos_multi_ag.Date.{Date, is_calendar_date, parse_business_date, to_date_only}
use coffee_shop_pos_multi_ag.Date.Printing.{
  parse_business_date-to_date_only, parse_business_date-prints,
}

leap_day : Date
leap_day = record { year = 2024; month = 2; day = 29 }

leap_text : Text
leap_text = b'2' ∷ b'0' ∷ b'2' ∷ b'4' ∷ b'-' ∷ b'0' ∷ b'2' ∷ b'-' ∷ b'2' ∷ b'9' ∷ []

-- 2023 has no such day.
no_leap_text : Text
no_leap_text = b'2' ∷ b'0' ∷ b'2' ∷ b'3' ∷ b'-' ∷ b'0' ∷ b'2' ∷ b'-' ∷ b'2' ∷ b'9' ∷ []

is_leap_day : is_calendar_date leap_day ≡ true
unfolding is_calendar_date leap_day
is_leap_day = refl

reads : parse_business_date leap_text ≡ some leap_day
unfolding parse_business_date leap_text leap_day
reads = refl

refuses : parse_business_date no_leap_text ≡ none
unfolding parse_business_date no_leap_text
refuses = refl

parse_business_date-to_date_only_example :
    parse_business_date (to_date_only leap_day) ≡ some leap_day
parse_business_date-to_date_only_example = parse_business_date-to_date_only leap_day is_leap_day

parse_business_date-prints_example :
    (to_date_only leap_day ≡ leap_text) × (is_calendar_date leap_day ≡ true)
parse_business_date-prints_example = parse_business_date-prints leap_text leap_day reads
