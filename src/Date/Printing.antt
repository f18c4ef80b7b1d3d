-- ===== src/Date/Printing.antt =====
-- Business dates as text: what is printed is read back.
use coffee_shop_pos_multi_ag.Base.{
  ℕ, ◌+◌, ◌*◌, ◌-◌, ◌/◌, ◌%◌, ◌≡◌, ◌≤◌, ◌<◌, refl, ap, true, [], ◌∷◌, some, Option-cases, inl, inr,
  arith,
}
use coffee_shop_pos_multi_ag.Text.{Text}
use coffee_shop_pos_multi_ag.Date.{
  Date, is_calendar_date, days_in_month, match_date, parse_business_date, to_date_only, is_digit,
}

is_digit-char : (n : ℕ) → n < 10 → is_digit (n + b'0') ≡ true
is_digit-char n h = ground arith

days_in_month_le : (y m : ℕ) → days_in_month y m ≤ 31
unfolding days_in_month
days_in_month_le y m = ground arith

year_digits :
    (y : ℕ)
    → (y / 1000 + 48 - 48) * 1000
        + (y / 100 % 10 + 48 - 48) * 100
        + (y / 10 % 10 + 48 - 48) * 10
        + (y % 10 + 48 - 48)
      ≡ y
year_digits y = omega arith

two_digits : (n : ℕ) → (n / 10 + 48 - 48) * 10 + (n % 10 + 48 - 48) ≡ n
two_digits n = omega arith

match_date-to_date_only :
    (d : Date) → d.year ≤ 9999 → d.month ≤ 12 → d.day ≤ 31 → match_date (to_date_only d) ≡ some d
unfolding match_date to_date_only
match_date-to_date_only d hy hm hd =
    rw
      (
        is_digit-char (d.year / 1000) (omega arith),
        is_digit-char (d.year / 100 % 10) (omega arith),
        is_digit-char (d.year / 10 % 10) (omega arith),
        is_digit-char (d.year % 10) (omega arith),
        is_digit-char (d.month / 10) (omega arith),
        is_digit-char (d.month % 10) (omega arith),
        is_digit-char (d.day / 10) (omega arith),
        is_digit-char (d.day % 10) (omega arith),
      )
      (rw (year_digits d.year, two_digits d.month, two_digits d.day) refl)

-- A day of the calendar is read back from what is printed of it.
pub parse_business_date-to_date_only :
    (d : Date) → is_calendar_date d ≡ true → parse_business_date (to_date_only d) ≡ some d
unfolding parse_business_date
parse_business_date-to_date_only d h =
    let bounds : (d.year ≤ 9999) × (d.month ≤ 12) × (d.day ≤ days_in_month d.year d.month) =
      unfold is_calendar_date in (ground arith, ground arith, ground arith) in
    rw
      (
        match_date-to_date_only d bounds.0 bounds.1
            (omega (arith, bounds.2, days_in_month_le d.year d.month)),
        parse_business_date,
      )
      (rw h refl)

digit_bound : (c : ℕ) → is_digit c ≡ true → (c - 48 < 10) × (c - 48 + 48 ≡ c)
digit_bound c h = (ground arith, ground arith)

year_chars :
    (a b c e y : ℕ)
    → is_digit a ≡ true
    → is_digit b ≡ true
    → is_digit c ≡ true
    → is_digit e ≡ true
    → y ≡ (a - 48) * 1000 + (b - 48) * 100 + (c - 48) * 10 + (e - 48)
    → (y / 1000 + 48 ≡ a) × (y / 100 % 10 + 48 ≡ b) × (y / 10 % 10 + 48 ≡ c) × (y % 10 + 48 ≡ e)
year_chars a b c e y ha hb hc he p =
    let ba = digit_bound a ha in
    let bb = digit_bound b hb in
    let bc = digit_bound c hc in
    let be = digit_bound e he in
    (
      omega (arith, p, ba, bb, bc, be),
      omega (arith, p, ba, bb, bc, be),
      omega (arith, p, ba, bb, bc, be),
      omega (arith, p, ba, bb, bc, be),
    )

two_chars :
    (a b n : ℕ)
    → is_digit a ≡ true
    → is_digit b ≡ true
    → n ≡ (a - 48) * 10 + (b - 48)
    → (n / 10 + 48 ≡ a) × (n % 10 + 48 ≡ b)
two_chars a b n ha hb p =
    let ba = digit_bound a ha in
    let bb = digit_bound b hb in (omega (arith, p, ba, bb), omega (arith, p, ba, bb))

-- What ten characters have to be to match.
record Matched (a b c e s f g t h k : ℕ) (d : Date) : Type 0 where
  da : is_digit a ≡ true
  db : is_digit b ≡ true
  dc : is_digit c ≡ true
  de : is_digit e ≡ true
  first_dash : s ≡ 45
  df : is_digit f ≡ true
  dg : is_digit g ≡ true
  second_dash : t ≡ 45
  dh : is_digit h ≡ true
  dk : is_digit k ≡ true
  year : d.year ≡ (a - 48) * 1000 + (b - 48) * 100 + (c - 48) * 10 + (e - 48)
  month : d.month ≡ (f - 48) * 10 + (g - 48)
  day : d.day ≡ (h - 48) * 10 + (k - 48)

match_date-Matched :
    (a b c e s f g t h k : ℕ) (d : Date)
    → match_date (a ∷ b ∷ c ∷ e ∷ s ∷ f ∷ g ∷ t ∷ h ∷ k ∷ []) ≡ some d
    → Matched a b c e s f g t h k d
unfolding match_date
match_date-Matched a b c e s f g t h k d m = record {
  da = ground arith;
  db = ground arith;
  dc = ground arith;
  de = ground arith;
  first_dash = ground arith;
  df = ground arith;
  dg = ground arith;
  second_dash = ground arith;
  dh = ground arith;
  dk = ground arith;
  year = ground arith;
  month = ground arith;
  day = ground arith;
}

Matched-chars :
    (a b c e s f g t h k : ℕ) (d : Date)
    → Matched a b c e s f g t h k d
    → to_date_only d ≡ a ∷ b ∷ c ∷ e ∷ s ∷ f ∷ g ∷ t ∷ h ∷ k ∷ []
unfolding to_date_only
Matched-chars a b c e s f g t h k d m =
    let y = year_chars a b c e d.year m.da m.db m.dc m.de m.year in
    let n = two_chars f g d.month m.df m.dg m.month in
    let z = two_chars h k d.day m.dh m.dk m.day in
    rw (y.0, y.1, y.2, y.3, n.0, n.1, z.0, z.1, m.first_dash, m.second_dash) refl

match_date-chars : (v : Text) (d : Date) → match_date v ≡ some d → to_date_only d ≡ v
unfolding match_date
match_date-chars ([]) d m = absurd (ground arith)
match_date-chars (a ∷ []) d m = absurd (ground arith)
match_date-chars (a ∷ b ∷ []) d m = absurd (ground arith)
match_date-chars (a ∷ b ∷ c ∷ []) d m = absurd (ground arith)
match_date-chars (a ∷ b ∷ c ∷ e ∷ []) d m = absurd (ground arith)
match_date-chars (a ∷ b ∷ c ∷ e ∷ s ∷ []) d m = absurd (ground arith)
match_date-chars (a ∷ b ∷ c ∷ e ∷ s ∷ f ∷ []) d m = absurd (ground arith)
match_date-chars (a ∷ b ∷ c ∷ e ∷ s ∷ f ∷ g ∷ []) d m = absurd (ground arith)
match_date-chars (a ∷ b ∷ c ∷ e ∷ s ∷ f ∷ g ∷ t ∷ []) d m = absurd (ground arith)
match_date-chars (a ∷ b ∷ c ∷ e ∷ s ∷ f ∷ g ∷ t ∷ h ∷ []) d m = absurd (ground arith)
match_date-chars (a ∷ b ∷ c ∷ e ∷ s ∷ f ∷ g ∷ t ∷ h ∷ k ∷ x ∷ rest) d m = absurd (ground arith)
match_date-chars (a ∷ b ∷ c ∷ e ∷ s ∷ f ∷ g ∷ t ∷ h ∷ k ∷ []) d m =
    Matched-chars a b c e s f g t h k d (match_date-Matched a b c e s f g t h k d m)

-- A text is read as a date only if it is what is printed of that date, and the date is a day of the
-- calendar.
pub parse_business_date-prints :
    (v : Text) (d : Date)
    → parse_business_date v ≡ some d
    → (to_date_only d ≡ v) × (is_calendar_date d ≡ true)
unfolding parse_business_date
parse_business_date-prints v d e = elim (Option-cases (match_date v)) [
  | inl missing ↦ absurd (ground arith)
  | inr (x, found) ↦
      let same : x ≡ d = ground arith in
      (match_date-chars v d (rw found (ap some same)), ground arith)
]
