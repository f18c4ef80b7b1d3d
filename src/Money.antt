-- ===== src/Money.antt =====
-- Integer money (packages/shared/src/money.ts). Every amount is a whole number of cents, and `cents`
-- lets only safe integers through.
pub mod Sums
pub mod Lines
pub mod Suggestions
pub mod Cash
use coffee_shop_pos_multi_ag.Base.{
  ℕ, ◌+◌, ◌*◌, ◌/◌, ◌%◌, Bool, true, false, Option, none, some, List, [], ◌∷◌, ltb, leb,
  if◌then◌else◌, ℤ, pos, neg_ℤ, ltb_ℤ, leb_ℤ, pos_part, abs, filter, map,
}
use coffee_shop_pos_multi_ag.Number.{is_safe_integer, add, mul}
use coffee_shop_pos_multi_ag.Failure.{Result, ok, err, ◌>>=◌, ◌>>◌, throw_if, type_error}

abbrev pub commission_gross_band_cents : ℕ
commission_gross_band_cents = 100000

abbrev pub commission_per_band_cents : ℤ
commission_per_band_cents = pos 5000

abbrev pub rent_round_up_hundreds_digit : ℕ
rent_round_up_hundreds_digit = 8

unfoldable pub cents : ℤ → Result ℤ
cents value = if is_safe_integer value then ok value else err type_error

-- `values.reduce((total, value) => total + value, start)`
unfoldable pub reduce_add : ℤ → List ℤ → ℤ
reduce_add total [] = total
reduce_add total (value ∷ values) = reduce_add (add total value) values

unfoldable pub add_money : List ℤ → Result ℤ
add_money values = cents (reduce_add (pos 0) values)

unfoldable pub multiply_money : ℤ → ℤ → Result ℤ
multiply_money value quantity =
    if is_safe_integer quantity then cents (mul value quantity) else err type_error

-- A division by a positive number is guarded to a positive amount, where `Math.floor` of the
-- rounded quotient is the whole quotient.
unfoldable pub suggest_commission_cents : ℤ → Result ℤ
suggest_commission_cents gross =
    if leb_ℤ gross (pos 0)
    then cents (pos 0)
    else multiply_money commission_per_band_cents
        (pos (pos_part gross / commission_gross_band_cents))

unfoldable pub suggest_personal_commission_cents : ℤ → Option ℤ → Result ℤ
suggest_personal_commission_cents gross none = cents (pos 0)
suggest_personal_commission_cents gross (some rate) =
    if leb_ℤ gross (pos 0)
    then cents (pos 0)
    else multiply_money rate (pos (pos_part gross / commission_gross_band_cents))

-- Gross rounded by its hundreds digit to whole thousands of the currency.
unfoldable pub round_gross : ℕ → ℕ
round_gross gross =
    let whole_thousands = gross / 100000 in
    let hundreds_digit = gross % 100000 / 10000 in
    (if leb rent_round_up_hundreds_digit hundreds_digit
      then whole_thousands + 1
      else whole_thousands)
    * 100000

unfoldable pub suggest_rent_deposit_cents : ℤ → ℤ → Result ℤ
suggest_rent_deposit_cents gross rent_percent_basis_points =
    if leb_ℤ gross (pos 0)
    then cents (pos 0)
    else cents (mul (pos (round_gross (pos_part gross) / 10000)) rent_percent_basis_points)

unfoldable pub suggest_chair_deposit_cents : ℤ → ℤ → ℤ → Result ℤ
suggest_chair_deposit_cents gross amount threshold =
    if ltb_ℤ gross threshold then cents (pos 0) else ok amount

pub data LineDiscountKind : Type 0 where
  no_discount pwd senior : LineDiscountKind

pub record LineAmounts : Type 0 where
  pub line_gross_cents : ℤ
  pub discount_cents : ℤ
  pub line_total_cents : ℤ

-- `Math.floor(n / 5) + (n % 5 >= 3 ? 1 : 0)`
unfoldable pub fifth_rounded : ℕ → ℕ
fifth_rounded n = n / 5 + (if leb 3 (n % 5) then 1 else 0)

-- `Math.sign(x) * n`
abbrev pub with_sign_of : ℤ → ℕ → ℤ
with_sign_of x n =
    if ltb_ℤ x (pos 0) then neg_ℤ (pos n) else if ltb_ℤ (pos 0) x then pos n else pos 0

unfoldable pub discount_of : ℤ → LineDiscountKind → ℤ
discount_of gross senior = with_sign_of gross (fifth_rounded (abs gross))
discount_of gross no_discount = pos 0
discount_of gross pwd = pos 0

-- The part of `calculateLineAmounts` below its first statement.
unfoldable pub discounted : ℤ → LineDiscountKind → Result LineAmounts
discounted gross kind = do
  discount ← cents (discount_of gross kind)
  negated ← cents (neg_ℤ discount)
  total ← add_money (gross ∷ negated ∷ [])
  ok (record { line_gross_cents = gross; discount_cents = discount; line_total_cents = total })

unfoldable pub calculate_line_amounts : ℤ → ℤ → LineDiscountKind → Result LineAmounts
unfolding discounted
calculate_line_amounts unit_price quantity kind = do
  gross ← multiply_money unit_price quantity
  discounted gross kind

unfoldable pub calculate_order_total : ℤ → ℤ → ℤ → Result ℤ
calculate_order_total subtotal discount tax = do
  negated ← cents (neg_ℤ discount)
  add_money (subtotal ∷ negated ∷ tax ∷ [])

pub data PaymentMethod : Type 0 where
  cash online : PaymentMethod

abbrev pub is_cash : PaymentMethod → Bool
is_cash cash = true
is_cash online = false

abbrev pub is_online : PaymentMethod → Bool
is_online cash = false
is_online online = true

pub record TenderAmount : Type 0 where
  pub method : PaymentMethod
  pub amount_cents : ℤ

pub data DayStatus : Type 0 where
  day_open day_closed : DayStatus

pub record CashReconciliationInput : Type 0 where
  pub status : DayStatus
  pub opening_float_cents : ℤ
  pub payments : List TenderAmount
  pub cash_tip_cents : List ℤ
  pub cash_in_cents : ℤ
  pub cash_out_cents : ℤ
  pub cash_expenses_cents : ℤ
  pub outstanding_change_cents : ℤ
  pub latest_counted_cents : Option ℤ

pub record CashReconciliation : Type 0 where
  pub cash_sales_cents : ℤ
  pub online_sales_cents : ℤ
  pub gross_sales_cents : ℤ
  pub tips_cents : ℤ
  pub cash_in_cents : ℤ
  pub cash_out_cents : ℤ
  pub cash_expenses_cents : ℤ
  pub outstanding_change_cents : ℤ
  pub expected_cash_cents : ℤ
  pub actual_cash_cents : Option ℤ
  pub variance_cents : Option ℤ

abbrev pub amounts_by : (PaymentMethod → Bool) → List TenderAmount → List ℤ
amounts_by p payments = map (λ t. t.amount_cents) (filter (λ t. p t.method) payments)

abbrev pub actual_cash : DayStatus → Option ℤ → Option ℤ
actual_cash day_open counted = none
actual_cash day_closed counted = counted

unfoldable pub variance_of : Option ℤ → ℤ → Result (Option ℤ)
variance_of none expected = ok none
variance_of (some actual) expected = do
  negated ← cents (neg_ℤ expected)
  variance ← add_money (actual ∷ negated ∷ [])
  ok (some variance)

unfoldable pub calculate_cash_reconciliation : CashReconciliationInput → Result CashReconciliation
calculate_cash_reconciliation input = do
  cash_sales ← add_money (amounts_by is_cash input.payments)
  online_sales ← add_money (amounts_by is_online input.payments)
  gross_sales ← add_money (cash_sales ∷ online_sales ∷ [])
  tips ← add_money input.cash_tip_cents
  minus_out ← cents (neg_ℤ input.cash_out_cents)
  minus_expenses ← cents (neg_ℤ input.cash_expenses_cents)
  expected ← add_money (
      input.opening_float_cents ∷ cash_sales ∷ tips ∷ input.cash_in_cents
      ∷ input.outstanding_change_cents ∷ minus_out ∷ minus_expenses ∷ [])
  variance ← variance_of (actual_cash input.status input.latest_counted_cents) expected
  ok (record {
    cash_sales_cents = cash_sales;
    online_sales_cents = online_sales;
    gross_sales_cents = gross_sales;
    tips_cents = tips;
    cash_in_cents = input.cash_in_cents;
    cash_out_cents = input.cash_out_cents;
    cash_expenses_cents = input.cash_expenses_cents;
    outstanding_change_cents = input.outstanding_change_cents;
    expected_cash_cents = expected;
    actual_cash_cents = actual_cash input.status input.latest_counted_cents;
    variance_cents = variance;
  })
