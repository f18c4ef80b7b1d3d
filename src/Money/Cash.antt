-- ===== src/Money/Cash.antt =====
-- The trading-day cash arithmetic: expected cash, and the variance of a counted drawer.
use coffee_shop_pos_multi_ag.Base.{
  ℕ, ◌+◌, ◌<◌, ◌≤◌, ◌≡◌, ap, Option, Bool, filter, if◌then◌else◌, refl, none, some, List, [], ◌∷◌,
  arith, ℤ, ◌+ℤ◌, ◌-ℤ◌, neg_ℤ, abs, abs-neg, sum, int_laws, map,
}
use coffee_shop_pos_multi_ag.Number.{two_53}
use coffee_shop_pos_multi_ag.Failure.{ok}
use coffee_shop_pos_multi_ag.Money.{
  DayStatus, PaymentMethod, actual_cash, add_money, TenderAmount, is_cash, is_online, amounts_by,
  day_open, day_closed, variance_of, CashReconciliationInput, CashReconciliation,
  calculate_cash_reconciliation, cash, online,
}
use coffee_shop_pos_multi_ag.Money.Sums.{abs_sum, abs-sum-le, cents-ok, add_money-exact}

abbrev pub amounts : List TenderAmount → List ℤ
amounts payments = map (λ t. t.amount_cents) payments

-- Every payment is cash or online, so the two sums make up the whole.
pub sum-amounts :
    (ps : List TenderAmount)
    → sum (amounts_by is_cash ps) +ℤ sum (amounts_by is_online ps) ≡ sum (amounts ps)
sum-amounts [] = omega int_laws
sum-amounts (p ∷ ps) = method_cases p.method (sum-amounts ps)
  where
    method_cases :
        (m : PaymentMethod)
        → sum (amounts_by is_cash ps) +ℤ sum (amounts_by is_online ps) ≡ sum (amounts ps)
        → sum (
              map
                (λ t. t.amount_cents)
                (if is_cash m
                  then p ∷ filter (λ t. is_cash t.method) ps
                  else filter (λ t. is_cash t.method) ps))
            +ℤ sum (
                map
                  (λ t. t.amount_cents)
                  (if is_online m
                    then p ∷ filter (λ t. is_online t.method) ps
                    else filter (λ t. is_online t.method) ps))
          ≡ p.amount_cents +ℤ sum (amounts ps)
    method_cases cash ih = rw (← ih) (omega int_laws)
    method_cases online ih = rw (← ih) (omega int_laws)

abs_sum-amounts_by-le :
    (p : PaymentMethod → Bool) (ps : List TenderAmount)
    → abs_sum (amounts_by p ps) ≤ abs_sum (amounts ps)
abs_sum-amounts_by-le p [] = omega arith
abs_sum-amounts_by-le p (t ∷ ps) = ground (arith, abs_sum-amounts_by-le p ps)

pub abs_sum-amounts_by-add :
    (ps : List TenderAmount)
    → abs_sum (amounts_by is_cash ps) + abs_sum (amounts_by is_online ps) ≡ abs_sum (amounts ps)
abs_sum-amounts_by-add [] = omega arith
abs_sum-amounts_by-add (t ∷ ps) = ground (arith, abs_sum-amounts_by-add ps)

-- The reconciliation in exact arithmetic.
abbrev pub expected_cash : CashReconciliationInput → ℤ
expected_cash i =
    i.opening_float_cents
    +ℤ sum (amounts_by is_cash i.payments)
    +ℤ sum i.cash_tip_cents
    +ℤ i.cash_in_cents
    +ℤ i.outstanding_change_cents
    -ℤ i.cash_out_cents
    -ℤ i.cash_expenses_cents

abbrev pub variance_from : Option ℤ → ℤ → Option ℤ
variance_from none expected = none
variance_from (some actual) expected = some (actual -ℤ expected)

abbrev pub reconciled : CashReconciliationInput → CashReconciliation
reconciled i = record {
  cash_sales_cents = sum (amounts_by is_cash i.payments);
  online_sales_cents = sum (amounts_by is_online i.payments);
  gross_sales_cents = sum (amounts i.payments);
  tips_cents = sum i.cash_tip_cents;
  cash_in_cents = i.cash_in_cents;
  cash_out_cents = i.cash_out_cents;
  cash_expenses_cents = i.cash_expenses_cents;
  outstanding_change_cents = i.outstanding_change_cents;
  expected_cash_cents = expected_cash i;
  actual_cash_cents = actual_cash i.status i.latest_counted_cents;
  variance_cents = variance_from (actual_cash i.status i.latest_counted_cents) (expected_cash i);
}

abbrev pub counted_size : Option ℤ → ℕ
counted_size none = 0
counted_size (some c) = abs c

-- The sizes of all amounts that take part, together.
abbrev pub magnitude : CashReconciliationInput → ℕ
magnitude i =
    abs i.opening_float_cents
    + abs_sum (amounts i.payments)
    + abs_sum i.cash_tip_cents
    + abs i.cash_in_cents
    + abs i.cash_out_cents
    + abs i.cash_expenses_cents
    + abs i.outstanding_change_cents
    + counted_size i.latest_counted_cents

two_terms : (a b : ℤ) → abs a + abs b < two_53 → add_money (a ∷ b ∷ []) ≡ ok (a +ℤ b)
two_terms a b h = rw (add_money-exact (a ∷ b ∷ []) (omega arith)) (ap ok (omega int_laws))

variance_of-exact :
    (c : Option ℤ) (e : ℤ)
    → counted_size c + abs e < two_53
    → variance_of c e ≡ ok (variance_from c e)
unfolding variance_of
variance_of-exact none e h = refl
variance_of-exact (some a) e h =
    let minus : a +ℤ neg_ℤ e ≡ a -ℤ e = omega int_laws in
    rw (cents-ok (neg_ℤ e) (rw (abs-neg e) (omega arith)))
      (rw (two_terms a (neg_ℤ e) (rw (abs-neg e) (omega arith))) (rw minus))

gross_exact :
    (i : CashReconciliationInput)
    → magnitude i < two_53
    → add_money (sum (amounts_by is_cash i.payments) ∷ sum (amounts_by is_online i.payments) ∷ [])
      ≡ ok (sum (amounts i.payments))
gross_exact i h =
    rw
      (two_terms (sum (amounts_by is_cash i.payments)) (sum (amounts_by is_online i.payments)) (
        omega (
          arith,
          abs-sum-le (amounts_by is_cash i.payments),
          abs-sum-le (amounts_by is_online i.payments),
          abs_sum-amounts_by-add i.payments,
        )))
      (ap ok (sum-amounts i.payments))

expected_terms : CashReconciliationInput → List ℤ
expected_terms i =
    i.opening_float_cents
    ∷ sum (amounts_by is_cash i.payments)
    ∷ sum i.cash_tip_cents
    ∷ i.cash_in_cents
    ∷ i.outstanding_change_cents
    ∷ neg_ℤ i.cash_out_cents
    ∷ neg_ℤ i.cash_expenses_cents
    ∷ []

sum_seven :
    (a b c d e f g : ℤ)
    → sum (a ∷ b ∷ c ∷ d ∷ e ∷ neg_ℤ f ∷ neg_ℤ g ∷ []) ≡ a +ℤ b +ℤ c +ℤ d +ℤ e -ℤ f -ℤ g
sum_seven a b c d e f g = omega int_laws

sum-expected_terms : (i : CashReconciliationInput) → sum (expected_terms i) ≡ expected_cash i
unfolding expected_terms
sum-expected_terms i =
    sum_seven i.opening_float_cents (sum (amounts_by is_cash i.payments)) (sum i.cash_tip_cents)
      i.cash_in_cents i.outstanding_change_cents i.cash_out_cents i.cash_expenses_cents

expected_size :
    (i : CashReconciliationInput)
    → abs_sum (expected_terms i) + counted_size i.latest_counted_cents ≤ magnitude i
unfolding expected_terms
expected_size i = omega (
  arith,
  abs-sum-le (amounts_by is_cash i.payments),
  abs_sum-amounts_by-le is_cash i.payments,
  abs-sum-le i.cash_tip_cents,
  abs-neg i.cash_out_cents,
  abs-neg i.cash_expenses_cents,
)

expected_le : (i : CashReconciliationInput) → abs (expected_cash i) ≤ abs_sum (expected_terms i)
expected_le i = rw (← sum-expected_terms i) (abs-sum-le (expected_terms i))

counted_le : (s : DayStatus) (c : Option ℤ) → counted_size (actual_cash s c) ≤ counted_size c
counted_le day_open c = omega arith
counted_le day_closed c = omega arith

expected_exact :
    (i : CashReconciliationInput)
    → magnitude i < two_53
    → add_money (expected_terms i) ≡ ok (expected_cash i)
expected_exact i h =
    rw (add_money-exact (expected_terms i) (omega (arith, expected_size i)))
      (ap ok (sum-expected_terms i))

variance_exact :
    (i : CashReconciliationInput)
    → magnitude i < two_53
    → variance_of (actual_cash i.status i.latest_counted_cents) (expected_cash i)
      ≡ ok (variance_from (actual_cash i.status i.latest_counted_cents) (expected_cash i))
variance_exact i h =
    variance_of-exact (actual_cash i.status i.latest_counted_cents) (expected_cash i)
      (omega (arith, counted_le i.status i.latest_counted_cents, expected_size i, expected_le i))

-- While all amounts together stay safe, nothing throws, and the result is the exact reconciliation.
-- Expected cash is float, cash sales, tips, cash in and outstanding change, less cash out and
-- expenses; gross is all payments; an open day has no actual cash and no variance.
pub calculate_cash_reconciliation-exact :
    (i : CashReconciliationInput)
    → magnitude i < two_53
    → calculate_cash_reconciliation i ≡ ok (reconciled i)
unfolding calculate_cash_reconciliation expected_terms
calculate_cash_reconciliation-exact i h =
    let cash_le = abs_sum-amounts_by-le is_cash i.payments in
    let online_le = abs_sum-amounts_by-le is_online i.payments in
    let cash_sum = abs-sum-le (amounts_by is_cash i.payments) in
    let tip_sum = abs-sum-le i.cash_tip_cents in
    simp (
      add_money-exact (amounts_by is_cash i.payments) (omega arith),
      add_money-exact (amounts_by is_online i.payments) (omega arith),
      gross_exact i h,
      add_money-exact i.cash_tip_cents (omega arith),
      cents-ok (neg_ℤ i.cash_out_cents) (rw (abs-neg i.cash_out_cents) (omega arith)),
      cents-ok (neg_ℤ i.cash_expenses_cents) (rw (abs-neg i.cash_expenses_cents) (omega arith)),
      expected_exact i h,
      variance_exact i h,
    )
