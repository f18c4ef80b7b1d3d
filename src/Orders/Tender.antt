-- ===== src/Orders/Tender.antt =====
-- The settlement of an order (`validateTender` of apps/api/src/orders/orders.service.ts).
use coffee_shop_pos_multi_ag.Base.{
  Bool, true, false, not, ◌||◌, List, [], ◌∷◌, Option, none, some, filter, any, map, if◌then◌else◌,
  is_some, or_else, ℤ, pos, ◌+ℤ◌, ltb_ℤ, eq_ℤ,
}
use coffee_shop_pos_multi_ag.Number.{is_safe_integer, sub}
use coffee_shop_pos_multi_ag.Failure.{
  Result, ok, ◌>>◌, throw_if, bad_request, no_payment, repeated_method, negative_portion,
  payment_total_differs, negative_tip, online_cash_received, online_change_owed,
  received_below_tender, change_owed_too_large,
}
use coffee_shop_pos_multi_ag.Money.{PaymentMethod, cash, online, is_cash}
use coffee_shop_pos_multi_ag.Store.{SalePayment}
use coffee_shop_pos_multi_ag.Orders.Amounts.{is_nil}

pub record CompleteOrderDto : Type 0 where
  pub payments : List SalePayment
  pub cash_received_cents : Option ℤ
  pub cash_tip_cents : Option ℤ
  pub change_owed_cents : Option ℤ

abbrev pub method_eq : PaymentMethod → PaymentMethod → Bool
method_eq cash cash = true
method_eq online online = true
method_eq _ _ = false

-- `new Set(methods).size !== methods.length`
unfoldable pub has_repeats : List PaymentMethod → Bool
has_repeats [] = false
has_repeats (m ∷ ms) = any (method_eq m) ms || has_repeats ms

-- `payments.reduce((sum, payment) => sum + payment.amountCents, sum)`. The sum is not rounded here,
-- which makes no difference beside a total that is a safe integer, as the 32-bit column of the order is
-- (`sum_payments-rounded`); and one method has one portion.
unfoldable pub sum_payments : ℤ → List SalePayment → ℤ
sum_payments total [] = total
sum_payments total (p ∷ ps) = sum_payments (total +ℤ p.amount_cents) ps

unfoldable pub validate_cash : ℤ → CompleteOrderDto → Result (Option ℤ)
unfolding sub
validate_cash cash_tender input =
    if eq_ℤ cash_tender (pos 0)
    then (do
      throw_if (is_some input.cash_received_cents) (bad_request online_cash_received)
      throw_if (not (eq_ℤ (or_else input.change_owed_cents (pos 0)) (pos 0)))
          (bad_request online_change_owed)
      ok none)
    else (do
      let received = or_else input.cash_received_cents cash_tender
      throw_if (ltb_ℤ received cash_tender) (bad_request received_below_tender)
      throw_if (ltb_ℤ (sub received cash_tender) (or_else input.change_owed_cents (pos 0)))
          (bad_request change_owed_too_large)
      ok (some received))

-- The cash received, to be stored.
unfoldable pub validate_tender : ℤ → CompleteOrderDto → Result (Option ℤ)
validate_tender total_cents input = do
  throw_if (is_nil input.payments) (bad_request no_payment)
  throw_if (has_repeats (map (λ p. p.method) input.payments)) (bad_request repeated_method)
  throw_if
      (any (λ p. not (is_safe_integer p.amount_cents) || ltb_ℤ p.amount_cents (pos 0))
        input.payments)
      (bad_request negative_portion)
  throw_if (not (eq_ℤ (sum_payments (pos 0) input.payments) total_cents))
      (bad_request payment_total_differs)
  throw_if
      (not (is_safe_integer (or_else input.cash_tip_cents (pos 0)))
        || ltb_ℤ (or_else input.cash_tip_cents (pos 0)) (pos 0))
      (bad_request negative_tip)
  validate_cash (sum_payments (pos 0) (filter (λ p. is_cash p.method) input.payments)) input
