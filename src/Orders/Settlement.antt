-- ===== src/Orders/Settlement.antt =====
-- Proofs about the settlement of an order.
use coffee_shop_pos_multi_ag.Base.{
  ◌≡◌, ◌≢◌, ◌∙◌, sym, false, List, [], ◌∷◌, Option, none, some, filter, map, or_else, arith, ℤ, pos,
  ◌+ℤ◌, ◌-ℤ◌, ◌≤ℤ◌, ◌<◌, ◌≤◌, abs, negsuc, Bool-cases, inl, inr, sum, int_laws, All, not, ◌||◌, any,
  ltb_ℤ, eq_ℤ, if◌then◌else◌, is_some,
}
use coffee_shop_pos_multi_ag.Number.{is_safe_integer, two_53, sub}
use coffee_shop_pos_multi_ag.Number.Rounding.{round-exact}
use mathlib.Core.Path.{subst}
use coffee_shop_pos_multi_ag.Base.{ltb, refl, ap}
use coffee_shop_pos_multi_ag.Number.Rounding.{+ℤ-nonneg}
use coffee_shop_pos_multi_ag.Money.{reduce_add}
use coffee_shop_pos_multi_ag.Money.Sums.{abs_sum, IsNonneg, reduce_add-exact, reduce_add-unsafe}
use coffee_shop_pos_multi_ag.Orders.Pricing.{nonneg_part}
use coffee_shop_pos_multi_ag.Failure.{
  Result, ok, ◌>>◌, throw_if, bad_request, online_cash_received, online_change_owed,
  received_below_tender, change_owed_too_large,
}
use coffee_shop_pos_multi_ag.Money.{is_cash}
use coffee_shop_pos_multi_ag.Store.{SalePayment}
use coffee_shop_pos_multi_ag.Orders.Tender.{
  CompleteOrderDto, sum_payments, has_repeats, validate_cash, validate_tender,
}

abbrev pub paid : List SalePayment → ℤ
paid ps = sum (map (λ p. p.amount_cents) ps)

abbrev pub paid_in_cash : List SalePayment → ℤ
paid_in_cash ps = paid (filter (λ p. is_cash p.method) ps)

pub sum_payments-paid : (t : ℤ) (ps : List SalePayment) → sum_payments t ps ≡ t +ℤ paid ps
unfolding sum_payments
sum_payments-paid t [] = omega int_laws
sum_payments-paid t (p ∷ ps) = sum_payments-paid (t +ℤ p.amount_cents) ps ∙ omega int_laws

sum_payments-zero : (ps : List SalePayment) → sum_payments (pos 0) ps ≡ paid ps
sum_payments-zero ps = sum_payments-paid (pos 0) ps ∙ omega int_laws

nonneg_of_any :
    (ps : List SalePayment)
    → any (λ p. not (is_safe_integer p.amount_cents) || ltb_ℤ p.amount_cents (pos 0)) ps ≡ false
    → All (λ p. pos 0 ≤ℤ p.amount_cents) ps
nonneg_of_any [] h = tt
nonneg_of_any (p ∷ ps) h = (ground arith, nonneg_of_any ps (ground arith))

-- How the cash side of a settlement comes out, by what is stored as received.
abbrev pub IsCashSettled : ℤ → CompleteOrderDto → Option ℤ → Type 0
IsCashSettled tender i none =
    (tender ≡ pos 0)
    × (i.cash_received_cents ≡ none)
    × (or_else i.change_owed_cents (pos 0) ≡ pos 0)
IsCashSettled tender i (some received) =
    (received ≡ or_else i.cash_received_cents tender)
    × (tender ≤ℤ received)
    × (or_else i.change_owed_cents (pos 0) ≤ℤ received -ℤ tender)

pub record IsSettled (total : ℤ) (i : CompleteOrderDto) (received : Option ℤ) : Type 0 where
  pub some_payment : i.payments ≢ []
  pub no_repeats : has_repeats (map (λ p. p.method) i.payments) ≡ false
  pub portions : All (λ p. pos 0 ≤ℤ p.amount_cents) i.payments
  pub exact : paid i.payments ≡ total
  pub tip : pos 0 ≤ℤ or_else i.cash_tip_cents (pos 0)
  pub cash_side : IsCashSettled (paid_in_cash i.payments) i received

sum_nonneg : (ps : List SalePayment) → All (λ p. pos 0 ≤ℤ p.amount_cents) ps → pos 0 ≤ℤ paid ps
sum_nonneg [] h = omega arith
sum_nonneg (p ∷ ps) h = omega (int_laws, h.0, sum_nonneg ps h.1)

nonneg_filter :
    (ps : List SalePayment)
    → All (λ p. pos 0 ≤ℤ p.amount_cents) ps
    → All (λ p. pos 0 ≤ℤ p.amount_cents) (filter (λ p. is_cash p.method) ps)
nonneg_filter [] h = tt
nonneg_filter (p ∷ ps) h = elim (Bool-cases (is_cash p.method)) [
  | inl e ↦ rw e (h.0, nonneg_filter ps h.1)
  | inr e ↦ rw e (nonneg_filter ps h.1)
]

-- The change due of a safe amount is not rounded.
change_due :
    (received tender : ℤ)
    → pos 0 ≤ℤ tender
    → tender ≤ℤ received
    → abs received < two_53
    → sub received tender ≡ received -ℤ tender
unfolding sub
change_due (pos n) (pos m) p q h = round-exact (pos n -ℤ pos m) (unfold ◌-ℤ◌ in ground arith)
change_due (negsuc n) tender p q h = absurd (omega arith)
change_due received (negsuc m) p q h = absurd (omega arith)

amounts : List SalePayment → List ℤ
amounts ps = map (λ p. p.amount_cents) ps

amounts-IsNonneg :
    (ps : List SalePayment) → All (λ p. pos 0 ≤ℤ p.amount_cents) ps → All IsNonneg (amounts ps)
unfolding amounts
amounts-IsNonneg [] h = tt
amounts-IsNonneg (p ∷ ps) h = (nonneg_part p.amount_cents h.0, amounts-IsNonneg ps h.1)

sum-size : (xs : List ℤ) → All IsNonneg xs → (abs (sum xs) ≡ abs_sum xs) × IsNonneg (sum xs)
sum-size [] h = (refl, refl)
sum-size (x ∷ xs) h =
    let ih = sum-size xs h.1 in
    let n = +ℤ-nonneg x (sum xs) h.0 ih.1 in (omega (arith, n.1, ih.0), n.0)

far_from : (x t : ℤ) → two_53 ≤ abs x → abs t < two_53 → eq_ℤ x t ≡ false
far_from (pos n) (pos m) h k = ground arith
far_from (pos n) (negsuc m) h k = ground arith
far_from (negsuc n) (pos m) h k = ground arith
far_from (negsuc n) (negsuc m) h k = ground arith

-- The program rounds each running sum of the payments, which makes no difference to its comparison with a total that
-- is a safe integer.
sum_payments-rounded :
    (total : ℤ) (ps : List SalePayment)
    → All (λ p. pos 0 ≤ℤ p.amount_cents) ps
    → abs total < two_53
    → eq_ℤ (reduce_add (pos 0) (map (λ p. p.amount_cents) ps)) total
      ≡ eq_ℤ (sum_payments (pos 0) ps) total
unfolding amounts
sum_payments-rounded total ps h k = elim (Bool-cases (ltb (abs_sum (amounts ps)) two_53)) [
  | inl small ↦
      ap (λ x. eq_ℤ x total)
        (reduce_add-exact (pos 0) (amounts ps) (ground arith) ∙ sym (sum_payments-paid (pos 0) ps))
  | inr large ↦
      let size = sum-size (amounts ps) (amounts-IsNonneg ps h) in
      far_from (reduce_add (pos 0) (amounts ps)) total
        (reduce_add-unsafe (pos 0) (amounts ps) refl (amounts-IsNonneg ps h) (ground arith)) k
      ∙ sym (
          ap (λ x. eq_ℤ x total) (sum_payments-zero ps)
          ∙ far_from (sum (amounts ps)) total (ground (arith, size)) k)
]

-- The branches of `validateTender` on the cash, with the change due as it is worked out.
abbrev check_cash : ℤ → ℤ → ℤ → CompleteOrderDto → Result (Option ℤ)
check_cash tender received due i =
    if eq_ℤ tender (pos 0)
    then (do
      throw_if (is_some i.cash_received_cents) (bad_request online_cash_received)
      throw_if (not (eq_ℤ (or_else i.change_owed_cents (pos 0)) (pos 0)))
          (bad_request online_change_owed)
      ok none)
    else (do
      throw_if (ltb_ℤ received tender) (bad_request received_below_tender)
      throw_if (ltb_ℤ due (or_else i.change_owed_cents (pos 0))) (bad_request change_owed_too_large)
      ok (some received))

check_cash-none :
    (tender received due : ℤ) (i : CompleteOrderDto)
    → check_cash tender received due i ≡ ok none
    → (tender ≡ pos 0)
      × (i.cash_received_cents ≡ none)
      × (or_else i.change_owed_cents (pos 0) ≡ pos 0)
check_cash-none tender received due i e = ground arith

check_cash-some :
    (tender received due x : ℤ) (i : CompleteOrderDto)
    → check_cash tender received due i ≡ ok (some x)
    → (x ≡ received) × (tender ≤ℤ received) × (or_else i.change_owed_cents (pos 0) ≤ℤ due)
check_cash-some tender received due x i e = ground arith

validate_cash-IsCashSettled :
    (tender : ℤ) (i : CompleteOrderDto) (r : Option ℤ)
    → pos 0 ≤ℤ tender
    → abs (or_else i.cash_received_cents tender) < two_53
    → validate_cash tender i ≡ ok r
    → IsCashSettled tender i r
unfolding validate_cash
validate_cash-IsCashSettled tender i none p h e =
    let received : ℤ = or_else i.cash_received_cents tender in
    check_cash-none tender received (sub received tender) i e
validate_cash-IsCashSettled tender i (some x) p h e =
    let received : ℤ = or_else i.cash_received_cents tender in
    let c = check_cash-some tender received (sub received tender) x i e in
    let due = change_due received tender p c.1 h in
    (
      c.0,
      subst (λ y. tender ≤ℤ y) (sym c.0) c.1,
      subst (λ y. or_else i.change_owed_cents (pos 0) ≤ℤ y -ℤ tender) (sym c.0)
          (subst (λ y. or_else i.change_owed_cents (pos 0) ≤ℤ y) due c.2),
    )

-- What is let through pays the total.
pub validate_tender-paid :
    (total : ℤ) (i : CompleteOrderDto) (r : Option ℤ)
    → validate_tender total i ≡ ok r
    → paid i.payments ≡ total
unfolding validate_tender
validate_tender-paid total i r e = sym (sum_payments-zero i.payments) ∙ ground arith

-- A tender that is let through pays the order exactly, in distinct methods with no negative portion
-- or tip; without cash nothing is received or owed, and with cash the change owed is at most what
-- the customer handed over beyond the cash portion, where the amount handed over is a safe integer.
pub validate_tender-IsSettled :
    (total : ℤ) (i : CompleteOrderDto) (r : Option ℤ)
    → abs (or_else i.cash_received_cents (paid_in_cash i.payments)) < two_53
    → validate_tender total i ≡ ok r
    → IsSettled total i r
unfolding validate_tender
validate_tender-IsSettled total i r safe e =
    let portions = nonneg_of_any i.payments (ground arith) in
    record {
      some_payment = ground arith;
      no_repeats = ground arith;
      portions = portions;
      exact = validate_tender-paid total i r e;
      tip = ground arith;
      cash_side =
          validate_cash-IsCashSettled (paid_in_cash i.payments) i r
            (sum_nonneg (filter (λ p. is_cash p.method) i.payments)
              (nonneg_filter i.payments portions))
            safe
            (rw (← sum_payments-zero (filter (λ p. is_cash p.method) i.payments)) (ground arith));
    }
