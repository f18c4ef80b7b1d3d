-- ===== src/Tests/MoneyExamples.antt =====
-- Examples of the money functions.
use coffee_shop_pos_multi_ag.Base.{◌+ℤ◌}
use coffee_shop_pos_multi_ag.Number.{add}
use coffee_shop_pos_multi_ag.Money.{reduce_add}
use coffee_shop_pos_multi_ag.Money.{cents}
use coffee_shop_pos_multi_ag.Base.{
  ◌≡◌, refl, ℕ, ◌+◌, ◌*◌, ◌-◌, ◌≤◌, ◌<◌, arith, some, [], ◌∷◌, pos, negsuc, sum, ltb, if◌then◌else◌,
}
use coffee_shop_pos_multi_ag.Number.{two_53}
use coffee_shop_pos_multi_ag.Failure.{ok, err, type_error}
use coffee_shop_pos_multi_ag.Money.{
  add_money, calculate_line_amounts, senior, suggest_commission_cents, suggest_rent_deposit_cents,
  cash, online, day_closed, CashReconciliationInput, calculate_cash_reconciliation,
}
use coffee_shop_pos_multi_ag.Money.Sums.{abs_sum, add_money-exact, add_money-nonneg}
use coffee_shop_pos_multi_ag.Money.Lines.{Discount, calculate_line_amounts-purchase}
use coffee_shop_pos_multi_ag.Money.Suggestions.{
  suggest_commission-bands, suggest_rent_deposit-rounds,
}
use coffee_shop_pos_multi_ag.Money.Cash.{reconciled, calculate_cash_reconciliation-exact}

add_money-exact_example :
    add_money (pos 15000 ∷ negsuc 2399 ∷ pos 500 ∷ [])
    ≡ ok (sum (pos 15000 ∷ negsuc 2399 ∷ pos 500 ∷ []))
add_money-exact_example = add_money-exact (pos 15000 ∷ negsuc 2399 ∷ pos 500 ∷ []) (omega arith)

add_money-nonneg_example : add_money (pos 9007199254740991 ∷ pos 2 ∷ []) ≡ (
    if ltb (abs_sum (pos 9007199254740991 ∷ pos 2 ∷ [])) two_53
    then ok (sum (pos 9007199254740991 ∷ pos 2 ∷ []))
    else err type_error)
add_money-nonneg_example = add_money-nonneg (pos 9007199254740991 ∷ pos 2 ∷ []) (refl, (refl, tt))

-- With signs mixed, a running total beyond the safe integers may be rounded and come back: the sum
-- of these is one more.
add_money_rounds :
    add_money (pos 9007199254740991 ∷ pos 2 ∷ negsuc 1 ∷ []) ≡ ok (pos 9007199254740990)
unfolding add_money cents reduce_add add ◌+ℤ◌
add_money_rounds = refl

calculate_line_amounts-purchase_example :
    (d : ℕ) × (calculate_line_amounts (pos 15000) (pos 3) senior
      ≡ ok (record {
        line_gross_cents = pos (15000 * 3);
        discount_cents = pos d;
        line_total_cents = pos (15000 * 3 - d);
      }))
    × Discount senior (15000 * 3) d
    × (d ≤ 15000 * 3)
calculate_line_amounts-purchase_example =
    calculate_line_amounts-purchase 15000 3 senior (omega arith) (omega arith)

suggest_commission-bands_example :
    (k : ℕ) × (k * 100000 ≤ 250000)
    × (250000 < (k + 1) * 100000)
    × (suggest_commission_cents (pos 250000) ≡ ok (pos (5000 * k)))
suggest_commission-bands_example = suggest_commission-bands 250000 (omega arith)

suggest_rent_deposit-rounds_example :
    (k : ℕ) × (k * 100000 ≤ 1280000 + 20000)
    × (1280000 < k * 100000 + 80000)
    × (suggest_rent_deposit_cents (pos 1280000) (pos 1000) ≡ ok (pos (k * 10 * 1000)))
suggest_rent_deposit-rounds_example = suggest_rent_deposit-rounds 1280000 1000 (omega arith)

drawer : CashReconciliationInput
drawer = record {
  status = day_closed;
  opening_float_cents = pos 200000;
  payments =
      record { method = cash; amount_cents = pos 24600 }
      ∷ record { method = online; amount_cents = pos 15000 }
      ∷ record { method = cash; amount_cents = negsuc 24599 }
      ∷ [];
  cash_tip_cents = pos 500 ∷ [];
  cash_in_cents = pos 10000;
  cash_out_cents = pos 3000;
  cash_expenses_cents = pos 2000;
  outstanding_change_cents = pos 100;
  latest_counted_cents = some (pos 205500);
}

calculate_cash_reconciliation-exact_example :
    calculate_cash_reconciliation drawer ≡ ok (reconciled drawer)
calculate_cash_reconciliation-exact_example =
    calculate_cash_reconciliation-exact drawer (unfold drawer in omega arith)
