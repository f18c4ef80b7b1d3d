-- ===== src/TradingDay/Drawer.antt =====
-- The variance of a counted drawer.
use coffee_shop_pos_multi_ag.Base.{
  ◌≡◌, refl, or_else, [], ◌∷◌, Option, none, some, arith, ℤ, pos, neg_ℤ,
}
use coffee_shop_pos_multi_ag.Failure.{Result, ok, err, ◌>>=◌}
use coffee_shop_pos_multi_ag.Money.{
  DayStatus, day_closed, CashReconciliation, CashReconciliationInput, actual_cash, cents,
  variance_of, calculate_cash_reconciliation, add_money,
}
use coffee_shop_pos_multi_ag.Store.{TradingDay, Db}
use coffee_shop_pos_multi_ag.TradingDay.Cash.{calculate_cash, cash_input}

variance_of-ok :
    (counted expected : ℤ) (r : Option ℤ)
    → variance_of (some counted) expected ≡ ok r
    → (v : ℤ) × (r ≡ some v) × (add_money (counted ∷ neg_ℤ expected ∷ []) ≡ ok v)
unfolding variance_of cents
variance_of-ok counted expected r e = (or_else r (pos 0), ground arith, ground arith)

reconciliation-variance :
    (i : CashReconciliationInput) (cash : CashReconciliation)
    → calculate_cash_reconciliation i ≡ ok cash
    → variance_of (actual_cash i.status i.latest_counted_cents) cash.expected_cash_cents
      ≡ ok cash.variance_cents
unfolding calculate_cash_reconciliation
reconciliation-variance i cash e = ground arith

cash_input-counted :
    (d : TradingDay) (s : DayStatus) (counted : Option ℤ) (db : Db) (i : CashReconciliationInput)
    → cash_input d s counted db ≡ ok i
    → (i.status ≡ s) × (i.latest_counted_cents ≡ counted)
unfolding cash_input cents
cash_input-counted d s none db i e = ground arith
cash_input-counted d s (some c) db i e = ground arith

pub calculate_cash-variance :
    (d : TradingDay) (counted : ℤ) (db : Db) (cash : CashReconciliation)
    → calculate_cash d day_closed (some counted) db ≡ ok cash
    → (v : ℤ) × (cash.variance_cents ≡ some v)
      × (add_money (counted ∷ neg_ℤ cash.expected_cash_cents ∷ []) ≡ ok v)
unfolding calculate_cash
calculate_cash-variance d counted db cash e = go (cash_input d day_closed (some counted) db) refl e
  where
    go :
        (r : Result CashReconciliationInput)
        → cash_input d day_closed (some counted) db ≡ r
        → (r >>= calculate_cash_reconciliation) ≡ ok cash
        → (v : ℤ) × (cash.variance_cents ≡ some v)
          × (add_money (counted ∷ neg_ℤ cash.expected_cash_cents ∷ []) ≡ ok v)
    go (err x) f g = absurd (ground arith)
    go (ok i) f g =
        let (closed, latest) = cash_input-counted d day_closed (some counted) db i f in
        variance_of-ok counted cash.expected_cash_cents cash.variance_cents
          (rw (closed, latest) at (reconciliation-variance i cash g))
