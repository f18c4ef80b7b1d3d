-- ===== src/TradingDay/Cash.antt =====
-- The cash of a trading day (`calculateCash` of apps/api/src/trading-day/trading-day.service.ts).
use coffee_shop_pos_multi_ag.Base.{
  ℕ, Bool, true, false, not, ◌&&◌, List, [], ◌∷◌, ◌++◌, Option, none, some, filter, any, map, ◌==◌,
  is_none, ℤ,
}
use coffee_shop_pos_multi_ag.Failure.{Result, ok, ◌>>=◌}
use coffee_shop_pos_multi_ag.Money.{
  cents, add_money, TenderAmount, DayStatus, CashReconciliationInput, CashReconciliation,
  calculate_cash_reconciliation,
}
use coffee_shop_pos_multi_ag.Store.{
  MovementKind, cash_in, cash_out, expense, TradingDay, SalePayment, Sale, CashMovement, Db,
}

abbrev pub kind_eq : MovementKind → MovementKind → Bool
kind_eq cash_in cash_in = true
kind_eq cash_out cash_out = true
kind_eq expense expense = true
kind_eq _ _ = false

abbrev pub sales_of : ℕ → Db → List Sale
sales_of day db = filter (λ s. s.trading_day_id == day) db.sales

abbrev pub payments_of : List Sale → List SalePayment
payments_of [] = []
payments_of (s ∷ ss) = s.payments ++ payments_of ss

abbrev pub amends : ℕ → CashMovement → Bool
amends id m = elim m.amends_cash_movement_id [ none ↦ false | some other ↦ other == id ]

-- `amendedBy: { is: null }`
unfoldable pub is_superseded : CashMovement → List CashMovement → Bool
is_superseded m ms = any (amends m.id) ms

unfoldable pub current_movements : ℕ → Db → List CashMovement
unfolding is_superseded
current_movements day db =
    filter (λ m. m.trading_day_id == day && not (is_superseded m db.cash_movements))
      db.cash_movements

unfoldable pub all_cents : List ℤ → Result (List ℤ)
unfolding cents
all_cents [] = ok []
all_cents (x ∷ xs) = do y ← cents x; ys ← all_cents xs; ok (y ∷ ys)

unfoldable pub all_tenders : List SalePayment → Result (List TenderAmount)
unfolding cents
all_tenders [] = ok []
all_tenders (p ∷ ps) = do
  amount ← cents p.amount_cents
  rest ← all_tenders ps
  ok (record { method = p.method; amount_cents = amount } ∷ rest)

-- `addMoney(...xs.map((x) => cents(x)))`
unfoldable pub add_all : List ℤ → Result ℤ
unfolding all_cents add_money
add_all xs = do ys ← all_cents xs; add_money ys

abbrev pub amounts_of_kind : MovementKind → List CashMovement → List ℤ
amounts_of_kind k ms = map (λ m. m.amount_cents) (filter (λ m. kind_eq m.kind k) ms)

abbrev pub checked : Option ℤ → Result (Option ℤ)
checked none = ok none
checked (some c) = do x ← cents c; ok (some x)

-- The argument of the last call, and what reading it from the rows may throw.
unfoldable pub cash_input : TradingDay → DayStatus → Option ℤ → Db → Result CashReconciliationInput
unfolding current_movements all_tenders add_all
cash_input day status counted db = do
  let sales = sales_of day.id db
  let movements = current_movements day.id db
  opening ← cents day.opening_float_cents
  payments ← all_tenders (payments_of sales)
  tips ← all_cents (map (λ s. s.cash_tip_cents) sales)
  in_total ← add_all (amounts_of_kind cash_in movements)
  out_total ← add_all (amounts_of_kind cash_out movements)
  expenses ← add_all (amounts_of_kind expense movements)
  outstanding ←
      add_all (map (λ s. s.change_owed_cents) (filter (λ s. is_none s.change_settled_at) sales))
  latest ← checked counted
  ok (record {
    status = status;
    opening_float_cents = opening;
    payments = payments;
    cash_tip_cents = tips;
    cash_in_cents = in_total;
    cash_out_cents = out_total;
    cash_expenses_cents = expenses;
    outstanding_change_cents = outstanding;
    latest_counted_cents = latest;
  })

unfoldable pub calculate_cash : TradingDay → DayStatus → Option ℤ → Db → Result CashReconciliation
unfolding cash_input calculate_cash_reconciliation
calculate_cash day status counted db = do
  input ← cash_input day status counted db
  calculate_cash_reconciliation input
