-- ===== src/Tests/ReportExamples.antt =====
-- Examples of the reports.
use coffee_shop_pos_multi_ag.Base.{◌≡◌, refl, none, some, [], ◌∷◌, pos, arith}
use coffee_shop_pos_multi_ag.Failure.{ok}
use coffee_shop_pos_multi_ag.Store.{expense, CashMovement, Db}
use coffee_shop_pos_multi_ag.TradingDay.Cash.{calculate_cash, current_movements}
use coffee_shop_pos_multi_ag.Reporting.Daily.{DailyReadModel, daily_row, read_day, latest_counted}
use coffee_shop_pos_multi_ag.Reporting.Agreement.{cash_size, read_day-calculate_cash}
use coffee_shop_pos_multi_ag.Tests.{day, morning, order_500, paid_500}

abbrev bought : CashMovement
bought = record {
  id = 800;
  trading_day_id = 1;
  amends_cash_movement_id = none;
  kind = expense;
  amount_cents = pos 10000;
  description = b'c' ∷ [];
  category = none;
  recorded_by_staff_member_id = some 7;
  recorded_by_name_snapshot = some (b'J' ∷ []);
  recorded_at = 20;
}

-- The expense was amended, and one order is parked.
abbrev busy_day : Db
busy_day = record morning {
  sales = record order_500 { id = 2; client_generated_id = 501 } ∷ paid_500 ∷ [];
  cash_movements =
      record bought { id = 801; amends_cash_movement_id = some 800; amount_cents = pos 1000 }
      ∷ bought
      ∷ [];
}

size_lem : cash_size day busy_day ≡ 216600
unfolding current_movements latest_counted
size_lem = refl

read_day-calculate_cash_example :
    (m : DailyReadModel) × (read_day (daily_row day busy_day) ≡ ok m)
    × (calculate_cash day day.status (latest_counted day.id busy_day) busy_day
        ≡ ok m.reconciliation)
read_day-calculate_cash_example =
    read_day-calculate_cash day busy_day (omega (arith, size_lem)) (omega arith)
