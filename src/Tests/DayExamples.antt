-- ===== src/Tests/DayExamples.antt =====
-- Examples of the trading-day service.
use coffee_shop_pos_multi_ag.Money.{variance_of}
use coffee_shop_pos_multi_ag.Failure.{Error}
use coffee_shop_pos_multi_ag.Base.{is_none, filter, ◌&&◌, neg_ℤ}
use coffee_shop_pos_multi_ag.Base.{◌+ℤ◌}
use coffee_shop_pos_multi_ag.Number.{add}
use coffee_shop_pos_multi_ag.Money.{reduce_add}
use coffee_shop_pos_multi_ag.TradingDay.Cash.{calculate_cash}
use coffee_shop_pos_multi_ag.TradingDay.Movements.{find_movement}
use coffee_shop_pos_multi_ag.TradingDay.{insert_day}
use coffee_shop_pos_multi_ag.Store.Queries.{find_active_staff}
use coffee_shop_pos_multi_ag.Base.{
  ◌≡◌, refl, ℕ, true, false, none, some, List, [], ◌∷◌, All, any, find?, is_some, ◌==◌, pos, negsuc,
}
use coffee_shop_pos_multi_ag.Failure.{ok, err}
use coffee_shop_pos_multi_ag.Money.{day_open, day_closed}
use coffee_shop_pos_multi_ag.Store.{
  normal, cash_in, TradingDay, CashMovement, DayClosing, DayClosingLine, Db,
}
use coffee_shop_pos_multi_ag.Store.Queries.{is_day_open}
use coffee_shop_pos_multi_ag.TradingDay.Input.{
  OpenBusinessDayDto, CloseBusinessDayDto, CashMovementDto, OpenInput, CloseInput, MovementInput,
}
use coffee_shop_pos_multi_ag.TradingDay.Cash.{current_movements}
use coffee_shop_pos_multi_ag.TradingDay.Movements.{amendment_of, day_is_open, amend_locked}
use coffee_shop_pos_multi_ag.TradingDay.{Supply, open_transaction, is_open_row, close_locked}
use coffee_shop_pos_multi_ag.TradingDay.Requests.{
  opens, closes, records, amends_movement, DaySchedule, done, during_day, run_day,
}
use coffee_shop_pos_multi_ag.TradingDay.Invariant.{DayInv}
use coffee_shop_pos_multi_ag.TradingDay.Safety.{run_day-DayInv}
use coffee_shop_pos_multi_ag.TradingDay.Behaviour.{
  open_transaction-ok, amend_locked-ok, amend_locked-supersedes, amend_locked_twice,
}
use coffee_shop_pos_multi_ag.TradingDay.Closing.{IsClosing, close_locked-ok}
use coffee_shop_pos_multi_ag.Tests.{day, morning, alone, paid_500}

-- No packaging is counted.
no_packaging : TradingDay → Db → List DayClosingLine
no_packaging d db = []

day_supply : ℕ → Supply
day_supply n = record { row_id = n; cash_count_id = n; now = n }

opening : OpenBusinessDayDto
opening = record {
  business_date = b'2' ∷ b'0' ∷ b'2' ∷ b'6' ∷ b'-' ∷ b'0' ∷ b'3' ∷ b'-' ∷ b'0' ∷ b'1' ∷ [];
  day_type = some normal;
  opening_float_cents = pos 200000;
  opened_by_staff_member_id = some 7;
}

opening_checked : OpenInput
opening_checked = record {
  business_date = record { year = 2026; month = 3; day = 1 };
  day_type = normal;
  opened_by = 7;
}

closing : CloseBusinessDayDto
closing = record {
  client_generated_id = some 900;
  actual_cash_cents = pos 215400;
  variance_reason = none;
  closed_by_staff_member_id = some 7;
}

change_bought : CashMovementDto
change_bought = record {
  client_generated_id = some 800;
  kind = some cash_in;
  amount_cents = pos 10000;
  description = b'c' ∷ [];
  category = none;
  recorded_by_staff_member_id = some 7;
}

-- The amount was wrong.
corrected : CashMovementDto
corrected = record change_bought { client_generated_id = some 801; amount_cents = pos 1000 }

-- Cash is recorded and its row amended; the day is closed while another correction waits; and the
-- next day is opened.
evening : DaySchedule
evening = during_day (records change_bought) (day_supply 20) done (
    during_day (amends_movement 800 corrected) (day_supply 21) done (
      during_day (amends_movement 801 (record corrected { client_generated_id = some 802 }))
        (day_supply 22) (during_day (closes closing) (day_supply 23) done done)
        (during_day (opens opening) (day_supply 24) done done)))

morning-DayInv : DayInv morning
morning-DayInv = record {
  days_apart = (tt, tt);
  closings_apart = tt;
  movements_apart = tt;
  closings_closed = tt;
}

run_day-DayInv_example : DayInv (run_day no_packaging evening morning)
run_day-DayInv_example = run_day-DayInv no_packaging evening morning morning-DayInv

before_opening : Db
before_opening = record morning { days = [] }

next_day : TradingDay
next_day = record day { id = 24; business_date = opening_checked.business_date; opened_at = 24 }

opened :
    open_transaction alone (day_supply 24) opening opening_checked before_opening
    ≡ (ok next_day, record before_opening { days = next_day ∷ [] })
unfolding open_transaction before_opening next_day opening opening_checked day_supply
    find_active_staff insert_day
opened = refl

open_transaction-ok_example :
    (any (λ d. is_day_open d.status) before_opening.days ≡ false)
    × (filter (λ d. is_day_open d.status && is_none d.location_id) (next_day ∷ []) ≡ next_day ∷ [])
    × (next_day.status ≡ day_open)
    × (next_day.opening_float_cents ≡ opening.opening_float_cents)
    × (next_day.business_date ≡ opening_checked.business_date)
    × (record before_opening { days = next_day ∷ [] }
        ≡ record (alone before_opening) { days = next_day ∷ (alone before_opening).days })
open_transaction-ok_example =
    open_transaction-ok alone (day_supply 24) opening opening_checked before_opening
      (record before_opening { days = next_day ∷ [] }) next_day (unfold before_opening in opened)

first_row : CashMovement
first_row = record {
  id = 800;
  trading_day_id = 1;
  amends_cash_movement_id = none;
  kind = cash_in;
  amount_cents = pos 10000;
  description = b'c' ∷ [];
  category = none;
  recorded_by_staff_member_id = some 7;
  recorded_by_name_snapshot = some (b'J' ∷ []);
  recorded_at = 20;
}

second_row : CashMovement
second_row = record first_row {
  id = 801;
  amends_cash_movement_id = some 800;
  amount_cents = pos 1000;
  recorded_at = 21;
}

with_movements : List CashMovement → Db
with_movements rows = record morning { cash_movements = rows; sales = paid_500 ∷ [] }

correction : ℕ → MovementInput
correction id = record { client_id = id; kind = cash_in }

amended :
    amend_locked
      (day_supply 21)
      corrected
      (correction 801)
      800
      first_row
      (with_movements (first_row ∷ []))
    ≡ (ok second_row, with_movements (second_row ∷ first_row ∷ []))
unfolding amend_locked first_row second_row with_movements correction corrected change_bought
    day_supply find_movement amendment_of find_active_staff
amended = refl

amend_locked-ok_example :
    (is_some (amendment_of 800 (with_movements (first_row ∷ []))) ≡ false)
    × (day_is_open first_row.trading_day_id (with_movements (first_row ∷ [])) ≡ true)
    × (second_row.trading_day_id ≡ first_row.trading_day_id)
    × (second_row.amends_cash_movement_id ≡ some 800)
    × (second_row.amount_cents ≡ corrected.amount_cents)
    × (with_movements (second_row ∷ first_row ∷ []) ≡ record (with_movements (first_row ∷ [])) {
      cash_movements = second_row ∷ (with_movements (first_row ∷ [])).cash_movements;
    })
amend_locked-ok_example =
    amend_locked-ok (day_supply 21) corrected (correction 801) 800 first_row second_row
      (with_movements (first_row ∷ [])) (with_movements (second_row ∷ first_row ∷ [])) amended

amend_locked-supersedes_example :
    All
      (λ m. (m.id == 800) ≡ false)
      (current_movements 1 (with_movements (second_row ∷ first_row ∷ [])))
amend_locked-supersedes_example =
    amend_locked-supersedes (day_supply 21) corrected (correction 801) 800 1 first_row second_row
      (with_movements (first_row ∷ [])) (with_movements (second_row ∷ first_row ∷ [])) amended

-- A sum of cash was recorded since.
amend_locked_twice_example :
    (e : Error) × (amend_locked
        (day_supply 22)
        change_bought
        (correction 802)
        800
        first_row
        (with_movements (record first_row { id = 805 } ∷ second_row ∷ first_row ∷ []))
      ≡ (err e, with_movements (record first_row { id = 805 } ∷ second_row ∷ first_row ∷ [])))
amend_locked_twice_example =
    amend_locked_twice (day_supply 21) (day_supply 22) corrected change_bought (correction 801)
      (correction 802) 800 first_row first_row second_row (with_movements (first_row ∷ []))
      (with_movements (second_row ∷ first_row ∷ []))
      (with_movements (record first_row { id = 805 } ∷ second_row ∷ first_row ∷ []))
      (record first_row { id = 805 } ∷ []) amended (unfold with_movements in refl)

closing_checked : CloseInput
closing_checked = record { client_id = 900; closed_by = 7 }

-- Expected: float 200000, sales 15000, tip 500, cash in 1000 and change owed 100.
closed_row : DayClosing
closed_row = record {
  id = 900;
  trading_day_id = 1;
  cash_count_id = 23;
  opening_float_cents = pos 200000;
  cash_sales_cents = pos 15000;
  online_sales_cents = pos 0;
  cash_tips_cents = pos 500;
  cash_in_cents = pos 1000;
  cash_out_cents = pos 0;
  cash_expenses_cents = pos 0;
  outstanding_change_cents = pos 100;
  expected_cash_cents = pos 216600;
  actual_cash_cents = pos 215400;
  variance_cents = negsuc 1199;
  variance_reason = none;
  closed_by_staff_member_id = 7;
  closed_by_name_snapshot = b'J' ∷ [];
  closed_at = 23;
  lines = [];
}

after_closing : Db
after_closing = record (with_movements (second_row ∷ first_row ∷ [])) {
  days =
      record day { status = day_closed; closed_at = some 23; closed_by_staff_member_id = some 7 }
      ∷ [];
  cash_counts =
      record {
        id = 23;
        trading_day_id = 1;
        counted_cents = pos 215400;
        counted_at = 23;
        counted_by_staff_member_id = 7;
      }
      ∷ [];
  day_closings = closed_row ∷ [];
}

closed_now :
    close_locked no_packaging
      (day_supply 23)
      closing
      closing_checked
      day
      (with_movements (second_row ∷ first_row ∷ []))
    ≡ (ok closed_row, after_closing)
unfolding close_locked no_packaging day_supply closing closing_checked with_movements first_row
    second_row closed_row after_closing find_active_staff calculate_cash reduce_add add ◌+ℤ◌ neg_ℤ
    variance_of
closed_now = refl

still_open :
    find? (is_open_row day.id) (with_movements (second_row ∷ first_row ∷ [])).days ≡ some day
unfolding with_movements
still_open = refl

close_locked-ok_example :
    IsClosing day closing closed_row (with_movements (second_row ∷ first_row ∷ []))
    × (closed_row.lines ≡ no_packaging day (with_movements (second_row ∷ first_row ∷ [])))
    × (after_closing.day_closings
        ≡ closed_row ∷ (with_movements (second_row ∷ first_row ∷ [])).day_closings)
    × All (λ e. is_open_row day.id e ≡ false) after_closing.days
close_locked-ok_example =
    close_locked-ok no_packaging (day_supply 23) closing closing_checked day day
      (with_movements (second_row ∷ first_row ∷ [])) after_closing closed_row still_open closed_now
