-- ===== src/Reporting/Agreement.antt =====
-- The reports and the drawer agree: the sums that the database makes are those that the trading-day service makes
-- from the rows.
use coffee_shop_pos_multi_ag.Base.{
  ℕ, ◌+◌, ◌≤◌, ◌<◌, ◌≡◌, refl, sym, ◌∙◌, ap, not, ◌&&◌, List, [], ◌∷◌, Option, none, some, filter,
  map, length, is_none, ℤ, pos, ◌+ℤ◌, ◌-ℤ◌, abs, sum, arith, int_laws,
}
use coffee_shop_pos_multi_ag.Number.{two_53}
use coffee_shop_pos_multi_ag.Failure.{ok, ◌>>=◌}
use coffee_shop_pos_multi_ag.Money.{
  actual_cash, TenderAmount, is_cash, is_online, cash, online, amounts_by, CashReconciliationInput,
  CashReconciliation, calculate_cash_reconciliation,
}
use coffee_shop_pos_multi_ag.Money.Sums.{abs_sum, abs-sum-le, cents-ok}
use coffee_shop_pos_multi_ag.Money.Cash.{
  abs_sum-amounts_by-add, variance_from, amounts, sum-amounts, reconciled, counted_size, magnitude,
  calculate_cash_reconciliation-exact,
}
use coffee_shop_pos_multi_ag.Store.{MovementKind, cash_in, cash_out, expense, TradingDay, Db}
use coffee_shop_pos_multi_ag.Orders.Rows.{is_purchase, is_parked}
use coffee_shop_pos_multi_ag.TradingDay.Cash.{
  sales_of, payments_of, current_movements, amounts_of_kind, cash_input, calculate_cash,
}
use coffee_shop_pos_multi_ag.Reporting.Daily.{
  DailyReadModel, payment_total, movement_total, outstanding_total, latest_counted, daily_row,
  database_number, database_cents, cents_or_null, read_day,
}
use coffee_shop_pos_multi_ag.Reporting.Sums.{
  all_cents-ok, add_all-ok, all_tenders-ok, checked-ok, amounts-tenders, amounts_by-tenders,
  movement_total_lem, outstanding_total_lem, tender,
}

-- The sizes of all the amounts of a day that take part in its cash, together.
abbrev pub cash_size : TradingDay → Db → ℕ
cash_size day db =
    abs day.opening_float_cents
    + abs_sum (map (λ p. p.amount_cents) (payments_of (sales_of day.id db)))
    + abs_sum (map (λ s. s.cash_tip_cents) (sales_of day.id db))
    + abs_sum (amounts_of_kind cash_in (current_movements day.id db))
    + abs_sum (amounts_of_kind cash_out (current_movements day.id db))
    + abs_sum (amounts_of_kind expense (current_movements day.id db))
    + abs_sum (
        map (λ s. s.change_owed_cents)
          (filter (λ s. is_none s.change_settled_at) (sales_of day.id db)))
    + counted_size (latest_counted day.id db)

module _ (day : TradingDay) (db : Db) where
  service_input : CashReconciliationInput
  service_input = record {
    status = day.status;
    opening_float_cents = day.opening_float_cents;
    payments = map tender (payments_of (sales_of day.id db));
    cash_tip_cents = map (λ s. s.cash_tip_cents) (sales_of day.id db);
    cash_in_cents = sum (amounts_of_kind cash_in (current_movements day.id db));
    cash_out_cents = sum (amounts_of_kind cash_out (current_movements day.id db));
    cash_expenses_cents = sum (amounts_of_kind expense (current_movements day.id db));
    outstanding_change_cents = sum (
        map (λ s. s.change_owed_cents)
          (filter (λ s. is_none s.change_settled_at) (sales_of day.id db)));
    latest_counted_cents = latest_counted day.id db;
  }

  report_input : CashReconciliationInput
  report_input = record service_input {
    payments =
        record { method = cash; amount_cents = payment_total is_cash day.id db }
        ∷ record { method = online; amount_cents = payment_total is_online day.id db }
        ∷ [];
    cash_tip_cents = sum (map (λ s. s.cash_tip_cents) (sales_of day.id db)) ∷ [];
  }

  cash_input-ok :
      cash_size day db < two_53
      → cash_input day day.status (latest_counted day.id db) db ≡ ok service_input
  unfolding cash_input service_input
  cash_input-ok h =
      rw
        (
          cents-ok day.opening_float_cents (omega arith),
          all_tenders-ok (payments_of (sales_of day.id db)) (omega arith),
          all_cents-ok (map (λ s. s.cash_tip_cents) (sales_of day.id db)) (omega arith),
          add_all-ok (amounts_of_kind cash_in (current_movements day.id db)) (omega arith),
          add_all-ok (amounts_of_kind cash_out (current_movements day.id db)) (omega arith),
          add_all-ok (amounts_of_kind expense (current_movements day.id db)) (omega arith),
          add_all-ok
              (map (λ s. s.change_owed_cents)
                (filter (λ s. is_none s.change_settled_at) (sales_of day.id db)))
              (omega arith),
          checked-ok (latest_counted day.id db) (omega arith),
        )
        refl

  service_size : magnitude service_input ≤ cash_size day db
  unfolding service_input
  service_size = rw (amounts-tenders (payments_of (sales_of day.id db))) (
      omega (
        arith,
        abs-sum-le (amounts_of_kind cash_in (current_movements day.id db)),
        abs-sum-le (amounts_of_kind cash_out (current_movements day.id db)),
        abs-sum-le (amounts_of_kind expense (current_movements day.id db)),
        abs-sum-le (
            map (λ s. s.change_owed_cents)
              (filter (λ s. is_none s.change_settled_at) (sales_of day.id db))),
      ))

  one_term : (x : ℤ) → x +ℤ pos 0 ≡ x
  one_term x = omega int_laws

  cash_total :
      sum (amounts_by is_cash report_input.payments)
      ≡ sum (amounts_by is_cash service_input.payments)
  unfolding report_input service_input payment_total
  cash_total =
      one_term (payment_total is_cash day.id db)
      ∙ ap sum (sym (amounts_by-tenders is_cash (payments_of (sales_of day.id db))))

  online_total :
      sum (amounts_by is_online report_input.payments)
      ≡ sum (amounts_by is_online service_input.payments)
  unfolding report_input service_input payment_total
  online_total =
      one_term (payment_total is_online day.id db)
      ∙ ap sum (sym (amounts_by-tenders is_online (payments_of (sales_of day.id db))))

  gross_total : sum (amounts report_input.payments) ≡ sum (amounts service_input.payments)
  gross_total =
      sym (sum-amounts report_input.payments)
      ∙ ap (λ c. c +ℤ sum (amounts_by is_online report_input.payments)) cash_total
      ∙ ap (λ o. sum (amounts_by is_cash service_input.payments) +ℤ o) online_total
      ∙ sum-amounts service_input.payments

  tips_total : sum report_input.cash_tip_cents ≡ sum service_input.cash_tip_cents
  unfolding report_input service_input
  tips_total = one_term (sum (map (λ s. s.cash_tip_cents) (sales_of day.id db)))

  reconciled-report : reconciled report_input ≡ reconciled service_input
  unfolding report_input service_input
  reconciled-report i =
      let expected : ℤ =
        day.opening_float_cents
        +ℤ cash_total i
        +ℤ tips_total i
        +ℤ service_input.cash_in_cents
        +ℤ service_input.outstanding_change_cents
        -ℤ service_input.cash_out_cents
        -ℤ service_input.cash_expenses_cents in
      record {
        cash_sales_cents = cash_total i;
        online_sales_cents = online_total i;
        gross_sales_cents = gross_total i;
        tips_cents = tips_total i;
        cash_in_cents = service_input.cash_in_cents;
        cash_out_cents = service_input.cash_out_cents;
        cash_expenses_cents = service_input.cash_expenses_cents;
        outstanding_change_cents = service_input.outstanding_change_cents;
        expected_cash_cents = expected;
        actual_cash_cents = actual_cash service_input.status service_input.latest_counted_cents;
        variance_cents =
            variance_from (actual_cash service_input.status service_input.latest_counted_cents)
              expected;
      }

  payments_size :
      abs (payment_total is_cash day.id db) + abs (payment_total is_online day.id db)
      ≤ abs_sum (map (λ p. p.amount_cents) (payments_of (sales_of day.id db)))
  unfolding payment_total
  payments_size =
      let tenders : List TenderAmount = map tender (payments_of (sales_of day.id db)) in
      let parts : abs_sum (amounts_by is_cash tenders) + abs_sum (amounts_by is_online tenders)
          ≡ abs_sum (map (λ p. p.amount_cents) (payments_of (sales_of day.id db))) =
        abs_sum-amounts_by-add tenders
        ∙ ap abs_sum (amounts-tenders (payments_of (sales_of day.id db))) in
      omega (
        arith,
        parts,
        ap abs_sum (amounts_by-tenders is_cash (payments_of (sales_of day.id db))),
        ap abs_sum (amounts_by-tenders is_online (payments_of (sales_of day.id db))),
        abs-sum-le (
            map (λ p. p.amount_cents)
              (filter (λ p. is_cash p.method) (payments_of (sales_of day.id db)))),
        abs-sum-le (
            map (λ p. p.amount_cents)
              (filter (λ p. is_online p.method) (payments_of (sales_of day.id db)))),
      )

  tips_size :
      abs (sum (map (λ s. s.cash_tip_cents) (sales_of day.id db)))
      ≤ abs_sum (map (λ s. s.cash_tip_cents) (sales_of day.id db))
  tips_size = abs-sum-le (map (λ s. s.cash_tip_cents) (sales_of day.id db))

  movement_size :
      (kind : MovementKind)
      → abs (sum (amounts_of_kind kind (current_movements day.id db)))
        ≤ abs_sum (amounts_of_kind kind (current_movements day.id db))
  movement_size kind = abs-sum-le (amounts_of_kind kind (current_movements day.id db))

  outstanding_size :
      abs (
        sum (
          map
            (λ s. s.change_owed_cents)
            (filter (λ s. is_none s.change_settled_at) (sales_of day.id db))))
      ≤ abs_sum (
          map
            (λ s. s.change_owed_cents)
            (filter (λ s. is_none s.change_settled_at) (sales_of day.id db)))
  outstanding_size = abs-sum-le (
      map (λ s. s.change_owed_cents)
        (filter (λ s. is_none s.change_settled_at) (sales_of day.id db)))

  report_size : magnitude report_input ≤ cash_size day db
  unfolding report_input service_input
  report_size = omega (
    arith,
    payments_size,
    tips_size,
    movement_size cash_in,
    movement_size cash_out,
    movement_size expense,
    outstanding_size,
  )

  database_cents-ok : (x : ℤ) → abs x < two_53 → database_cents x ≡ ok x
  unfolding database_cents
  database_cents-ok x h = ground arith

  movement_totals :
      (kind : MovementKind)
      → abs (movement_total kind day.id db)
        ≤ abs_sum (amounts_of_kind kind (current_movements day.id db))
  movement_totals kind =
      omega (arith, ap abs (movement_total_lem kind day.id db), movement_size kind)

  outstanding_totals :
      abs (outstanding_total day.id db)
      ≤ abs_sum (
          map
            (λ s. s.change_owed_cents)
            (filter (λ s. is_none s.change_settled_at) (sales_of day.id db)))
  outstanding_totals = omega (arith, ap abs (outstanding_total_lem day.id db), outstanding_size)

  cents_or_null-ok : (c : Option ℤ) → counted_size c < two_53 → cents_or_null c ≡ ok c
  cents_or_null-ok none h = refl
  cents_or_null-ok (some c) h = rw (cents-ok c h) refl

  -- The orders of the day that are completed.
  abbrev pub completed_count : ℕ
  completed_count =
      length (filter (λ s. is_purchase s.kind && not (is_parked s.status)) (sales_of day.id db))

  database_number-ok : (n : ℕ) → n < two_53 → database_number (pos n) ≡ ok (pos n)
  unfolding database_number
  database_number-ok n h = ground arith

  the_model : CashReconciliation → DailyReadModel
  the_model c = record {
    id = day.id;
    date = day.business_date;
    stored_status = day.status;
    opening_float_cents = day.opening_float_cents;
    order_count = pos completed_count;
    reconciliation = c;
    variance_reason = (daily_row day db).variance_reason;
  }

  report_input-eq : report_input ≡ record {
    status = day.status;
    opening_float_cents = day.opening_float_cents;
    payments =
        record { method = cash; amount_cents = payment_total is_cash day.id db }
        ∷ record { method = online; amount_cents = payment_total is_online day.id db }
        ∷ [];
    cash_tip_cents = sum (map (λ s. s.cash_tip_cents) (sales_of day.id db)) ∷ [];
    cash_in_cents = movement_total cash_in day.id db;
    cash_out_cents = movement_total cash_out day.id db;
    cash_expenses_cents = movement_total expense day.id db;
    outstanding_change_cents = outstanding_total day.id db;
    latest_counted_cents = latest_counted day.id db;
  }
  unfolding report_input service_input
  report_input-eq i = record report_input {
    cash_in_cents = sym (movement_total_lem cash_in day.id db) i;
    cash_out_cents = sym (movement_total_lem cash_out day.id db) i;
    cash_expenses_cents = sym (movement_total_lem expense day.id db) i;
    outstanding_change_cents = sym (outstanding_total_lem day.id db) i;
  }

  read_day-ok :
      cash_size day db < two_53
      → completed_count < two_53
      → read_day (daily_row day db)
        ≡ (calculate_cash_reconciliation report_input >>= λ c. ok (the_model c))
  unfolding read_day daily_row the_model
  read_day-ok h few =
      rw
        (
          cents-ok day.opening_float_cents (omega arith),
          database_cents-ok (payment_total is_cash day.id db) (omega (arith, payments_size)),
          database_cents-ok (payment_total is_online day.id db) (omega (arith, payments_size)),
          database_cents-ok (sum (map (λ s. s.cash_tip_cents) (sales_of day.id db)))
              (omega (arith, tips_size)),
          database_cents-ok (movement_total cash_in day.id db)
              (omega (arith, movement_totals cash_in)),
          database_cents-ok (movement_total cash_out day.id db)
              (omega (arith, movement_totals cash_out)),
          database_cents-ok (movement_total expense day.id db)
              (omega (arith, movement_totals expense)),
          database_cents-ok (outstanding_total day.id db) (omega (arith, outstanding_totals)),
          cents_or_null-ok (latest_counted day.id db) (omega arith),
          database_number-ok completed_count few,
          report_input-eq,
        )
        refl

  -- The reports show what the drawer shows. While the day's amounts together and its orders stay safe integers,
  -- the row that the database adds up for a day is read without an exception, and its reconciliation is the one
  -- that the trading-day service works out from the rows themselves, for the status of the day and its latest
  -- count: the same cash, online and gross sales, tips, movements that no other amends, change outstanding,
  -- expected cash, actual cash and variance.
  pub read_day-calculate_cash :
      cash_size day db < two_53
      → completed_count < two_53
      → (m : DailyReadModel) × (read_day (daily_row day db) ≡ ok m)
        × (calculate_cash day day.status (latest_counted day.id db) db ≡ ok m.reconciliation)
  read_day-calculate_cash h few =
      let report : calculate_cash_reconciliation report_input ≡ ok (reconciled report_input) =
        calculate_cash_reconciliation-exact report_input (omega (arith, report_size)) in
      let service : calculate_cash_reconciliation service_input ≡ ok (reconciled service_input) =
        calculate_cash_reconciliation-exact service_input (omega (arith, service_size)) in
      (
        the_model (reconciled report_input),
        read_day-ok h few ∙ ap (λ r. r >>= λ c. ok (the_model c)) report,
        unfold calculate_cash the_model in
            (ap (λ i. i >>= calculate_cash_reconciliation) (cash_input-ok h)
              ∙ service
              ∙ ap ok (sym reconciled-report)),
      )
