-- ===== src/Reporting/Daily.antt =====
-- The daily read model of the reports: a query that adds up each day in the database, whose sums are exact, and
-- the reports over ranges of days that are built on it (apps/api/src/reporting/reporting.service.ts).
use coffee_shop_pos_multi_ag.Base.{
  ℕ, Bool, true, false, not, ◌&&◌, ◌||◌, List, [], ◌∷◌, Option, none, some, filter, find?, any, map,
  length, ltb, ◌==◌, if◌then◌else◌, is_none, ℤ, pos, sum, or_else, ◌≡◌, ◌↔◌, arith,
}
use coffee_shop_pos_multi_ag.Number.{is_safe_integer}
use coffee_shop_pos_multi_ag.Failure.{
  Result, ok, err, range_error, bad_request, bad_range, throw_if, ◌>>=◌, ◌>>◌,
}
use coffee_shop_pos_multi_ag.Money.{
  DayStatus, day_open, day_closed, PaymentMethod, cash, online, is_cash, is_online, cents,
  add_money, CashReconciliation, calculate_cash_reconciliation,
}
use coffee_shop_pos_multi_ag.Text.{Text}
use coffee_shop_pos_multi_ag.Date.{Date, date_eq, date_before}
use coffee_shop_pos_multi_ag.Dict.{Key, Dict, lookup, insert}
use coffee_shop_pos_multi_ag.Store.{
  MovementKind, cash_in, cash_out, expense, TradingDay, CashCount, DayClosing, Db,
}
use coffee_shop_pos_multi_ag.Store.Queries.{first_by}
use coffee_shop_pos_multi_ag.Orders.Rows.{is_purchase, is_parked}
use coffee_shop_pos_multi_ag.TradingDay.Cash.{kind_eq, sales_of, payments_of, amends}

pub record DailyAggregateRow : Type 0 where
  pub id : ℕ
  pub business_date : Date
  pub status : DayStatus
  pub opening_float_cents : ℤ
  pub cash_sales_cents : ℤ
  pub online_sales_cents : ℤ
  pub tips_cents : ℤ
  pub cash_in_cents : ℤ
  pub cash_out_cents : ℤ
  pub cash_expenses_cents : ℤ
  pub outstanding_change_cents : ℤ
  pub latest_counted_cents : Option ℤ
  pub order_count : ℤ
  pub variance_reason : Option Text

pub record DailyReadModel : Type 0 where
  pub id : ℕ
  pub date : Date
  pub stored_status : DayStatus
  pub opening_float_cents : ℤ
  pub order_count : ℤ
  pub reconciliation : CashReconciliation
  pub variance_reason : Option Text

-- `payment_totals`
unfoldable pub payment_total : (PaymentMethod → Bool) → ℕ → Db → ℤ
payment_total method day db =
    sum (map (λ p. p.amount_cents) (filter (λ p. method p.method) (payments_of (sales_of day db))))

-- `movement_totals`: the movements that no other amends.
unfoldable pub movement_total : MovementKind → ℕ → Db → ℤ
movement_total kind day db = sum (
    map (λ m. m.amount_cents)
      (filter
        (λ m.
          m.trading_day_id == day
          && (not (any (amends m.id) db.cash_movements) && kind_eq m.kind kind))
        db.cash_movements))

-- `outstanding_change_totals`
unfoldable pub outstanding_total : ℕ → Db → ℤ
outstanding_total day db = sum (
    map (λ s. s.change_owed_cents)
      (filter (λ s. s.trading_day_id == day && is_none s.change_settled_at) db.sales))

abbrev counted_later : CashCount → CashCount → Bool
counted_later a b = ltb b.counted_at a.counted_at || a.counted_at == b.counted_at && ltb b.id a.id

abbrev amount_of : Option CashCount → Option ℤ
amount_of none = none
amount_of (some c) = some c.counted_cents

-- `latest_count`
unfoldable pub latest_counted : ℕ → Db → Option ℤ
unfolding first_by
latest_counted day db =
    amount_of (first_by counted_later (λ c. c.trading_day_id == day) db.cash_counts)

abbrev reason_of : Option DayClosing → Option Text
reason_of none = none
reason_of (some c) = c.variance_reason

-- The row of the query for one day.
unfoldable pub daily_row : TradingDay → Db → DailyAggregateRow
unfolding payment_total movement_total outstanding_total latest_counted
daily_row day db = record {
  id = day.id;
  business_date = day.business_date;
  status = day.status;
  opening_float_cents = day.opening_float_cents;
  cash_sales_cents = payment_total is_cash day.id db;
  online_sales_cents = payment_total is_online day.id db;
  tips_cents = sum (map (λ s. s.cash_tip_cents) (sales_of day.id db));
  cash_in_cents = movement_total cash_in day.id db;
  cash_out_cents = movement_total cash_out day.id db;
  cash_expenses_cents = movement_total expense day.id db;
  outstanding_change_cents = outstanding_total day.id db;
  latest_counted_cents = latest_counted day.id db;
  order_count =
      pos (
        length (filter (λ s. is_purchase s.kind && not (is_parked s.status)) (sales_of day.id db)));
  variance_reason = reason_of (find? (λ c. c.trading_day_id == day.id) db.day_closings);
}

unfoldable pub database_number : ℤ → Result ℤ
database_number value = if is_safe_integer value then ok value else err range_error

unfoldable pub database_cents : ℤ → Result ℤ
unfolding database_number cents
database_cents value = do converted ← database_number value; cents converted

abbrev pub cents_or_null : Option ℤ → Result (Option ℤ)
cents_or_null none = ok none
cents_or_null (some c) = do x ← cents c; ok (some x)

unfoldable pub read_day : DailyAggregateRow → Result DailyReadModel
unfolding database_cents calculate_cash_reconciliation
read_day row = do
  opening ← cents row.opening_float_cents
  cash_sales ← database_cents row.cash_sales_cents
  online_sales ← database_cents row.online_sales_cents
  tips ← database_cents row.tips_cents
  in_total ← database_cents row.cash_in_cents
  out_total ← database_cents row.cash_out_cents
  expenses ← database_cents row.cash_expenses_cents
  outstanding ← database_cents row.outstanding_change_cents
  latest ← cents_or_null row.latest_counted_cents
  reconciliation ← calculate_cash_reconciliation (record {
    status = row.status;
    opening_float_cents = opening;
    payments =
        record { method = cash; amount_cents = cash_sales }
        ∷ record { method = online; amount_cents = online_sales }
        ∷ [];
    cash_tip_cents = tips ∷ [];
    cash_in_cents = in_total;
    cash_out_cents = out_total;
    cash_expenses_cents = expenses;
    outstanding_change_cents = outstanding;
    latest_counted_cents = latest;
  })
  order_count ← database_number row.order_count
  ok (record {
    id = row.id;
    date = row.business_date;
    stored_status = row.status;
    opening_float_cents = opening;
    order_count = order_count;
    reconciliation = reconciliation;
    variance_reason = row.variance_reason;
  })

abbrev later_day : TradingDay → TradingDay → Bool
later_day a b =
    date_before b.business_date a.business_date
    || date_eq a.business_date b.business_date
      && (ltb b.opened_at a.opened_at || a.opened_at == b.opened_at && ltb b.id a.id)

insert_day_in_order : TradingDay → List TradingDay → List TradingDay
insert_day_in_order d [] = d ∷ []
insert_day_in_order d (e ∷ days) =
    let rest = insert_day_in_order d days in if later_day e d then e ∷ rest else d ∷ e ∷ days

sort_days : List TradingDay → List TradingDay
sort_days [] = []
sort_days (d ∷ days) = insert_day_in_order d (sort_days days)

abbrev pub in_range : Date → Date → TradingDay → Bool
in_range from to d = not (date_before d.business_date from) && not (date_before to d.business_date)

unfoldable pub read_days : List TradingDay → Db → Result (List DailyReadModel)
unfolding read_day daily_row
read_days [] db = ok []
read_days (d ∷ days) db = do
  first ← read_day (daily_row d db)
  rest ← read_days days db
  ok (first ∷ rest)

unfoldable pub load_daily_read_model : Date → Date → Db → Result (List DailyReadModel)
unfolding sort_days insert_day_in_order read_days date_before date_eq
load_daily_read_model from to db = read_days (sort_days (filter (in_range from to) db.days)) db

-- `getDailyGrossSales`: whether there was a business day, and its gross.
unfoldable pub get_daily_gross_sales : Date → Db → Result (Bool × ℤ)
unfolding load_daily_read_model add_money
get_daily_gross_sales date db = do
  days ← load_daily_read_model date date db
  gross ← add_money (map (λ d. d.reconciliation.gross_sales_cents) days)
  ok (elim days [ [] ↦ false | d ∷ rest ↦ true ], gross)

pub record ReportTotals : Type 0 where
  pub gross_sales_cents : ℤ
  pub cash_sales_cents : ℤ
  pub online_sales_cents : ℤ
  pub tips_cents : ℤ

-- `getReport`, without the products: the totals and the days.
unfoldable pub get_report : Date → Date → Db → Result (ReportTotals × List DailyReadModel)
unfolding load_daily_read_model add_money date_before
get_report from to db = do
  throw_if (date_before to from) (bad_request bad_range)
  days ← load_daily_read_model from to db
  gross ← add_money (map (λ d. d.reconciliation.gross_sales_cents) days)
  cash_sales ← add_money (map (λ d. d.reconciliation.cash_sales_cents) days)
  online_sales ← add_money (map (λ d. d.reconciliation.online_sales_cents) days)
  tips ← add_money (map (λ d. d.reconciliation.tips_cents) days)
  ok (
    record {
      gross_sales_cents = gross;
      cash_sales_cents = cash_sales;
      online_sales_cents = online_sales;
      tips_cents = tips;
    },
    days,
  )

pub date_eq_iff : (a b : Date) → (date_eq a b ≡ true) ↔ (a ≡ b)
unfolding date_eq
date_eq_iff a b = ground arith

instance abbrev pub date_key : Key Date
date_key = record { same = date_eq; same_iff = date_eq_iff }

abbrev is_closed : DayStatus → Bool
is_closed day_open = false
is_closed day_closed = true

-- The loop of `getClosedDailyGross`.
unfoldable pub closed_gross : List DailyReadModel → Dict Date ℤ → Result (Dict Date ℤ)
unfolding lookup insert add_money
closed_gross [] gross = ok gross
closed_gross (d ∷ days) gross =
    let added : Result (Dict Date ℤ) = (do
      total ←
          add_money
            (or_else (lookup d.date gross) (pos 0) ∷ d.reconciliation.gross_sales_cents ∷ [])
      ok (insert d.date total gross)) in
    (if is_closed d.stored_status then added else ok gross) >>= closed_gross days

unfoldable pub get_closed_daily_gross : Date → Date → Db → Result (Dict Date ℤ)
unfolding load_daily_read_model closed_gross date_before
get_closed_daily_gross from to db = do
  throw_if (date_before to from) (bad_request bad_range)
  days ← load_daily_read_model from to db
  closed_gross days []
