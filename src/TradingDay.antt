-- ===== src/TradingDay.antt =====
-- The trading-day service (apps/api/src/trading-day/trading-day.service.ts): opening and closing the
-- business day. `others` is what other requests commit between the first reads of a request and its
-- writes. The packaging lines come from another service and are an argument here.
pub mod Input
pub mod Cash
pub mod Movements
pub mod Invariant
pub mod Keeping
pub mod Ending
pub mod Amending
pub mod Requests
pub mod Safety
pub mod Behaviour
pub mod Drawer
pub mod Closing
use coffee_shop_pos_multi_ag.Base.{
  ℕ, Bool, true, false, not, ◌&&◌, ◌||◌, List, [], ◌∷◌, Option, none, some, find?, any,
  update_where, ◌==◌, if◌then◌else◌, is_none, is_some, ℤ, pos, or_else,
}
use coffee_shop_pos_multi_ag.Failure.{
  Result, ok, err, bad_request, conflict, unique_violation, day_already_open, date_used,
  opener_inactive, no_open_day, closer_inactive, already_closed,
}
use coffee_shop_pos_multi_ag.Money.{DayStatus, day_open, day_closed, CashReconciliation}
use coffee_shop_pos_multi_ag.Text.{Text}
use coffee_shop_pos_multi_ag.Date.{Date, date_eq}
use coffee_shop_pos_multi_ag.Store.{
  TradingDay, StaffMember, CashCount, DayClosingLine, DayClosing, Db,
}
use coffee_shop_pos_multi_ag.Store.Calls.{
  M, pure, throw, lift, gets, or_throw, transaction, catch_unique, modify, ◌>>=◌, ◌>>◌, throw_if,
  interleave,
}
use coffee_shop_pos_multi_ag.Store.Queries.{is_day_open, find_open_day, find_active_staff}
use Input.{
  OpenBusinessDayDto, CloseBusinessDayDto, OpenInput, CloseInput, validate_open_input,
  validate_close_input,
}
use Cash.{calculate_cash}

-- The ids that the database gives new rows, and the time.
pub record Supply : Type 0 where
  pub row_id : ℕ
  pub cash_count_id : ℕ
  pub now : ℕ

-- The index `trading_days_one_open_per_location_key`: two open days at one location.
abbrev pub location_eq : Option ℕ → Option ℕ → Bool
location_eq none none = true
location_eq (some a) (some b) = a == b
location_eq _ _ = false

unfoldable pub day_clashes : TradingDay → TradingDay → Bool
day_clashes d e =
    d.id == e.id
    || is_day_open d.status && is_day_open e.status && location_eq d.location_id e.location_id

unfoldable pub insert_day : TradingDay → M TradingDay
unfolding day_clashes
insert_day day = do
  throw_if (← gets λ db. any (day_clashes day) db.days) unique_violation
  modify λ db. record db { days = day ∷ db.days }
  pure day

unfoldable pub new_day : Supply → OpenBusinessDayDto → OpenInput → ℕ → TradingDay
new_day supply input checked opener = record {
  id = supply.row_id;
  location_id = none;
  business_date = checked.business_date;
  status = day_open;
  day_type = checked.day_type;
  opened_at = supply.now;
  closed_at = none;
  opening_float_cents = input.opening_float_cents;
  opened_by_staff_member_id = opener;
  closed_by_staff_member_id = none;
}

-- The transaction of `open`: three reads, and the row.
unfoldable pub open_transaction : (Db → Db) → Supply → OpenBusinessDayDto → OpenInput → M TradingDay
unfolding new_day
open_transaction others supply input checked = do
  throw_if (← gets λ db. any (λ d. is_day_open d.status) db.days) (conflict day_already_open)
  throw_if
      (← gets λ db.
        any (λ d. is_none d.location_id && date_eq d.business_date checked.business_date) db.days)
      (conflict date_used)
  opener ← λ db. or_throw (find_active_staff checked.opened_by db) (bad_request opener_inactive) db
  interleave others
  insert_day (new_day supply input checked opener.id)

-- `open`
unfoldable pub open_day : (Db → Db) → Supply → OpenBusinessDayDto → M TradingDay
unfolding open_transaction
open_day others supply input = do
  checked ← lift (validate_open_input input)
  catch_unique (open_transaction others supply input checked) (throw (conflict day_already_open))

unfoldable pub find_closing : ℕ → Db → Option DayClosing
find_closing id db = find? (λ c. c.id == id) db.day_closings

unfoldable pub find_closing_of_day : ℕ → Db → Option DayClosing
find_closing_of_day day db = find? (λ c. c.trading_day_id == day) db.day_closings

-- `updateMany({ where: { id, status: OPEN }, data: { status: CLOSED, ... } })`
unfoldable pub close_row : ℕ → ℕ → TradingDay → TradingDay
close_row now closer d = record d {
  status = day_closed;
  closed_at = some now;
  closed_by_staff_member_id = some closer;
}

abbrev pub is_open_row : ℕ → TradingDay → Bool
is_open_row id d = d.id == id && is_day_open d.status

unfoldable pub new_closing :
    Supply
    → CloseBusinessDayDto
    → CloseInput
    → TradingDay
    → StaffMember
    → CashReconciliation
    → ℤ
    → List DayClosingLine
    → DayClosing
new_closing supply input checked day closer cash variance packaging = record {
  id = checked.client_id;
  trading_day_id = day.id;
  cash_count_id = supply.cash_count_id;
  opening_float_cents = day.opening_float_cents;
  cash_sales_cents = cash.cash_sales_cents;
  online_sales_cents = cash.online_sales_cents;
  cash_tips_cents = cash.tips_cents;
  cash_in_cents = cash.cash_in_cents;
  cash_out_cents = cash.cash_out_cents;
  cash_expenses_cents = cash.cash_expenses_cents;
  outstanding_change_cents = cash.outstanding_change_cents;
  expected_cash_cents = cash.expected_cash_cents;
  actual_cash_cents = input.actual_cash_cents;
  variance_cents = variance;
  variance_reason = input.variance_reason;
  closed_by_staff_member_id = closer.id;
  closed_by_name_snapshot = closer.display_name;
  closed_at = supply.now;
  lines = packaging;
}

abbrev pub closing_clashes : DayClosing → DayClosing → Bool
closing_clashes c e =
    c.id == e.id || c.trading_day_id == e.trading_day_id || c.cash_count_id == e.cash_count_id

unfoldable pub insert_closing : DayClosing → M DayClosing
insert_closing c = do
  throw_if (← gets λ db. any (closing_clashes c) db.day_closings) unique_violation
  modify λ db. record db { day_closings = c ∷ db.day_closings }
  pure c

unfoldable pub insert_count : CashCount → M (Unit {0})
insert_count c = do
  throw_if (← gets λ db. any (λ e. c.id == e.id) db.cash_counts) unique_violation
  modify λ db. record db { cash_counts = c ∷ db.cash_counts }

-- `varianceCents: cash.varianceCents!`: a closed day always has one.
abbrev pub the_variance : Option ℤ → ℤ
the_variance v = or_else v (pos 0)

-- The writes of `close`.
unfoldable pub write_closing :
    Supply
    → CloseBusinessDayDto
    → CloseInput
    → TradingDay
    → StaffMember
    → CashReconciliation
    → List DayClosingLine
    → M DayClosing
unfolding close_row new_closing insert_count insert_closing
write_closing supply input checked day closer cash packaging = do
  count ← gets λ db. any (is_open_row day.id) db.days
  modify λ db. record db {
    days = update_where (is_open_row day.id) (close_row supply.now closer.id) db.days;
  }
  if not count
      then (λ db. or_throw (find_closing_of_day day.id db) (conflict already_closed) db)
      else (do
        insert_count (record {
          id = supply.cash_count_id;
          trading_day_id = day.id;
          counted_cents = input.actual_cash_cents;
          counted_at = supply.now;
          counted_by_staff_member_id = closer.id;
        })
        insert_closing (
            new_closing supply input checked day closer cash (the_variance cash.variance_cents)
              packaging))

module _ (packaging_of : TradingDay → Db → List DayClosingLine) where
  -- `close` with the row lock on the day held: the day as it is now is closed if it is still open.
  unfoldable pub close_locked :
      Supply → CloseBusinessDayDto → CloseInput → TradingDay → M DayClosing
  unfolding write_closing
  close_locked supply input checked initially_open = do
    closer ←
        λ db. or_throw (find_active_staff checked.closed_by db) (bad_request closer_inactive) db
    day ← gets λ db. find? (is_open_row initially_open.id) db.days
    elim day [
      | none ↦ λ db. or_throw (find_closing_of_day initially_open.id db) (conflict no_open_day) db
      | some d ↦ do
        cash ← λ db. lift (calculate_cash d day_closed (some input.actual_cash_cents) db) db
        packaging ← gets (packaging_of d)
        write_closing supply input checked d closer cash packaging
    ]

  abbrev pub closing_or : Option DayClosing → M DayClosing → M DayClosing
  closing_or (some c) m = pure c
  closing_or none m = m

  -- `close` from its first look for the open day on.
  unfoldable pub close_open_day :
      (Db → Db) → Supply → CloseBusinessDayDto → CloseInput → M DayClosing
  unfolding close_locked
  close_open_day others supply input checked = do
    initially_open ← λ db. or_throw (find_open_day db) (conflict no_open_day) db
    replay ← gets (find_closing checked.client_id)
    closing_or replay
        (do interleave others; transaction (close_locked supply input checked initially_open))

  unfoldable pub close_day : (Db → Db) → Supply → CloseBusinessDayDto → M DayClosing
  unfolding close_open_day
  close_day others supply input = do
    checked ← lift (validate_close_input input)
    replay ← gets (find_closing checked.client_id)
    closing_or replay (close_open_day others supply input checked)
