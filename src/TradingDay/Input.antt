-- ===== src/TradingDay/Input.antt =====
-- The request bodies of the trading-day service and their checks
-- (apps/api/src/trading-day/trading-day.service.ts). A field that the code tests for being one of an
-- enum's values, or for being there at all, is an option: `none` is every other value.
use coffee_shop_pos_multi_ag.Base.{
  ℕ, Bool, true, false, not, ◌&&◌, ◌||◌, Option, none, some, is_none, is_some, ℤ, pos, ltb_ℤ,
}
use coffee_shop_pos_multi_ag.Number.{is_safe_integer}
use coffee_shop_pos_multi_ag.Failure.{
  Message, Result, ok, err, ◌>>=◌, ◌>>◌, throw_if, bad_request, bad_date, bad_day_type,
  bad_opening_float, no_opener, no_client_id, bad_actual_cash, no_closer, bad_amount,
  blank_description, bad_kind, category_not_allowed,
}
use coffee_shop_pos_multi_ag.Text.{Text, trim, is_empty}
use coffee_shop_pos_multi_ag.Date.{Date, match_date, parse_business_date}
use coffee_shop_pos_multi_ag.Store.{DayType, MovementKind, expense}

pub record OpenBusinessDayDto : Type 0 where
  pub business_date : Text
  pub day_type : Option DayType
  pub opening_float_cents : ℤ
  pub opened_by_staff_member_id : Option ℕ

pub record CloseBusinessDayDto : Type 0 where
  pub client_generated_id : Option ℕ
  pub actual_cash_cents : ℤ
  pub variance_reason : Option Text
  pub closed_by_staff_member_id : Option ℕ

pub record CashMovementDto : Type 0 where
  pub client_generated_id : Option ℕ
  pub kind : Option MovementKind
  pub amount_cents : ℤ
  pub description : Text
  pub category : Option Text
  pub recorded_by_staff_member_id : Option ℕ

-- What is left of a field that a check has found present.
abbrev pub present : {A : Type 0} → Option A → Message → Result A
present none m = err (bad_request m)
present (some a) m = ok a

pub record OpenInput : Type 0 where
  pub business_date : Date
  pub day_type : DayType
  pub opened_by : ℕ

-- `validateOpenInput` and the date parsed after it.
unfoldable pub validate_open_input : OpenBusinessDayDto → Result OpenInput
validate_open_input input = do
  throw_if (is_none (match_date input.business_date)) (bad_request bad_date)
  date ← present (parse_business_date input.business_date) bad_date
  day_type ← present input.day_type bad_day_type
  throw_if
      (not (is_safe_integer input.opening_float_cents) || ltb_ℤ input.opening_float_cents (pos 0))
      (bad_request bad_opening_float)
  opener ← present input.opened_by_staff_member_id no_opener
  ok (record { business_date = date; day_type = day_type; opened_by = opener })

pub record CloseInput : Type 0 where
  pub client_id : ℕ
  pub closed_by : ℕ

unfoldable pub validate_close_input : CloseBusinessDayDto → Result CloseInput
validate_close_input input = do
  client_id ← present input.client_generated_id no_client_id
  throw_if (not (is_safe_integer input.actual_cash_cents) || ltb_ℤ input.actual_cash_cents (pos 0))
      (bad_request bad_actual_cash)
  closer ← present input.closed_by_staff_member_id no_closer
  ok (record { client_id = client_id; closed_by = closer })

abbrev pub is_expense : MovementKind → Bool
is_expense expense = true
is_expense _ = false

pub record MovementInput : Type 0 where
  pub client_id : ℕ
  pub kind : MovementKind

unfoldable pub validate_cash_movement_input : CashMovementDto → Result MovementInput
unfolding trim is_empty
validate_cash_movement_input input = do
  client_id ← present input.client_generated_id no_client_id
  kind ← present input.kind bad_kind
  throw_if
      (not (is_safe_integer input.amount_cents)
        || ltb_ℤ input.amount_cents (pos 1)
        || ltb_ℤ (pos 2147483647) input.amount_cents)
      (bad_request bad_amount)
  throw_if (is_empty (trim input.description)) (bad_request blank_description)
  throw_if (not (is_expense kind) && is_some input.category) (bad_request category_not_allowed)
  ok (record { client_id = client_id; kind = kind })
