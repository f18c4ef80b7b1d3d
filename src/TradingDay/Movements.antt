-- ===== src/TradingDay/Movements.antt =====
-- The cash movements of a trading day, which are never changed: an amendment is a new row
-- that supersedes another (apps/api/src/trading-day/trading-day.service.ts).
use coffee_shop_pos_multi_ag.Base.{
  ℕ, Bool, false, not, ◌&&◌, ◌||◌, ◌∷◌, Option, none, some, find?, any, ◌==◌, is_none, is_some,
}
use coffee_shop_pos_multi_ag.Failure.{
  bad_request, conflict, not_found, unique_violation, no_open_day, recorder_inactive,
  movement_not_found, across_days, movement_day_closed, movement_superseded,
}
use coffee_shop_pos_multi_ag.Text.{Text, trim, trim_or_null}
use coffee_shop_pos_multi_ag.Store.{TradingDay, StaffMember, CashMovement, Db}
use coffee_shop_pos_multi_ag.Store.Calls.{
  M, pure, throw, lift, gets, or_throw, transaction, catch_unique, modify, ◌>>=◌, ◌>>◌, throw_if,
  interleave,
}
use coffee_shop_pos_multi_ag.Store.Queries.{
  is_day_open, find_open_day, find_open_day_by_id, find_active_staff,
}
use coffee_shop_pos_multi_ag.TradingDay.Input.{
  CashMovementDto, MovementInput, validate_cash_movement_input,
}
use coffee_shop_pos_multi_ag.TradingDay.Cash.{amends}
use coffee_shop_pos_multi_ag.TradingDay.{Supply}

unfoldable pub find_movement : ℕ → Db → Option CashMovement
find_movement id db = find? (λ m. m.id == id) db.cash_movements

-- The row that amends this one: `amendedBy`.
unfoldable pub amendment_of : ℕ → Db → Option CashMovement
amendment_of id db = find? (amends id) db.cash_movements

abbrev pub same_target : CashMovement → CashMovement → Bool
same_target m n = elim m.amends_cash_movement_id [ none ↦ false | some id ↦ amends id n ]

-- The unique keys: the id, and the row that is amended.
unfoldable pub movement_clashes : CashMovement → CashMovement → Bool
movement_clashes m n = m.id == n.id || same_target m n

unfoldable pub insert_movement : CashMovement → M CashMovement
unfolding movement_clashes
insert_movement m = do
  throw_if (← gets λ db. any (movement_clashes m) db.cash_movements) unique_violation
  modify λ db. record db { cash_movements = m ∷ db.cash_movements }
  pure m

abbrev pub movement_or : Option CashMovement → M CashMovement → M CashMovement
movement_or (some m) k = pure m
movement_or none k = k

-- The recorder that the request names, if it names one.
unfoldable pub require_recorder : Option ℕ → M (Option StaffMember)
require_recorder none = pure none
require_recorder (some id) = do
  recorder ← λ db. or_throw (find_active_staff id db) (bad_request recorder_inactive) db
  pure (some recorder)

abbrev pub recorder_id : Option StaffMember → Option ℕ
recorder_id none = none
recorder_id (some s) = some s.id

abbrev pub recorder_name : Option StaffMember → Option Text
recorder_name none = none
recorder_name (some s) = some s.display_name

unfoldable pub new_movement :
    Supply → CashMovementDto → MovementInput → ℕ → Option ℕ → Option StaffMember → CashMovement
unfolding trim trim_or_null
new_movement supply input checked day target recorder = record {
  id = checked.client_id;
  trading_day_id = day;
  amends_cash_movement_id = target;
  kind = checked.kind;
  amount_cents = input.amount_cents;
  description = trim input.description;
  category = trim_or_null input.category;
  recorded_by_staff_member_id = recorder_id recorder;
  recorded_by_name_snapshot = recorder_name recorder;
  recorded_at = supply.now;
}

unfoldable pub record_on : Supply → CashMovementDto → MovementInput → TradingDay → M CashMovement
unfolding new_movement insert_movement require_recorder
record_on supply input checked day = do
  throw_if (← gets λ db. is_none (find_open_day_by_id day.id db)) (conflict no_open_day)
  recorder ← require_recorder input.recorded_by_staff_member_id
  insert_movement (new_movement supply input checked day.id none recorder)

-- The transaction of `recordCashMovement`, from the first look for the open day.
unfoldable pub record_on_open_day :
    (Db → Db) → Supply → CashMovementDto → MovementInput → M CashMovement
unfolding record_on
record_on_open_day others supply input checked = do
  day ← λ db. or_throw (find_open_day db) (conflict no_open_day) db
  interleave others
  replay ← gets (find_movement checked.client_id)
  transaction (movement_or replay (record_on supply input checked day))

unfoldable pub record_cash_movement : (Db → Db) → Supply → CashMovementDto → M CashMovement
unfolding record_on_open_day
record_cash_movement others supply input = do
  checked ← lift (validate_cash_movement_input input)
  replay ← gets (find_movement checked.client_id)
  movement_or replay (
      catch_unique (record_on_open_day others supply input checked)
        (λ db. or_throw (find_movement checked.client_id db) unique_violation db))

abbrev pub day_is_open : ℕ → Db → Bool
day_is_open id db = any (λ d. d.id == id && is_day_open d.status) db.days

-- `amendCashMovement` with the day's row lock held.
unfoldable pub amend_locked :
    Supply → CashMovementDto → MovementInput → ℕ → CashMovement → M CashMovement
unfolding new_movement insert_movement require_recorder
amend_locked supply input checked target_id target = do
  locked ← λ db. or_throw (find_movement target_id db) (not_found movement_not_found) db
  throw_if (not (locked.trading_day_id == target.trading_day_id)) (conflict across_days)
  throw_if (← gets λ db. not (day_is_open locked.trading_day_id db)) (conflict movement_day_closed)
  throw_if (← gets λ db. is_some (amendment_of target_id db)) (conflict movement_superseded)
  recorder ← require_recorder input.recorded_by_staff_member_id
  insert_movement
      (new_movement supply input checked locked.trading_day_id (some target_id) recorder)

-- The transaction of `amendCashMovement`.
unfoldable pub amend_transaction :
    (Db → Db) → Supply → CashMovementDto → MovementInput → ℕ → CashMovement → M CashMovement
unfolding amend_locked
amend_transaction others supply input checked target_id target = do
  interleave others
  replay ← gets (find_movement checked.client_id)
  transaction (movement_or replay (amend_locked supply input checked target_id target))

-- What a unique violation of the insert is answered with.
unfoldable pub amend_conflict : ℕ → ℕ → M CashMovement
amend_conflict client_id target_id = do
  replay ← gets (find_movement client_id)
  movement_or replay (do
    throw_if (← gets λ db. is_some (amendment_of target_id db)) (conflict movement_superseded)
    throw unique_violation)

unfoldable pub amend_cash_movement : (Db → Db) → Supply → ℕ → CashMovementDto → M CashMovement
unfolding amend_transaction amend_conflict
amend_cash_movement others supply target_id input = do
  checked ← lift (validate_cash_movement_input input)
  replay ← gets (find_movement checked.client_id)
  movement_or replay (do
    target ← λ db. or_throw (find_movement target_id db) (not_found movement_not_found) db
    catch_unique (amend_transaction others supply input checked target_id target)
        (amend_conflict checked.client_id target_id))
