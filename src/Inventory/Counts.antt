-- ===== src/Inventory/Counts.antt =====
-- Stock counts (apps/api/src/inventory/stock-counts.service.ts). `others` is what other requests commit
-- between the reads of the day and the transaction of `submit`, and `meanwhile` what they commit between its
-- reads and its one write, so that nothing has to be rolled back.
pub mod Input
pub mod Chain
pub mod Submitting
pub mod Latest
use coffee_shop_pos_multi_ag.Base.{
  ℕ, Bool, true, false, not, ◌&&◌, ◌||◌, List, [], ◌∷◌, Option, none, some, filter, find?, any, map,
  ltb, ◌==◌, if◌then◌else◌, is_none, is_some, ℤ,
}
use coffee_shop_pos_multi_ag.Failure.{
  Error, Result, ok, err, type_error, range_error, record_missing, forbidden, not_found,
  bad_request, conflict, unique_violation, correction_violation, no_open_day, submitter_inactive,
  shift_lead_inactive, not_on_sheet, wrong_count_method, bad_correction_target, already_corrected,
}
use coffee_shop_pos_multi_ag.Text.{Text}
use coffee_shop_pos_multi_ag.Date.{Date, date_eq, date_before}
use coffee_shop_pos_multi_ag.Store.{TradingDay, StaffMember, Db}
use coffee_shop_pos_multi_ag.Store.Calls.{
  M, pure, throw, lift, gets, or_throw, modify, interleave, ◌>>=◌, ◌>>◌, throw_if,
}
use coffee_shop_pos_multi_ag.Store.Queries.{find_open_day, find_active_staff, first_by}
use coffee_shop_pos_multi_ag.Store.Stock.{
  StockCountPhase, opening_phase, closing_phase, CountMethod, by_quantity, by_level, StockLevel,
  InventoryItem, StockCountLine, StockCount,
}
use coffee_shop_pos_multi_ag.TradingDay.{location_eq}
use coffee_shop_pos_multi_ag.Inventory.Movements.{Supply, find_optional_staff, staff_id, staff_name}
use coffee_shop_pos_multi_ag.Inventory.Packaging.{
  is_phase, corrects_count, recorded_later, in_scope,
}
use Input.{SubmitStockCountLineDto, SubmitStockCountDto, validate_line_values}

abbrev is_opening : StockCountPhase → Bool
is_opening opening_phase = true
is_opening closing_phase = false

abbrev pub off_sheet : StockCountPhase → Option InventoryItem → Bool
off_sheet phase none = true
off_sheet phase (some item) = not item.active || is_opening phase && not item.critical

abbrev value_missing : CountMethod → SubmitStockCountLineDto → Bool
value_missing by_quantity line = is_none line.quantity
value_missing by_level line = is_none line.level

abbrev pub method_differs : Option InventoryItem → SubmitStockCountLineDto → Bool
method_differs none line = false
method_differs (some item) line = value_missing item.count_method line

-- The loop over the lines with the items that they name.
unfoldable pub check_items : StockCountPhase → List SubmitStockCountLineDto → M (Unit {0})
check_items phase [] = pure tt
check_items phase (line ∷ lines) = do
  item ← gets λ db. find? (λ i. i.id == line.inventory_item_id) db.inventory_items
  throw_if (off_sheet phase item) (bad_request not_on_sheet)
  throw_if (method_differs item line) (bad_request wrong_count_method)
  check_items phase lines

abbrev pub target_differs : TradingDay → StockCountPhase → Option StockCount → Bool
target_differs day phase none = true
target_differs day phase (some target) =
    not (in_scope day target.location_id target.business_date) || not (is_phase target.phase phase)

-- The count that the new one corrects.
unfoldable pub check_correction : TradingDay → StockCountPhase → Option ℕ → M (Option ℕ)
check_correction day phase none = pure none
check_correction day phase (some id) = do
  target ← gets λ db. find? (λ c. c.id == id) db.stock_counts
  throw_if (target_differs day phase target) (bad_request bad_correction_target)
  throw_if (← gets λ db. any (λ c. corrects_count id c.corrects_stock_count_id) db.stock_counts)
      (bad_request already_corrected)
  pure (some id)

abbrev level_of : Option (Option StockLevel) → Option StockLevel
level_of none = none
level_of (some level) = level

unfoldable pub new_count :
    Supply
    → SubmitStockCountDto
    → TradingDay
    → StaffMember
    → Option StaffMember
    → Option ℕ
    → StockCount
new_count supply input day submitter shift_lead corrects = record {
  id = supply.row_id;
  location_id = day.location_id;
  business_date = day.business_date;
  phase = input.phase;
  recorded_at = supply.now;
  submitted_by_staff_member_id = submitter.id;
  submitted_by_name_snapshot = submitter.display_name;
  shift_lead_staff_member_id = staff_id shift_lead;
  shift_lead_name_snapshot = staff_name shift_lead;
  notes = input.notes;
  corrects_stock_count_id = corrects;
  lines =
      map
        (λ l. record {
          inventory_item_id = l.inventory_item_id;
          quantity = l.quantity;
          level = level_of l.level;
          notes = l.notes;
        })
        input.lines;
}

abbrev pub same_target : Option ℕ → Option ℕ → Bool
same_target none other = false
same_target (some id) other = corrects_count id other

-- The row, if the two unique indexes allow it.
unfoldable pub insert_count_row : StockCount → M StockCount
insert_count_row row = do
  throw_if (← gets λ db. any (λ c. c.id == row.id) db.stock_counts) unique_violation
  throw_if
      (← gets λ db.
        any (λ c. same_target row.corrects_stock_count_id c.corrects_stock_count_id)
          db.stock_counts)
      correction_violation
  modify λ db. record db { stock_counts = row ∷ db.stock_counts }
  pure row

-- The transaction of `submit`.
unfoldable pub submit_transaction :
    (Db → Db) → Supply → SubmitStockCountDto → TradingDay → M StockCount
unfolding find_optional_staff check_items check_correction new_count insert_count_row
submit_transaction meanwhile supply input day = do
  submitter ← λ db.
      or_throw (find_active_staff input.submitted_by_staff_member_id db)
        (bad_request submitter_inactive) db
  shift_lead ← λ db.
      or_throw (find_optional_staff input.shift_lead_staff_member_id db)
        (bad_request shift_lead_inactive) db
  check_items input.phase input.lines
  corrects ← check_correction day input.phase input.corrects_stock_count_id
  interleave meanwhile
  insert_count_row (new_count supply input day submitter shift_lead corrects)

-- `rethrowCorrectionConflict`
unfoldable pub rethrow_correction_conflict : Error → Error
rethrow_correction_conflict correction_violation = bad_request already_corrected
rethrow_correction_conflict type_error = type_error
rethrow_correction_conflict range_error = range_error
rethrow_correction_conflict unique_violation = unique_violation
rethrow_correction_conflict record_missing = record_missing
rethrow_correction_conflict (bad_request m) = bad_request m
rethrow_correction_conflict (conflict m) = conflict m
rethrow_correction_conflict (forbidden m) = forbidden m
rethrow_correction_conflict (not_found m) = not_found m

abbrev pub rethrown : Result StockCount × Db → Result StockCount × Db
rethrown (ok r, db) = (ok r, db)
rethrown (err e, db) = (err (rethrow_correction_conflict e), db)

-- `submit`
unfoldable pub submit : (Db → Db) → (Db → Db) → Supply → SubmitStockCountDto → M StockCount
unfolding submit_transaction rethrow_correction_conflict
submit others meanwhile supply input = do
  day ← λ db. or_throw (find_open_day db) (conflict no_open_day) db
  lift (validate_line_values input)
  interleave others
  λ db. rethrown (submit_transaction meanwhile supply input day db)

abbrev pub recorded_after : StockCount → StockCount → Bool
recorded_after a b =
    date_before b.business_date a.business_date
    || date_eq a.business_date b.business_date && recorded_later a b

-- What a sheet shows of the day: `submittedCount`, and on the opening sheet `lastClosingCount`.
unfoldable pub submitted_count : StockCountPhase → TradingDay → Db → Option StockCount
unfolding first_by
submitted_count phase day db =
    first_by recorded_later
      (λ c. in_scope day c.location_id c.business_date && is_phase c.phase phase) db.stock_counts

unfoldable pub last_closing_count : TradingDay → Db → Option StockCount
unfolding first_by date_before
last_closing_count day db =
    first_by recorded_after
      (λ c. location_eq c.location_id day.location_id && is_phase c.phase closing_phase)
      db.stock_counts
