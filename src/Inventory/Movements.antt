-- ===== src/Inventory/Movements.antt =====
-- Deliveries and wastage (apps/api/src/inventory/stock-movements.service.ts).
use coffee_shop_pos_multi_ag.Base.{
  ℕ, Bool, ◌&&◌, ◌||◌, List, [], ◌∷◌, Option, none, some, filter, find?, any, ltb, ◌==◌,
  if◌then◌else◌, ℤ, pos, ltb_ℤ,
}
use coffee_shop_pos_multi_ag.Failure.{
  bad_request, conflict, unique_violation, no_open_day, bad_quantity, bad_type, item_inactive,
  recorder_inactive,
}
use coffee_shop_pos_multi_ag.Text.{Text, trim_or_null}
use coffee_shop_pos_multi_ag.Date.{date_eq}
use coffee_shop_pos_multi_ag.Store.{TradingDay, StaffMember, Db}
use coffee_shop_pos_multi_ag.Store.Calls.{
  M, pure, gets, or_throw, transaction, modify, interleave, ◌>>=◌, ◌>>◌, throw_if,
}
use coffee_shop_pos_multi_ag.Store.Queries.{find_open_day, find_active_staff}
use coffee_shop_pos_multi_ag.Store.Stock.{MovementType, InventoryItem, StockMovement}
use coffee_shop_pos_multi_ag.TradingDay.{location_eq}

-- The id and the time of the row.
pub record Supply : Type 0 where
  pub row_id : ℕ
  pub now : ℕ

-- `type` is `none` for a text that names no type.
pub record CreateStockMovementDto : Type 0 where
  pub inventory_item_id : ℕ
  pub type : Option MovementType
  pub quantity : ℤ
  pub recorded_by_staff_member_id : Option ℕ
  pub reason : Option Text

-- A staff member that may be left out: `some none` where it is, `none` where the one named is not active.
unfoldable pub find_optional_staff : Option ℕ → Db → Option (Option StaffMember)
find_optional_staff none db = some none
find_optional_staff (some id) db = elim (find_active_staff id db) [
  | none ↦ none
  | some m ↦ some (some m)
]

abbrev pub staff_id : Option StaffMember → Option ℕ
staff_id none = none
staff_id (some m) = some m.id

abbrev pub staff_name : Option StaffMember → Option Text
staff_name none = none
staff_name (some m) = some m.display_name

abbrev pub find_active_item : ℕ → Db → Option InventoryItem
find_active_item id db = find? (λ item. item.id == id && item.active) db.inventory_items

unfoldable pub new_stock_movement :
    Supply
    → CreateStockMovementDto
    → MovementType
    → TradingDay
    → InventoryItem
    → Option StaffMember
    → StockMovement
unfolding trim_or_null
new_stock_movement supply input type day item recorder = record {
  id = supply.row_id;
  location_id = day.location_id;
  business_date = day.business_date;
  inventory_item_id = item.id;
  type = type;
  quantity = input.quantity;
  recorded_by_staff_member_id = staff_id recorder;
  recorded_by_name_snapshot = staff_name recorder;
  reason = trim_or_null input.reason;
  recorded_at = supply.now;
}

unfoldable pub insert_stock_movement : StockMovement → M StockMovement
insert_stock_movement row = do
  throw_if (← gets λ db. any (λ m. m.id == row.id) db.stock_movements) unique_violation
  modify λ db. record db { stock_movements = row ∷ db.stock_movements }
  pure row

-- The transaction of `create`.
unfoldable pub create_stock_movement_on :
    Supply → CreateStockMovementDto → MovementType → TradingDay → M StockMovement
unfolding find_optional_staff new_stock_movement insert_stock_movement
create_stock_movement_on supply input type day = do
  item ← λ db. or_throw (find_active_item input.inventory_item_id db) (bad_request item_inactive) db
  recorder ← λ db.
      or_throw (find_optional_staff input.recorded_by_staff_member_id db)
        (bad_request recorder_inactive) db
  insert_stock_movement (new_stock_movement supply input type day item recorder)

-- `create`
unfoldable pub create_stock_movement : (Db → Db) → Supply → CreateStockMovementDto → M StockMovement
unfolding create_stock_movement_on
create_stock_movement others supply input = do
  day ← λ db. or_throw (find_open_day db) (conflict no_open_day) db
  throw_if (ltb_ℤ input.quantity (pos 0)) (bad_request bad_quantity)
  type ← λ db. or_throw input.type (bad_request bad_type) db
  interleave others
  transaction (create_stock_movement_on supply input type day)

abbrev later_movement : StockMovement → StockMovement → Bool
later_movement a b =
    ltb b.recorded_at a.recorded_at || a.recorded_at == b.recorded_at && ltb b.id a.id

insert_later : StockMovement → List StockMovement → List StockMovement
insert_later m [] = m ∷ []
insert_later m (n ∷ movements) =
    let rest = insert_later m movements in
    if later_movement n m then n ∷ rest else m ∷ n ∷ movements

sort_latest : List StockMovement → List StockMovement
sort_latest [] = []
sort_latest (m ∷ movements) = insert_later m (sort_latest movements)

-- `list`: the movements of the open day, the latest first; none where no day is open.
unfoldable pub list_stock_movements : Db → List StockMovement
unfolding sort_latest insert_later
list_stock_movements db = elim (find_open_day db) [
  | none ↦ []
  | some day ↦ sort_latest (
      filter
        (λ m.
          location_eq m.location_id day.location_id && date_eq m.business_date day.business_date)
        db.stock_movements)
]
