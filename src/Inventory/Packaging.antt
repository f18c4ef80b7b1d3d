-- ===== src/Inventory/Packaging.antt =====
-- The packaging of a trading day (apps/api/src/inventory/packaging-reconciliation.service.ts): what
-- should be left of each cup and lid, and what was counted.
pub mod Totals
use coffee_shop_pos_multi_ag.Base.{
  ℕ, Bool, true, false, not, ◌&&◌, ◌||◌, List, [], ◌∷◌, ◌++◌, Option, none, some, filter, find?,
  any, map, ltb, ◌==◌, if◌then◌else◌, ℤ, pos, ◌+ℤ◌, ◌-ℤ◌, ◌*ℤ◌,
}
use coffee_shop_pos_multi_ag.Text.{Text}
use coffee_shop_pos_multi_ag.Date.{Date, date_eq}
use coffee_shop_pos_multi_ag.Dict.{Dict, lookup, insert, id_key}
use coffee_shop_pos_multi_ag.Store.{TradingDay, ProductVariant, Sale, SaleLine, DayClosingLine, Db}
use coffee_shop_pos_multi_ag.Store.Queries.{first_by}
use coffee_shop_pos_multi_ag.Store.Stock.{
  StockCountPhase, opening_phase, closing_phase, CountMethod, by_quantity, by_level, MovementType,
  delivery, wastage, InventoryItem, StockCountLine, StockCount, StockMovement,
}
use coffee_shop_pos_multi_ag.Orders.Rows.{is_purchase, is_parked}
use coffee_shop_pos_multi_ag.Orders.Completion.{has_void}
use coffee_shop_pos_multi_ag.TradingDay.{location_eq}

pub record PackagingReconciliationRow : Type 0 where
  pub inventory_item_id : ℕ
  pub item_name : Text
  pub opening_qty : Option ℤ
  pub deliveries_qty : ℤ
  pub wastage_qty : ℤ
  pub sold_qty : ℤ
  pub expected_qty : Option ℤ
  pub actual_qty : Option ℤ
  pub variance_qty : Option ℤ

abbrev pub is_phase : StockCountPhase → StockCountPhase → Bool
is_phase opening_phase opening_phase = true
is_phase closing_phase closing_phase = true
is_phase opening_phase closing_phase = false
is_phase closing_phase opening_phase = false

abbrev pub corrects_count : ℕ → Option ℕ → Bool
corrects_count id none = false
corrects_count id (some target) = target == id

abbrev pub recorded_later : StockCount → StockCount → Bool
recorded_later a b =
    ltb b.recorded_at a.recorded_at || a.recorded_at == b.recorded_at && ltb b.id a.id

unfoldable pub is_corrected : List StockCount → StockCount → Bool
is_corrected counts c = any (λ d. corrects_count c.id d.corrects_stock_count_id) counts

-- `latestStockCountCorrection`: of the counts of a phase that no count of the phase corrects, the one
-- that the sort puts first.
unfoldable pub latest_stock_count_correction : List StockCount → StockCountPhase → Option StockCount
unfolding first_by is_corrected
latest_stock_count_correction counts phase =
    let phase_counts = filter (λ c. is_phase c.phase phase) counts in
    first_by recorded_later (λ c. true)
      (filter (λ c. not (is_corrected phase_counts c)) phase_counts)

abbrev pub in_scope : TradingDay → Option ℕ → Date → Bool
in_scope day location date = location_eq location day.location_id && date_eq date day.business_date

unfoldable pub counts_of : TradingDay → Db → List StockCount
counts_of day db = filter (λ c. in_scope day c.location_id c.business_date) db.stock_counts

unfoldable pub movements_of : TradingDay → Db → List StockMovement
movements_of day db = filter (λ m. in_scope day m.location_id m.business_date) db.stock_movements

-- The packaging that a line of a sale takes.
pub record SoldLine : Type 0 where
  pub quantity : ℤ
  pub packaging_servings : ℕ
  pub cup_inventory_item_id : Option ℕ
  pub lid_inventory_item_id : Option ℕ

abbrev pub cup_of : Option ProductVariant → Option ℕ
cup_of none = none
cup_of (some v) = v.cup_inventory_item_id

abbrev pub lid_of : Option ProductVariant → Option ℕ
lid_of none = none
lid_of (some v) = v.lid_inventory_item_id

abbrev pub sold_line : Db → SaleLine → SoldLine
sold_line db line =
    let variant = find? (λ v. v.id == line.product_variant_id) db.variants in
    record {
      quantity = line.quantity;
      packaging_servings = line.packaging_servings_snapshot;
      cup_inventory_item_id = cup_of variant;
      lid_inventory_item_id = lid_of variant;
    }

unfoldable pub lines_of : Db → List Sale → List SoldLine
lines_of db [] = []
lines_of db (sale ∷ sales) = map (sold_line db) sale.lines ++ lines_of db sales

-- The lines of the day's completed purchases that no void row takes back.
unfoldable pub sold_lines_of : TradingDay → Db → List SoldLine
unfolding lines_of has_void
sold_lines_of day db = lines_of db (
    filter
      (λ s.
        s.trading_day_id == day.id
        && (not (is_parked s.status) && (is_purchase s.kind && not (has_void s.id db))))
      db.sales)

abbrev pub is_id : ℕ → Option ℕ → Bool
is_id id none = false
is_id id (some j) = j == id

-- `participatingItemIds.has(id)`
unfoldable pub participates : ℕ → List StockCount → List StockMovement → List SoldLine → Bool
participates id counts movements sold =
    any (λ c. any (λ l. l.inventory_item_id == id) c.lines) counts
    || any (λ m. m.inventory_item_id == id) movements
    || any (λ l. is_id id l.cup_inventory_item_id || is_id id l.lid_inventory_item_id) sold

abbrev is_quantity : CountMethod → Bool
is_quantity by_quantity = true
is_quantity by_level = false

insert_item :
    (InventoryItem → InventoryItem → Bool) → InventoryItem → List InventoryItem → List InventoryItem
insert_item before item [] = item ∷ []
insert_item before item (other ∷ items) =
    let rest = insert_item before item items in
    if before other item then other ∷ rest else item ∷ other ∷ items

sort_items : (InventoryItem → InventoryItem → Bool) → List InventoryItem → List InventoryItem
sort_items before [] = []
sort_items before (item ∷ items) = insert_item before item (sort_items before items)

-- By name and then by id, where `collate` says which name comes first.
unfoldable pub items_of :
    (Text → Text → Bool)
    → List StockCount
    → List StockMovement
    → List SoldLine
    → Db
    → List InventoryItem
unfolding sort_items insert_item participates
items_of collate counts movements sold db =
    sort_items (λ a b. collate a.name b.name || not (collate b.name a.name) && ltb a.id b.id)
      (filter
        (λ item.
          item.reconciled
          && (is_quantity item.count_method
              && (item.active || participates item.id counts movements sold)))
        db.inventory_items)

-- `zeroTotals`
unfoldable pub zero_totals : Dict ℕ ℤ → List InventoryItem → Dict ℕ ℤ
unfolding insert
zero_totals totals [] = totals
zero_totals totals (item ∷ items) = zero_totals (insert item.id (pos 0) totals) items

abbrev pub set_sum : Dict ℕ ℤ → ℕ → ℤ → Option ℤ → Dict ℕ ℤ
set_sum totals id quantity none = totals
set_sum totals id quantity (some current) = insert id (current +ℤ quantity) totals

-- `add`
unfoldable pub add_to : Dict ℕ ℤ → Option ℕ → ℤ → Dict ℕ ℤ
unfolding insert lookup
add_to totals none quantity = totals
add_to totals (some id) quantity = set_sum totals id quantity (lookup id totals)

abbrev pub is_delivery : MovementType → Bool
is_delivery delivery = true
is_delivery wastage = false

unfoldable pub add_movement : MovementType → ℕ → ℤ → Dict ℕ ℤ × Dict ℕ ℤ → Dict ℕ ℤ × Dict ℕ ℤ
unfolding add_to
add_movement delivery id quantity (deliveries, wasted) =
    (add_to deliveries (some id) quantity, wasted)
add_movement wastage id quantity (deliveries, wasted) =
    (deliveries, add_to wasted (some id) quantity)

-- The loop over the movements: deliveries and wastage.
unfoldable pub add_movements : List StockMovement → Dict ℕ ℤ × Dict ℕ ℤ → Dict ℕ ℤ × Dict ℕ ℤ
unfolding add_movement
add_movements [] totals = totals
add_movements (m ∷ movements) totals =
    add_movements movements (add_movement m.type m.inventory_item_id m.quantity totals)

-- The loop over the sale lines.
unfoldable pub add_sold : List SoldLine → Dict ℕ ℤ → Dict ℕ ℤ
unfolding add_to
add_sold [] sold = sold
add_sold (l ∷ lines) sold =
    let packaging_quantity = l.quantity *ℤ pos l.packaging_servings in
    add_sold lines (
      add_to (add_to sold l.cup_inventory_item_id packaging_quantity) l.lid_inventory_item_id
        packaging_quantity)

unfoldable pub quantities : List StockCountLine → Dict ℕ (Option ℤ) → Dict ℕ (Option ℤ)
unfolding insert
quantities [] counted = counted
quantities (l ∷ lines) counted = quantities lines (insert l.inventory_item_id l.quantity counted)

abbrev pub quantities_of : Option StockCount → Dict ℕ (Option ℤ)
quantities_of none = []
quantities_of (some count) = quantities count.lines []

-- `countQuantities`
unfoldable pub count_quantities : List StockCount → StockCountPhase → Dict ℕ (Option ℤ)
unfolding latest_stock_count_correction quantities
count_quantities counts phase = quantities_of (latest_stock_count_correction counts phase)

-- A counted number: the item may be missing or have no quantity.
abbrev pub number_or_null : Option (Option ℤ) → Option ℤ
number_or_null none = none
number_or_null (some q) = q

-- `totals.get(id)!`: every item of the answer has a total.
abbrev pub the_total : Option ℤ → ℤ
the_total none = pos 0
the_total (some q) = q

abbrev pub difference : Option ℤ → Option ℤ → Option ℤ
difference (some actual) (some expected) = some (actual -ℤ expected)
difference none expected = none
difference (some actual) none = none

abbrev pub expected_of : Option ℤ → ℤ → ℤ → ℤ → Option ℤ
expected_of none deliveries wasted sold = none
expected_of (some opening) deliveries wasted sold = some (opening +ℤ deliveries -ℤ wasted -ℤ sold)

abbrev pub row_of : InventoryItem → Option ℤ → Option ℤ → ℤ → ℤ → ℤ → PackagingReconciliationRow
row_of item opening actual deliveries wasted sold = record {
  inventory_item_id = item.id;
  item_name = item.name;
  opening_qty = opening;
  deliveries_qty = deliveries;
  wastage_qty = wasted;
  sold_qty = sold;
  expected_qty = expected_of opening deliveries wasted sold;
  actual_qty = actual;
  variance_qty = difference actual (expected_of opening deliveries wasted sold);
}

-- `getForTradingDay`
unfoldable pub get_for_trading_day :
    (Text → Text → Bool) → TradingDay → Db → List PackagingReconciliationRow
unfolding counts_of movements_of sold_lines_of items_of count_quantities zero_totals add_movements
    add_sold
get_for_trading_day collate day db =
    let counts = counts_of day db in
    let movements = movements_of day db in
    let sale_lines = sold_lines_of day db in
    let items = items_of collate counts movements sale_lines db in
    let opening = count_quantities counts opening_phase in
    let closing = count_quantities counts closing_phase in
    let (deliveries, wasted) =
      add_movements movements (zero_totals [] items, zero_totals [] items) in
    let sold = add_sold sale_lines (zero_totals [] items) in
    map
      (λ item.
        row_of item (number_or_null (lookup item.id opening))
          (number_or_null (lookup item.id closing)) (the_total (lookup item.id deliveries))
          (the_total (lookup item.id wasted)) (the_total (lookup item.id sold)))
      items

-- The lines that `close` stores of it.
unfoldable pub closing_lines : (Text → Text → Bool) → TradingDay → Db → List DayClosingLine
unfolding get_for_trading_day
closing_lines collate day db =
    map
      (λ line. record {
        inventory_item_id = line.inventory_item_id;
        item_name_snapshot = line.item_name;
        expected_qty = line.expected_qty;
        actual_qty = line.actual_qty;
        variance_qty = line.variance_qty;
      })
      (get_for_trading_day collate day db)
