-- ===== src/Inventory/Packaging/Totals.antt =====
-- The totals that the loops of the packaging service gather are the sums over what they read.
use coffee_shop_pos_multi_ag.Base.{
  ℕ, not, ◌&&◌, List, [], ◌∷◌, Option, none, some, filter, map, sum, ◌==◌, if◌then◌else◌, ℤ, pos,
  ◌+ℤ◌, neg_ℤ, ◌*ℤ◌,
}
use coffee_shop_pos_multi_ag.Text.{Text}
use coffee_shop_pos_multi_ag.Dict.{Dict, id_key}
use coffee_shop_pos_multi_ag.Store.{TradingDay, Db}
use coffee_shop_pos_multi_ag.Store.Stock.{
  opening_phase, closing_phase, InventoryItem, StockCountLine, StockCount, StockMovement,
}
use coffee_shop_pos_multi_ag.Inventory.Packaging.{
  PackagingReconciliationRow, SoldLine, latest_stock_count_correction, counts_of, movements_of,
  sold_lines_of, is_id, is_delivery, number_or_null,
}

-- The last quantity that a count's lines give an item.
abbrev pub counted_quantity : ℕ → List StockCountLine → Option (Option ℤ) → Option (Option ℤ)
counted_quantity id [] before = before
counted_quantity id (l ∷ lines) before =
    counted_quantity id lines (if l.inventory_item_id == id then some l.quantity else before)

abbrev pub quantity_in : ℕ → Option StockCount → Option ℤ
quantity_in id none = none
quantity_in id (some count) = number_or_null (counted_quantity id count.lines none)

abbrev pub delivered : ℕ → List StockMovement → ℤ
delivered id movements = sum (
    map (λ m. m.quantity) (filter (λ m. m.inventory_item_id == id && is_delivery m.type) movements))

abbrev pub wasted : ℕ → List StockMovement → ℤ
wasted id movements = sum (
    map (λ m. m.quantity)
      (filter (λ m. m.inventory_item_id == id && not (is_delivery m.type)) movements))

-- What one line takes of an item, as its cup and as its lid.
abbrev pub taken : ℕ → SoldLine → ℤ
taken id l =
    (if is_id id l.cup_inventory_item_id then l.quantity *ℤ pos l.packaging_servings else pos 0)
    +ℤ (if is_id id l.lid_inventory_item_id then l.quantity *ℤ pos l.packaging_servings else pos 0)

abbrev pub sold : ℕ → List SoldLine → ℤ
sold id lines = sum (map (taken id) lines)

abbrev plus : Option ℤ → ℤ → Option ℤ
plus none q = none
plus (some c) q = some (c +ℤ q)

-- The sum of two amounts that may be missing.
abbrev pub total_if_both : Option ℤ → Option ℤ → Option ℤ
total_if_both none b = none
total_if_both (some a) none = none
total_if_both (some a) (some b) = some (a +ℤ b)

abbrev pub negated_if_any : Option ℤ → Option ℤ
negated_if_any none = none
negated_if_any (some a) = some (neg_ℤ a)

-- What should be left of an item: what the day began with and was delivered, without what was wasted or sold.
abbrev pub should_be_left : TradingDay → Db → InventoryItem → Option ℤ
should_be_left day db item =
    total_if_both
      (quantity_in item.id (latest_stock_count_correction (counts_of day db) opening_phase))
      (some (
        delivered item.id (movements_of day db)
        +ℤ neg_ℤ (wasted item.id (movements_of day db) +ℤ sold item.id (sold_lines_of day db))))

-- The row of an item, from sums over what the service reads: its deliveries and its wastage of the day, and
-- what the lines sold take of it as cup and as lid.
abbrev pub summed_row : TradingDay → Db → InventoryItem → PackagingReconciliationRow
summed_row day db item =
    let left =
      quantity_in item.id (latest_stock_count_correction (counts_of day db) closing_phase) in
    record {
      inventory_item_id = item.id;
      item_name = item.name;
      opening_qty =
          quantity_in item.id (latest_stock_count_correction (counts_of day db) opening_phase);
      deliveries_qty = delivered item.id (movements_of day db);
      wastage_qty = wasted item.id (movements_of day db);
      sold_qty = sold item.id (sold_lines_of day db);
      expected_qty = should_be_left day db item;
      actual_qty = left;
      variance_qty = total_if_both left (negated_if_any (should_be_left day db item));
    }
