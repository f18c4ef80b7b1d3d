-- ===== src/Tests/StockExamples.antt =====
-- Examples of the inventory.
use coffee_shop_pos_multi_ag.Store.Queries.{find_active_staff}
use coffee_shop_pos_multi_ag.Inventory.Counts.Input.{validate_line_values}
use coffee_shop_pos_multi_ag.Store.Queries.{find_open_day}
use coffee_shop_pos_multi_ag.Base.{◌*ℤ◌}
use coffee_shop_pos_multi_ag.Base.{◌+ℤ◌}
use coffee_shop_pos_multi_ag.Base.{◌-ℤ◌}
use coffee_shop_pos_multi_ag.Date.{date_eq}
use coffee_shop_pos_multi_ag.Base.{
  Bool, ◌≡◌, refl, inl, inr, true, false, none, some, [], ◌∷◌, map, pos, arith, ltb,
}
use coffee_shop_pos_multi_ag.Date.{date_eq}
use coffee_shop_pos_multi_ag.Failure.{ok}
use coffee_shop_pos_multi_ag.Text.{Text}
use coffee_shop_pos_multi_ag.Store.{Db}
use coffee_shop_pos_multi_ag.Store.Stock.{
  opening_phase, by_quantity, delivery, wastage, InventoryItem, StockCount, StockMovement,
}
use coffee_shop_pos_multi_ag.Inventory.Packaging.{
  get_for_trading_day, counts_of, latest_stock_count_correction,
}
use coffee_shop_pos_multi_ag.Inventory.Counts.Input.{SubmitStockCountDto}
use coffee_shop_pos_multi_ag.Inventory.Counts.{submit}
use coffee_shop_pos_multi_ag.Inventory.Counts.Chain.{IsKept}
use coffee_shop_pos_multi_ag.Inventory.Counts.Latest.{
  CountSchedule, done, during, run_counts, run_counts-IsKept, submit_latest,
}
use coffee_shop_pos_multi_ag.Tests.{day, morning, paid_500}

abbrev cup : InventoryItem
cup = record {
  id = 41;
  name = b'c' ∷ [];
  count_method = by_quantity;
  critical = true;
  reconciled = true;
  active = true;
}

abbrev lid : InventoryItem
lid = record cup { id = 42; name = b'l' ∷ [] }

abbrev first_count : StockCount
first_count = record {
  id = 60;
  location_id = none;
  business_date = day.business_date;
  phase = opening_phase;
  recorded_at = 110;
  submitted_by_staff_member_id = 7;
  submitted_by_name_snapshot = b'J' ∷ [];
  shift_lead_staff_member_id = none;
  shift_lead_name_snapshot = none;
  notes = none;
  corrects_stock_count_id = none;
  lines =
      record { inventory_item_id = 41; quantity = some (pos 50); level = none; notes = none }
      ∷ record { inventory_item_id = 42; quantity = some (pos 40); level = none; notes = none }
      ∷ [];
}

abbrev delivered_cups : StockMovement
delivered_cups = record {
  id = 70;
  location_id = none;
  business_date = day.business_date;
  inventory_item_id = 41;
  type = delivery;
  quantity = pos 25;
  recorded_by_staff_member_id = none;
  recorded_by_name_snapshot = none;
  reason = none;
  recorded_at = 120;
}

abbrev stocked : Db
stocked = record morning {
  sales = paid_500 ∷ [];
  inventory_items = lid ∷ cup ∷ [];
  stock_counts = first_count ∷ [];
  stock_movements =
      record delivered_cups { id = 71; type = wastage; quantity = pos 3 } ∷ delivered_cups ∷ [];
}

-- Names by their first letter.
abbrev collate : Text → Text → Bool
collate [] t = false
collate (c ∷ cs) [] = false
collate (c ∷ cs) (d ∷ ds) = ltb c d

expected_cups :
    map (λ r. r.expected_qty) (get_for_trading_day collate day stocked)
    ≡ some (pos 71) ∷ some (pos 39) ∷ []
unfolding get_for_trading_day date_eq ◌-ℤ◌ ◌+ℤ◌ ◌*ℤ◌
expected_cups = refl

recount : SubmitStockCountDto
recount = record {
  phase = opening_phase;
  submitted_by_staff_member_id = 7;
  shift_lead_staff_member_id = none;
  corrects_stock_count_id = some 60;
  notes = none;
  lines =
      record { inventory_item_id = 41; quantity = some (pos 48); level = none; notes = none } ∷ [];
}

-- Two corrections of the same count overlap: the one inside is committed between the checks and the row of the
-- other.
abbrev overlapping : CountSchedule
overlapping =
    during recount (record { row_id = 61; now = 130 }) done
      (during recount (record { row_id = 62; now = 131 }) done done done) done

run_counts-IsKept_example : IsKept stocked (run_counts overlapping stocked)
run_counts-IsKept_example = run_counts-IsKept overlapping stocked (refl, refl, refl, tt)

abbrev second_count : StockCount
second_count = record first_count {
  id = 61;
  recorded_at = 130;
  corrects_stock_count_id = some 60;
  lines =
      record { inventory_item_id = 41; quantity = some (pos 48); level = none; notes = none } ∷ [];
}

abbrev recounted : Db
recounted = record stocked { stock_counts = second_count ∷ first_count ∷ [] }

submitted :
    submit (run_counts done) (run_counts done) (record { row_id = 61; now = 130 }) recount stocked
    ≡ (ok second_count, recounted)
unfolding submit recount run_counts find_open_day validate_line_values find_active_staff date_eq
submitted = refl

submit_latest_example :
    (latest_stock_count_correction (counts_of day recounted) recount.phase ≡ some second_count)
    × (second_count.phase ≡ recount.phase)
    × (second_count.corrects_stock_count_id ≡ recount.corrects_stock_count_id)
unfolding date_eq
submit_latest_example =
    unfold date_eq in
    submit_latest done done (record { row_id = 61; now = 130 }) recount stocked recounted
      second_count (refl, refl, refl, tt) submitted (inl refl, (inr (omega arith), tt)) day refl
