-- ===== src/Inventory/Counts/Input.antt =====
-- The body of a stock count, and `validateLineValues` (apps/api/src/inventory/stock-counts.service.ts).
-- Quantities are integers: the decorators of the body refuse others.
use coffee_shop_pos_multi_ag.Base.{
  ℕ, Bool, true, false, not, List, [], ◌∷◌, Option, none, some, any, ◌==◌, is_some, ℤ, pos, ltb_ℤ,
}
use coffee_shop_pos_multi_ag.Failure.{
  Result, ok, bad_request, throw_if, ◌>>◌, no_count_lines, item_repeated, one_count_value,
  bad_count_quantity, bad_level,
}
use coffee_shop_pos_multi_ag.Text.{Text}
use coffee_shop_pos_multi_ag.Store.Stock.{StockCountPhase, StockLevel}

-- `level` is `some none` for a text that names no level.
pub record SubmitStockCountLineDto : Type 0 where
  pub inventory_item_id : ℕ
  pub quantity : Option ℤ
  pub level : Option (Option StockLevel)
  pub notes : Option Text

pub record SubmitStockCountDto : Type 0 where
  pub phase : StockCountPhase
  pub submitted_by_staff_member_id : ℕ
  pub shift_lead_staff_member_id : Option ℕ
  pub corrects_stock_count_id : Option ℕ
  pub notes : Option Text
  pub lines : List SubmitStockCountLineDto

abbrev same_bool : Bool → Bool → Bool
same_bool true b = b
same_bool false b = not b

abbrev is_negative : Option ℤ → Bool
is_negative none = false
is_negative (some q) = ltb_ℤ q (pos 0)

abbrev names_no_level : Option (Option StockLevel) → Bool
names_no_level none = false
names_no_level (some none) = true
names_no_level (some (some l)) = false

-- The loop, with the items seen.
unfoldable pub validate_lines : List ℕ → List SubmitStockCountLineDto → Result (Unit {0})
validate_lines seen [] = ok tt
validate_lines seen (line ∷ lines) =
    throw_if (any (λ id. id == line.inventory_item_id) seen) (bad_request item_repeated)
    >> throw_if (same_bool (is_some line.quantity) (is_some line.level))
        (bad_request one_count_value)
    >> throw_if (is_negative line.quantity) (bad_request bad_count_quantity)
    >> throw_if (names_no_level line.level) (bad_request bad_level)
    >> validate_lines (line.inventory_item_id ∷ seen) lines

abbrev no_lines : List SubmitStockCountLineDto → Bool
no_lines [] = true
no_lines (line ∷ lines) = false

unfoldable pub validate_line_values : SubmitStockCountDto → Result (Unit {0})
unfolding validate_lines
validate_line_values input =
    throw_if (no_lines input.lines) (bad_request no_count_lines) >> validate_lines [] input.lines
