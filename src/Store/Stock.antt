-- ===== src/Store/Stock.antt =====
-- The rows of the inventory (apps/api/prisma/schema.prisma). A count holds its lines.
use coffee_shop_pos_multi_ag.Base.{ℕ, Bool, Option, List, ℤ}
use coffee_shop_pos_multi_ag.Text.{Text}
use coffee_shop_pos_multi_ag.Date.{Date}

pub data StockCountPhase : Type 0 where
  opening_phase closing_phase : StockCountPhase

pub data CountMethod : Type 0 where
  by_quantity by_level : CountMethod

pub data StockLevel : Type 0 where
  level_empty level_low quarter one_third half two_thirds three_quarters level_full : StockLevel

pub data MovementType : Type 0 where
  delivery wastage : MovementType

pub record InventoryItem : Type 0 where
  pub id : ℕ
  pub name : Text
  pub count_method : CountMethod
  pub critical : Bool
  pub reconciled : Bool
  pub active : Bool

pub record StockCountLine : Type 0 where
  pub inventory_item_id : ℕ
  pub quantity : Option ℤ
  pub level : Option StockLevel
  pub notes : Option Text

pub record StockCount : Type 0 where
  pub id : ℕ
  pub location_id : Option ℕ
  pub business_date : Date
  pub phase : StockCountPhase
  pub recorded_at : ℕ
  pub submitted_by_staff_member_id : ℕ
  pub submitted_by_name_snapshot : Text
  pub shift_lead_staff_member_id : Option ℕ
  pub shift_lead_name_snapshot : Option Text
  pub notes : Option Text
  pub corrects_stock_count_id : Option ℕ
  pub lines : List StockCountLine

pub record StockMovement : Type 0 where
  pub id : ℕ
  pub location_id : Option ℕ
  pub business_date : Date
  pub inventory_item_id : ℕ
  pub type : MovementType
  pub quantity : ℤ
  pub recorded_by_staff_member_id : Option ℕ
  pub recorded_by_name_snapshot : Option Text
  pub reason : Option Text
  pub recorded_at : ℕ
