-- ===== src/Store.antt =====
-- The database as the services see it: one record of tables, with the rows of
-- apps/api/prisma/schema.prisma. A sale holds its lines (in the order of their ids, as every
-- include asks for) and its payments. Ids are numbers, in place of UUIDs; times are numbers; text
-- is a list of UTF-16 code units.
pub mod Calls
pub mod Queries
pub mod Rules
pub mod Stock
pub mod Journal
use coffee_shop_pos_multi_ag.Base.{ℕ, Bool, true, false, Option, List, ℤ}
use coffee_shop_pos_multi_ag.Money.{PaymentMethod, DayStatus}
use coffee_shop_pos_multi_ag.Text.{Text}
use coffee_shop_pos_multi_ag.Date.{Date}
use Journal.{JournalLedger, JournalDeposit, JournalWithdrawal, JournalSuggestionRate}
use Stock.{InventoryItem, StockCount, StockMovement}

pub data SaleKind : Type 0 where
  purchase void : SaleKind

pub data OrderStatus : Type 0 where
  parked completed : OrderStatus

pub data ServiceType : Type 0 where
  dine_in take_out : ServiceType

pub data DiscountKind : Type 0 where
  no_discount pwd senior : DiscountKind

pub data LinePreference : Type 0 where
  sweeter stronger less_sweet less_ice : LinePreference

pub data Role : Type 0 where
  admin staff : Role

pub data DayType : Type 0 where
  normal peak : DayType

pub data MovementKind : Type 0 where
  cash_in cash_out expense : MovementKind

pub record User : Type 0 where
  pub id : ℕ
  pub username : Text
  pub display_name : Text
  pub password_hash : Text
  pub pin_hash : Option Text
  pub is_active : Bool
  pub role : Role

pub record TradingDay : Type 0 where
  pub id : ℕ
  pub location_id : Option ℕ
  pub business_date : Date
  pub status : DayStatus
  pub day_type : DayType
  pub opened_at : ℕ
  pub closed_at : Option ℕ
  pub opening_float_cents : ℤ
  pub opened_by_staff_member_id : ℕ
  pub closed_by_staff_member_id : Option ℕ

pub record StaffMember : Type 0 where
  pub id : ℕ
  pub display_name : Text
  pub is_active : Bool
  pub location_id : Option ℕ
  pub user_id : Option ℕ

pub record Product : Type 0 where
  pub name : Text
  pub active : Bool
  pub available : Bool
  pub packaging_servings : ℕ
  pub category_free_upsize_eligible : Bool

pub record ProductVariant : Type 0 where
  pub id : ℕ
  pub name : Text
  pub active : Bool
  pub price_cents : ℤ
  pub cup_inventory_item_id : Option ℕ
  pub lid_inventory_item_id : Option ℕ
  pub product : Product

pub record SaleLine : Type 0 where
  pub id : ℕ
  pub product_variant_id : ℕ
  pub quantity : ℤ
  pub packaging_servings_snapshot : ℕ
  pub unit_price_cents : ℤ
  pub line_gross_cents : ℤ
  pub discount_kind : DiscountKind
  pub discount_cents : ℤ
  pub preferences : List LinePreference
  pub preference_note : Option Text
  pub free_upsize_count : ℤ
  pub free_upsize_cents : ℤ
  pub free_upsize_eligible : Bool
  pub line_total_cents : ℤ
  pub product_name_snapshot : Text
  pub variant_name_snapshot : Text

pub record SalePayment : Type 0 where
  pub method : PaymentMethod
  pub amount_cents : ℤ

pub record Sale : Type 0 where
  pub id : ℕ
  pub client_generated_id : ℕ
  pub location_id : Option ℕ
  pub trading_day_id : ℕ
  pub cashier_staff_member_id : Option ℕ
  pub cashier_name_snapshot : Option Text
  pub kind : SaleKind
  pub corrects_sale_id : Option ℕ
  pub day_order_number : ℕ
  pub status : OrderStatus
  pub customer_name : Option Text
  pub service_type : ServiceType
  pub subtotal_cents : ℤ
  pub discount_cents : ℤ
  pub free_upsize_cents : ℤ
  pub tax_cents : ℤ
  pub total_cents : ℤ
  pub cash_tip_cents : ℤ
  pub cash_received_cents : Option ℤ
  pub change_owed_cents : ℤ
  pub change_settled_at : Option ℕ
  pub completed_at : Option ℕ
  pub void_reason : Option Text
  pub lines : List SaleLine
  pub payments : List SalePayment

pub record CashMovement : Type 0 where
  pub id : ℕ
  pub trading_day_id : ℕ
  pub amends_cash_movement_id : Option ℕ
  pub kind : MovementKind
  pub amount_cents : ℤ
  pub description : Text
  pub category : Option Text
  pub recorded_by_staff_member_id : Option ℕ
  pub recorded_by_name_snapshot : Option Text
  pub recorded_at : ℕ

pub record CashCount : Type 0 where
  pub id : ℕ
  pub trading_day_id : ℕ
  pub counted_cents : ℤ
  pub counted_at : ℕ
  pub counted_by_staff_member_id : ℕ

pub record DayClosingLine : Type 0 where
  pub inventory_item_id : ℕ
  pub item_name_snapshot : Text
  pub expected_qty : Option ℤ
  pub actual_qty : Option ℤ
  pub variance_qty : Option ℤ

pub record DayClosing : Type 0 where
  pub id : ℕ
  pub trading_day_id : ℕ
  pub cash_count_id : ℕ
  pub opening_float_cents : ℤ
  pub cash_sales_cents : ℤ
  pub online_sales_cents : ℤ
  pub cash_tips_cents : ℤ
  pub cash_in_cents : ℤ
  pub cash_out_cents : ℤ
  pub cash_expenses_cents : ℤ
  pub outstanding_change_cents : ℤ
  pub expected_cash_cents : ℤ
  pub actual_cash_cents : ℤ
  pub variance_cents : ℤ
  pub variance_reason : Option Text
  pub closed_by_staff_member_id : ℕ
  pub closed_by_name_snapshot : Text
  pub closed_at : ℕ
  pub lines : List DayClosingLine

pub record CashierSelection : Type 0 where
  pub id : ℕ
  pub device_id : Text
  pub location_id : Option ℕ
  pub staff_member_id : Option ℕ
  pub selected_by_user_id : ℕ
  pub selected_at : ℕ

pub record Db : Type 0 where
  pub users : List User
  pub days : List TradingDay
  pub staff_members : List StaffMember
  pub variants : List ProductVariant
  pub sales : List Sale
  pub cash_movements : List CashMovement
  pub cash_counts : List CashCount
  pub day_closings : List DayClosing
  pub cashier_selections : List CashierSelection
  pub inventory_items : List InventoryItem
  pub stock_counts : List StockCount
  pub stock_movements : List StockMovement
  pub journal_ledgers : List JournalLedger
  pub journal_deposits : List JournalDeposit
  pub journal_withdrawals : List JournalWithdrawal
  pub journal_rates : List JournalSuggestionRate
