-- ===== src/Tests.antt =====
-- Concrete data for the examples: one open day with two staff members and two drinks, and the
-- requests of a short morning.
pub mod OrderExamples
pub mod DayExamples
pub mod MoneyExamples
pub mod DateExamples
pub mod AuthExamples
pub mod JournalExamples
pub mod ReportExamples
pub mod StockExamples
use coffee_shop_pos_multi_ag.Base.{
  ℕ, ◌+◌, true, false, Option, none, some, List, [], ◌∷◌, ℤ, pos, negsuc,
}
use coffee_shop_pos_multi_ag.Money.{cash, online, day_open}
use coffee_shop_pos_multi_ag.Store.{
  normal, TradingDay, StaffMember, Product, ProductVariant, no_discount, senior, SalePayment, Sale,
  purchase, parked, completed, dine_in, Role, staff, Db,
}
use coffee_shop_pos_multi_ag.Orders.{Supply, CreateOrderDto, create}
use coffee_shop_pos_multi_ag.Orders.Rows.{AddOrderLineDto}
use coffee_shop_pos_multi_ag.Orders.Tender.{CompleteOrderDto}
use coffee_shop_pos_multi_ag.Orders.Completion.{VoidOrderDto}
use coffee_shop_pos_multi_ag.Orders.Requests.{
  Schedule, done, during, creates, adds_line, completes, voids,
}

abbrev pub day : TradingDay
day = record {
  id = 1;
  location_id = none;
  business_date = record { year = 2026; month = 2; day = 28 };
  status = day_open;
  day_type = normal;
  opened_at = 100;
  closed_at = none;
  opening_float_cents = pos 200000;
  opened_by_staff_member_id = 7;
  closed_by_staff_member_id = none;
}

abbrev pub latte : ProductVariant
latte = record {
  id = 11;
  name = b'L' ∷ [];
  active = true;
  price_cents = pos 15000;
  cup_inventory_item_id = some 41;
  lid_inventory_item_id = some 42;
  product = record {
    name = b'A' ∷ [];
    active = true;
    available = true;
    packaging_servings = 1;
    category_free_upsize_eligible = true;
  };
}

abbrev pub barista : StaffMember
barista = record {
  id = 7;
  display_name = b'J' ∷ [];
  is_active = true;
  location_id = none;
  user_id = some 3;
}

abbrev pub morning : Db
morning = record {
  days = day ∷ [];
  staff_members = barista ∷ [];
  variants = latte ∷ [];
  sales = [];
  cash_movements = [];
  cash_counts = [];
  day_closings = [];
  cashier_selections = [];
  users = [];
  inventory_items = [];
  stock_counts = [];
  stock_movements = [];
  journal_ledgers = [];
  journal_deposits = [];
  journal_withdrawals = [];
  journal_rates = [];
}

abbrev pub supply : ℕ → Supply
supply n = record { sale_id = n; line_id = n; void_line_id = λ k. n + k; now = n }

abbrev pub one_latte : AddOrderLineDto
one_latte = record {
  product_variant_id = 11;
  quantity = none;
  discount_kind = none;
  preferences = none;
  preference_note = none;
  free_upsize_count = none;
}

-- For a senior, with a free upsize.
abbrev pub senior_latte : AddOrderLineDto
senior_latte = record one_latte { discount_kind = some senior; free_upsize_count = some (pos 1) }

abbrev pub new_latte : ℕ → CreateOrderDto
new_latte id = record {
  client_generated_id = id;
  device_id = b'd' ∷ [];
  customer_name = none;
  service_type = none;
  line = one_latte;
}

abbrev pub in_cash : ℤ → CompleteOrderDto
in_cash amount = record {
  payments = record { method = cash; amount_cents = amount } ∷ [];
  cash_received_cents = some (pos 50000);
  cash_tip_cents = some (pos 500);
  change_owed_cents = some (pos 100);
}

abbrev pub take_back : ℕ → VoidOrderDto
take_back id = record { client_generated_id = id; device_id = b'd' ∷ []; void_reason = b'x' ∷ [] }

-- Order 500 is made; while a senior's latte is added, order 501 is made; 500 is paid and taken back, and while that
-- waits for the day, order 502 is made.
abbrev pub busy : Schedule
busy = during (creates (new_latte 500)) (supply 1) done done (
    during (adds_line 500 senior_latte) (supply 2)
      (during (creates (new_latte 501)) (supply 3) done done done) done
      (during (completes 500 (in_cash (pos 24600))) (supply 4) done done (
        during (voids 500 (take_back 600) staff) (supply 5) done
          (during (creates (new_latte 502)) (supply 6) done done done) done)))

-- Nobody else.
abbrev pub alone : Db → Db
alone db = db

-- Order 500 with its one latte, and paid in cash.
abbrev pub order_500 : Sale
order_500 = record {
  id = 1;
  client_generated_id = 500;
  location_id = none;
  trading_day_id = 1;
  cashier_staff_member_id = none;
  cashier_name_snapshot = none;
  kind = purchase;
  corrects_sale_id = none;
  day_order_number = 1;
  status = parked;
  customer_name = none;
  service_type = dine_in;
  subtotal_cents = pos 15000;
  discount_cents = pos 0;
  free_upsize_cents = pos 0;
  tax_cents = pos 0;
  total_cents = pos 15000;
  cash_tip_cents = pos 0;
  cash_received_cents = none;
  change_owed_cents = pos 0;
  change_settled_at = none;
  completed_at = none;
  void_reason = none;
  lines =
      record {
        id = 1;
        product_variant_id = 11;
        quantity = pos 1;
        packaging_servings_snapshot = 1;
        unit_price_cents = pos 15000;
        line_gross_cents = pos 15000;
        discount_kind = no_discount;
        discount_cents = pos 0;
        preferences = [];
        preference_note = none;
        free_upsize_count = pos 0;
        free_upsize_cents = pos 0;
        free_upsize_eligible = true;
        line_total_cents = pos 15000;
        product_name_snapshot = b'A' ∷ [];
        variant_name_snapshot = b'L' ∷ [];
      }
      ∷ [];
  payments = [];
}

abbrev pub paid_500 : Sale
paid_500 = record order_500 {
  status = completed;
  cash_tip_cents = pos 500;
  cash_received_cents = some (pos 50000);
  change_owed_cents = pos 100;
  completed_at = some 4;
  payments = record { method = cash; amount_cents = pos 15000 } ∷ [];
}

abbrev pub with_sales : List Sale → Db
with_sales rows = record morning { sales = rows }
