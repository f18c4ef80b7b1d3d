-- ===== src/Orders/Rows.antt =====
-- The rows that the order service reads and writes: sales by their keys, the lines of a sale, the
-- sellable variants (apps/api/src/orders/orders.service.ts).
use coffee_shop_pos_multi_ag.Base.{
  ℕ, Bool, true, false, ◌&&◌, ◌||◌, List, [], ◌∷◌, Option, none, some, find?, any, update_where,
  delete_where, ltb, max, ◌==◌, if◌then◌else◌, or_else, ℤ, pos, ◌+ℤ◌, ◌-ℤ◌,
}
use coffee_shop_pos_multi_ag.Failure.{
  Result, ok, bad_request, not_found, unique_violation, product_not_sellable, line_not_found,
}
use coffee_shop_pos_multi_ag.Text.{Text}
use coffee_shop_pos_multi_ag.Store.{
  SaleKind, purchase, void, OrderStatus, parked, completed, DiscountKind, no_discount,
  LinePreference, ProductVariant, SaleLine, Sale, Db,
}
use coffee_shop_pos_multi_ag.Store.Calls.{M, throw_if, modify, pure, gets, ◌>>=◌, ◌>>◌}
use coffee_shop_pos_multi_ag.Orders.Amounts.{normalize_preferences}

abbrev pub is_parked : OrderStatus → Bool
is_parked parked = true
is_parked completed = false

abbrev pub is_purchase : SaleKind → Bool
is_purchase purchase = true
is_purchase void = false

unfoldable pub find_by_client_id : ℕ → Db → Option Sale
find_by_client_id cid db = find? (λ s. s.client_generated_id == cid) db.sales

-- `lastOrder?.dayOrderNumber ?? 0`, of the orders of a day
unfoldable pub last_order_number : ℕ → List Sale → ℕ
last_order_number day [] = 0
last_order_number day (s ∷ ss) =
    if s.trading_day_id == day
    then max s.day_order_number (last_order_number day ss)
    else last_order_number day ss

-- The unique keys of the table: the id, the client's id, and the number within the day.
unfoldable pub clashes : Sale → Sale → Bool
clashes s t =
    s.id == t.id
    || s.client_generated_id == t.client_generated_id
    || s.trading_day_id == t.trading_day_id && s.day_order_number == t.day_order_number

unfoldable pub insert_sale : Sale → M Sale
unfolding clashes
insert_sale sale = do
  throw_if (← gets λ db. any (clashes sale) db.sales) unique_violation
  modify λ db. record db { sales = sale ∷ db.sales }
  pure sale

-- `sale.updateMany({ where: { id, ... } })`
abbrev pub update_sales : (Sale → Bool) → (Sale → Sale) → M (Unit {0})
update_sales p f = modify λ db. record db { sales = update_where p f db.sales }

abbrev pub delete_sale : ℕ → M (Unit {0})
delete_sale id = modify λ db. record db { sales = delete_where (λ s. s.id == id) db.sales }

-- A new line takes its place in the order of the ids.
unfoldable pub insert_line : SaleLine → List SaleLine → List SaleLine
insert_line l [] = l ∷ []
insert_line l (k ∷ ks) = if ltb l.id k.id then l ∷ k ∷ ks else k ∷ insert_line l ks

abbrev pub create_line : ℕ → SaleLine → M (Unit {0})
create_line sale_id l =
    update_sales (λ s. s.id == sale_id) (λ s. record s { lines = insert_line l s.lines })

abbrev pub update_line_row : ℕ → ℕ → (SaleLine → SaleLine) → M (Unit {0})
update_line_row sale_id line_id f =
    update_sales (λ s. s.id == sale_id)
      (λ s. record s { lines = update_where (λ l. l.id == line_id) f s.lines })

abbrev pub delete_line : ℕ → ℕ → M (Unit {0})
delete_line sale_id line_id =
    update_sales (λ s. s.id == sale_id)
      (λ s. record s { lines = delete_where (λ l. l.id == line_id) s.lines })

unfoldable pub sum_by : (SaleLine → ℤ) → ℤ → List SaleLine → ℤ
sum_by f total [] = total
sum_by f total (l ∷ ls) = sum_by f (total +ℤ f l) ls

-- The totals of a sale from its lines.
unfoldable pub recalculated : Sale → Sale
unfolding sum_by
recalculated s =
    let subtotal = sum_by (λ l. l.line_gross_cents) (pos 0) s.lines in
    let discount = sum_by (λ l. l.discount_cents) (pos 0) s.lines in
    let free_upsize = sum_by (λ l. l.free_upsize_cents) (pos 0) s.lines in
    record s {
      subtotal_cents = subtotal;
      discount_cents = discount;
      free_upsize_cents = free_upsize;
      tax_cents = pos 0;
      total_cents = subtotal -ℤ free_upsize -ℤ discount;
    }

unfoldable pub recalculate_order : ℕ → M (Unit {0})
unfolding recalculated
recalculate_order sale_id = update_sales (λ s. s.id == sale_id && is_parked s.status) recalculated

unfoldable pub require_sellable_variant : ℕ → Db → Result ProductVariant
require_sellable_variant id db =
    elim (find? (λ v. v.id == id && v.active && (v.product.active && v.product.available))
      db.variants) [ none ↦ Result.err (bad_request product_not_sellable) | some v ↦ ok v ]

pub record AddOrderLineDto : Type 0 where
  pub product_variant_id : ℕ
  pub quantity : Option ℤ
  pub discount_kind : Option DiscountKind
  pub preferences : Option (List LinePreference)
  pub preference_note : Option Text
  pub free_upsize_count : Option ℤ

-- The row with the id that the database gives it; its amounts are filled in by the caller.
unfoldable pub line_create_data : ℕ → AddOrderLineDto → ProductVariant → SaleLine
unfolding normalize_preferences
line_create_data id input variant = record {
  id = id;
  product_variant_id = variant.id;
  quantity = or_else input.quantity (pos 1);
  packaging_servings_snapshot = variant.product.packaging_servings;
  unit_price_cents = variant.price_cents;
  line_gross_cents = pos 0;
  discount_kind = or_else input.discount_kind no_discount;
  discount_cents = pos 0;
  preferences = normalize_preferences (or_else input.preferences []);
  preference_note = input.preference_note;
  free_upsize_count = or_else input.free_upsize_count (pos 0);
  free_upsize_cents = pos 0;
  free_upsize_eligible = variant.product.category_free_upsize_eligible;
  line_total_cents = pos 0;
  product_name_snapshot = variant.product.name;
  variant_name_snapshot = variant.name;
}

unfoldable pub require_owned_line : ℕ → Sale → Result SaleLine
require_owned_line line_id order = elim (find? (λ l. l.id == line_id) order.lines) [
  | none ↦ Result.err (not_found line_not_found)
  | some l ↦ ok l
]
