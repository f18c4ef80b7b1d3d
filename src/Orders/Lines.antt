-- ===== src/Orders/Lines.antt =====
-- The changes to a parked order: its header and its lines
-- (apps/api/src/orders/orders.service.ts).
use coffee_shop_pos_multi_ag.Base.{
  ℕ, ◌&&◌, List, Option, none, some, find?, ◌==◌, if◌then◌else◌, or_else, ℤ, pos, ◌+ℤ◌, ◌-ℤ◌, eq_ℤ,
}
use coffee_shop_pos_multi_ag.Text.{Text}
use coffee_shop_pos_multi_ag.Store.{ServiceType, DiscountKind, LinePreference, SaleLine, Sale, Db}
use coffee_shop_pos_multi_ag.Store.Calls.{M, lift, ◌>>=◌, ◌>>◌}
use coffee_shop_pos_multi_ag.Orders.Amounts.{
  calculate_line_amounts, with_amounts, normalize_preferences, is_plain_mergeable_line,
}
use coffee_shop_pos_multi_ag.Orders.Rows.{
  is_parked, update_sales, create_line, update_line_row, delete_line, require_sellable_variant,
  AddOrderLineDto, line_create_data, require_owned_line,
}
use coffee_shop_pos_multi_ag.Orders.{Supply, mutate_parked, mutate_parked_with_discard}

-- A field that is left out keeps its value; `some none` clears a nullable one.
pub record UpdateOrderDto : Type 0 where
  pub customer_name : Option (Option Text)
  pub service_type : Option ServiceType

unfoldable pub update : (Db → Db) → ℕ → UpdateOrderDto → M Sale
update others cid input = mutate_parked others cid λ order.
    update_sales (λ s. s.id == order.id && is_parked s.status)
      (λ s. record s {
        customer_name = or_else input.customer_name s.customer_name;
        service_type = or_else input.service_type s.service_type;
      })

-- `{ quantity, ...calculateLineAmounts({ ...line, quantity }) }` written to the row.
unfoldable pub write_quantity : Sale → SaleLine → ℤ → M (Unit {0})
write_quantity order line quantity = do
  amounts ← lift (calculate_line_amounts (record line { quantity = quantity }))
  update_line_row order.id line.id (λ l. with_amounts (record l { quantity = quantity }) amounts)

unfoldable pub merge_target : SaleLine → AddOrderLineDto → Sale → Option SaleLine
merge_target incoming input order =
    if is_plain_mergeable_line incoming
    then find? (λ l. l.product_variant_id == input.product_variant_id && is_plain_mergeable_line l)
        order.lines
    else none

unfoldable pub add_line_to : Supply → AddOrderLineDto → Sale → M (Unit {0})
add_line_to supply input order = do
  variant ← λ db. lift (require_sellable_variant input.product_variant_id db) db
  let incoming = line_create_data supply.line_id input variant
  elim (merge_target incoming input order) [
    | some line ↦ write_quantity order line (line.quantity +ℤ or_else input.quantity (pos 1))
    | none ↦ do
      amounts ← lift (calculate_line_amounts incoming)
      create_line order.id (with_amounts incoming amounts)
  ]

unfoldable pub add_line : (Db → Db) → Supply → ℕ → AddOrderLineDto → M Sale
add_line others supply cid input = mutate_parked others cid (add_line_to supply input)

pub record UpdateOrderLineDto : Type 0 where
  pub quantity : Option ℤ
  pub discount_kind : Option DiscountKind
  pub preferences : Option (List LinePreference)
  pub preference_note : Option (Option Text)
  pub free_upsize_count : Option ℤ

abbrev pub normalized_or : Option (List LinePreference) → List LinePreference → List LinePreference
normalized_or none current = current
normalized_or (some ps) current = normalize_preferences ps

-- `next` of `updateLine`
unfoldable pub next_line : UpdateOrderLineDto → SaleLine → SaleLine
next_line input l = record l {
  quantity = or_else input.quantity l.quantity;
  discount_kind = or_else input.discount_kind l.discount_kind;
  preferences = normalized_or input.preferences l.preferences;
  preference_note = or_else input.preference_note l.preference_note;
  free_upsize_count = or_else input.free_upsize_count l.free_upsize_count;
}

unfoldable pub update_line_of : ℕ → UpdateOrderLineDto → Sale → M (Unit {0})
update_line_of line_id input order = do
  current ← lift (require_owned_line line_id order)
  amounts ← lift (calculate_line_amounts (next_line input current))
  update_line_row order.id current.id (λ l. with_amounts (next_line input l) amounts)

unfoldable pub update_line : (Db → Db) → ℕ → ℕ → UpdateOrderLineDto → M Sale
update_line others cid line_id input = mutate_parked others cid (update_line_of line_id input)

unfoldable pub increment_line : (Db → Db) → ℕ → ℕ → M Sale
increment_line others cid line_id = mutate_parked others cid λ order. do
  line ← lift (require_owned_line line_id order)
  write_quantity order line (line.quantity +ℤ pos 1)

unfoldable pub decrement_line_of : ℕ → Sale → M (Unit {0})
decrement_line_of line_id order = do
  line ← lift (require_owned_line line_id order)
  if eq_ℤ (line.quantity -ℤ pos 1) (pos 0)
      then delete_line order.id line.id
      else write_quantity order line (line.quantity -ℤ pos 1)

unfoldable pub decrement_line : (Db → Db) → ℕ → ℕ → M (Option Sale)
decrement_line others cid line_id =
    mutate_parked_with_discard others cid (decrement_line_of line_id)

unfoldable pub remove_line_of : ℕ → Sale → M (Unit {0})
remove_line_of line_id order = do
  lift (require_owned_line line_id order)
  delete_line order.id line_id

unfoldable pub remove_line : (Db → Db) → ℕ → ℕ → M (Option Sale)
remove_line others cid line_id = mutate_parked_with_discard others cid (remove_line_of line_id)
