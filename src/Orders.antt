-- ===== src/Orders.antt =====
-- The order service (apps/api/src/orders/orders.service.ts): creating and reading orders, and the frame of
-- every change to a parked one. `others` is what other requests commit between the first reads of
-- a request and the moment it holds its row lock.
pub mod Amounts
pub mod Tender
pub mod Rows
pub mod Pricing
pub mod Settlement
pub mod Lines
pub mod Completion
pub mod Invariant
pub mod Editing
pub mod Frame
pub mod LineEdits
pub mod HeaderEdits
pub mod Keeping
pub mod Creation
pub mod Ending
pub mod Change
pub mod Voiding
pub mod Requests
pub mod Safety
pub mod Behaviour
pub mod Preferences
use coffee_shop_pos_multi_ag.Base.{
  ℕ, ◌+◌, Bool, true, false, not, ◌&&◌, ◌||◌, List, [], ◌∷◌, Option, none, some, find?, filter, map,
  update_where, leb, ◌==◌, if◌then◌else◌, or_else, is_none, ℤ, pos, ◌+ℤ◌, ◌-ℤ◌, eq_ℤ,
}
use coffee_shop_pos_multi_ag.Failure.{
  Result, ok, err, unique_violation, conflict, not_found, no_open_day, order_not_found,
  order_frozen,
}
use coffee_shop_pos_multi_ag.Text.{Text}
use coffee_shop_pos_multi_ag.Store.{
  purchase, parked, ServiceType, dine_in, DiscountKind, LinePreference, TradingDay, SaleLine, Sale,
  Db,
}
use coffee_shop_pos_multi_ag.Store.Calls.{
  M, pure, throw, lift, gets, or_throw, transaction, catch_unique, ◌>>=◌, ◌>>◌, throw_if,
  interleave,
}
use coffee_shop_pos_multi_ag.Store.Queries.{
  ActiveCashier, find_open_day, find_open_day_by_id, active_cashier,
}
use Amounts.{
  LineAmounts, calculate_line_amounts, with_amounts, normalize_preferences, is_plain_mergeable_line,
  is_nil,
}
use Rows.{
  is_parked, is_purchase, find_by_client_id, last_order_number, insert_sale, update_sales,
  delete_sale, create_line, update_line_row, delete_line, recalculate_order,
  require_sellable_variant, AddOrderLineDto, line_create_data, require_owned_line,
}

-- What the database and the clock supply to a request.
pub record Supply : Type 0 where
  pub sale_id : ℕ
  pub line_id : ℕ
  pub void_line_id : ℕ → ℕ
  pub now : ℕ

pub record CreateOrderDto : Type 0 where
  pub client_generated_id : ℕ
  pub device_id : Text
  pub customer_name : Option Text
  pub service_type : Option ServiceType
  pub line : AddOrderLineDto

abbrev pub cashier_id : Option ActiveCashier → Option ℕ
cashier_id none = none
cashier_id (some c) = some c.id

abbrev pub cashier_name : Option ActiveCashier → Option Text
cashier_name none = none
cashier_name (some c) = some c.display_name

unfoldable pub new_order :
    Supply → CreateOrderDto → TradingDay → ℕ → Option ActiveCashier → SaleLine → LineAmounts → Sale
new_order supply input day last cashier line amounts = record {
  id = supply.sale_id;
  client_generated_id = input.client_generated_id;
  location_id = day.location_id;
  trading_day_id = day.id;
  cashier_staff_member_id = cashier_id cashier;
  cashier_name_snapshot = cashier_name cashier;
  kind = purchase;
  corrects_sale_id = none;
  day_order_number = last + 1;
  status = parked;
  customer_name = input.customer_name;
  service_type = or_else input.service_type dine_in;
  subtotal_cents = amounts.line_gross_cents;
  discount_cents = amounts.discount_cents;
  free_upsize_cents = amounts.free_upsize_cents;
  tax_cents = pos 0;
  total_cents = amounts.line_total_cents;
  cash_tip_cents = pos 0;
  cash_received_cents = none;
  change_owed_cents = pos 0;
  change_settled_at = none;
  completed_at = none;
  void_reason = none;
  lines = with_amounts line amounts ∷ [];
  payments = [];
}

-- `if (replay !== null) return replay;`
abbrev pub replay_or : Option Sale → M Sale → M Sale
replay_or (some order) m = pure order
replay_or none m = m

-- The last part of `create`, with the row lock on the day held and no replay found.
unfoldable pub place_order : Supply → CreateOrderDto → TradingDay → M Sale
place_order supply input day = do
  last ← gets λ db. last_order_number day.id db.sales
  variant ← λ db. lift (require_sellable_variant input.line.product_variant_id db) db
  cashier ← gets (active_cashier input.device_id)
  let line = line_create_data supply.line_id input.line variant
  amounts ← lift (calculate_line_amounts line)
  insert_sale (new_order supply input day last cashier line amounts)

unfoldable pub create_locked : Supply → CreateOrderDto → TradingDay → M Sale
unfolding place_order
create_locked supply input day = do
  throw_if (is_none (← gets (find_open_day_by_id day.id))) (conflict no_open_day)
  replay ← gets (find_by_client_id input.client_generated_id)
  replay_or replay (place_order supply input day)

unfoldable pub create_on_open_day : (Db → Db) → Supply → CreateOrderDto → M Sale
unfolding create_locked
create_on_open_day others supply input = do
  day ← λ db. or_throw (find_open_day db) (conflict no_open_day) db
  interleave others
  transaction (create_locked supply input day)

-- The transaction of `create`, which looks for a replay of its own.
unfoldable pub create_transaction : (Db → Db) → Supply → CreateOrderDto → M Sale
unfolding create_on_open_day
create_transaction others supply input = do
  replay ← gets (find_by_client_id input.client_generated_id)
  replay_or replay (create_on_open_day others supply input)

unfoldable pub create : (Db → Db) → Supply → CreateOrderDto → M Sale
unfolding create_transaction
create others supply input = do
  replay ← gets (find_by_client_id input.client_generated_id)
  replay_or replay (
      catch_unique (create_transaction others supply input)
        (λ db. or_throw (find_by_client_id input.client_generated_id db) unique_violation db))

abbrev pub insert_by_number : Sale → List Sale → List Sale
insert_by_number s [] = s ∷ []
insert_by_number s (t ∷ ts) =
    if leb s.day_order_number t.day_order_number then s ∷ t ∷ ts else t ∷ insert_by_number s ts

abbrev pub sort_by_number : List Sale → List Sale
sort_by_number [] = []
sort_by_number (s ∷ ss) = insert_by_number s (sort_by_number ss)

unfoldable pub list_parked : M (List Sale)
list_parked = do
  day ← λ db. or_throw (find_open_day db) (conflict no_open_day) db
  gets λ db. sort_by_number (
      filter (λ s. s.trading_day_id == day.id && (is_purchase s.kind && is_parked s.status))
        db.sales)

-- The purchase with this client id: `get`, and `requireOrder` inside a transaction.
unfoldable pub require_order : ℕ → M Sale
require_order cid = do
  order ← λ db. or_throw (find_by_client_id cid db) (not_found order_not_found) db
  throw_if (not (is_purchase order.kind)) (not_found order_not_found)
  pure order

unfoldable pub lock_and_require_order : (Db → Db) → ℕ → M Sale
unfolding require_order
lock_and_require_order others cid = do require_order cid; interleave others; require_order cid

unfoldable pub require_order_day_open : ℕ → M (Unit {0})
require_order_day_open day_id = do
  throw_if (is_none (← gets (find_open_day_by_id day_id))) (conflict no_open_day)

-- The guards that every change of a parked order passes once it holds the lock.
unfoldable pub check_mutable : Sale → M Sale
unfolding require_order_day_open
check_mutable order = do
  throw_if (not (is_parked order.status)) (conflict order_frozen)
  require_order_day_open order.trading_day_id
  pure order

unfoldable pub edit_order : ℕ → (Sale → M (Unit {0})) → Sale → M Sale
edit_order cid mutation order = do mutation order; recalculate_order order.id; require_order cid

unfoldable pub mutate_parked : (Db → Db) → ℕ → (Sale → M (Unit {0})) → M Sale
mutate_parked others cid mutation = do
  locked ← lock_and_require_order others cid
  order ← check_mutable locked
  transaction (edit_order cid mutation order)

abbrev pub lines_of : ℕ → Db → List SaleLine
lines_of sale_id db = elim (find? (λ s. s.id == sale_id) db.sales) [ none ↦ [] | some s ↦ s.lines ]

-- `recalculateOrder` and the order read again, or the order deleted where no line is left.
unfoldable pub keep_or_discard : ℕ → Sale → M (Option Sale)
unfolding require_order recalculate_order
keep_or_discard cid order = do
  remaining ← gets (lines_of order.id)
  if is_nil remaining
      then (delete_sale order.id >> pure none)
      else (do recalculate_order order.id; updated ← require_order cid; pure (some updated))

unfoldable pub mutate_parked_with_discard : (Db → Db) → ℕ → (Sale → M (Unit {0})) → M (Option Sale)
mutate_parked_with_discard others cid mutation = do
  locked ← lock_and_require_order others cid
  order ← check_mutable locked
  transaction (mutation order >> keep_or_discard cid order)
