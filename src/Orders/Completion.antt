-- ===== src/Orders/Completion.antt =====
-- The end of an order: settling it, voiding it, and handing out the change that was owed
-- (apps/api/src/orders/orders.service.ts).
use coffee_shop_pos_multi_ag.Base.{
  ℕ, ◌+◌, Bool, true, false, not, ◌&&◌, List, [], ◌∷◌, ◌++◌, Option, none, some, any, map, ◌==◌,
  if◌then◌else◌, or_else, is_none, is_some, ℤ, pos, neg_ℤ, leb_ℤ, ltb_ℤ,
}
use coffee_shop_pos_multi_ag.Failure.{
  Result, ok, err, bad_request, conflict, forbidden, unique_violation, order_empty, no_open_day,
  void_not_completed, already_voided, void_open_day_only, void_request_id_in_use,
  settle_not_completed, no_change_owed,
}
use coffee_shop_pos_multi_ag.Text.{Text, trim}
use coffee_shop_pos_multi_ag.Store.{
  void, completed, Role, admin, staff, TradingDay, SaleLine, SalePayment, Sale, Db,
}
use coffee_shop_pos_multi_ag.Store.Calls.{
  M, pure, lift, gets, or_throw, transaction, interleave, ◌>>=◌, ◌>>◌, throw_if,
}
use coffee_shop_pos_multi_ag.Store.Queries.{
  ActiveCashier, find_open_day, find_open_day_by_id, active_cashier,
}
use coffee_shop_pos_multi_ag.Orders.Amounts.{is_nil}
use coffee_shop_pos_multi_ag.Orders.Tender.{CompleteOrderDto, method_eq, validate_tender}
use coffee_shop_pos_multi_ag.Orders.Rows.{
  is_parked, is_purchase, find_by_client_id, last_order_number, insert_sale, update_sales,
  insert_line,
}
use coffee_shop_pos_multi_ag.Orders.{
  Supply, replay_or, cashier_id, cashier_name, require_order, lock_and_require_order,
  require_order_day_open,
}

-- The row of a completed order, with `updateMany` and `createMany` both done.
unfoldable pub settled : ℕ → CompleteOrderDto → Option ℤ → Sale → Sale
settled now input received s = record s {
  status = completed;
  cash_tip_cents = or_else input.cash_tip_cents (pos 0);
  cash_received_cents = received;
  change_owed_cents = or_else input.change_owed_cents (pos 0);
  completed_at = some now;
}

-- The unique key of the payments is the sale and the method.
unfoldable pub create_payments : ℕ → List SalePayment → M (Unit {0})
create_payments sale_id payments = do
  throw_if
      (← gets λ db.
        any
          (λ s.
            s.id == sale_id
            && any (λ p. any (λ q. method_eq p.method q.method) s.payments) payments)
          db.sales)
      unique_violation
  update_sales (λ s. s.id == sale_id) (λ s. record s { payments = s.payments ++ payments })

unfoldable pub settle : ℕ → ℕ → CompleteOrderDto → Option ℤ → Sale → M Sale
settle now cid input received order = do
  count ← gets λ db. any (λ s. s.id == order.id && is_parked s.status) db.sales
  update_sales (λ s. s.id == order.id && is_parked s.status) (settled now input received)
  if count
      then (do create_payments order.id input.payments; require_order cid)
      else require_order cid

-- `complete` once the order is locked.
unfoldable pub complete_locked : Supply → ℕ → CompleteOrderDto → Sale → M Sale
unfolding settle
complete_locked supply cid input order = if not (is_parked order.status) then pure order else (do
  throw_if (is_nil order.lines) (bad_request order_empty)
  require_order_day_open order.trading_day_id
  received ← lift (validate_tender order.total_cents input)
  transaction (settle supply.now cid input received order))

unfoldable pub complete : (Db → Db) → Supply → ℕ → CompleteOrderDto → M Sale
unfolding complete_locked
complete others supply cid input = do
  order ← lock_and_require_order others cid
  complete_locked supply cid input order

pub record VoidOrderDto : Type 0 where
  pub client_generated_id : ℕ
  pub device_id : Text
  pub void_reason : Text

abbrev pub corrects : ℕ → Option ℕ → Bool
corrects id none = false
corrects id (some other) = id == other

-- Does this row void the sale with the client id `original`?
abbrev pub is_void_of : Option Sale → Sale → Bool
is_void_of none existing = false
is_void_of (some original) existing =
    not (is_purchase existing.kind) && corrects original.id existing.corrects_sale_id

unfoldable pub find_void_replay : ℕ → ℕ → Db → Result (Option Sale)
find_void_replay void_cid original_cid db = elim (find_by_client_id void_cid db) [
  | none ↦ ok none
  | some existing ↦
      if is_void_of (find_by_client_id original_cid db) existing
      then ok (some existing)
      else err (conflict void_request_id_in_use)
]

unfoldable pub void_line : (ℕ → ℕ) → SaleLine → SaleLine
void_line new_id l = record l {
  id = new_id l.id;
  quantity = neg_ℤ l.quantity;
  packaging_servings_snapshot = 1;
  line_gross_cents = neg_ℤ l.line_gross_cents;
  discount_cents = neg_ℤ l.discount_cents;
  free_upsize_count = neg_ℤ l.free_upsize_count;
  free_upsize_cents = neg_ℤ l.free_upsize_cents;
  line_total_cents = neg_ℤ l.line_total_cents;
}

unfoldable pub void_lines : (ℕ → ℕ) → List SaleLine → List SaleLine
unfolding void_line insert_line
void_lines new_id [] = []
void_lines new_id (l ∷ ls) = insert_line (void_line new_id l) (void_lines new_id ls)

abbrev pub void_payment : SalePayment → SalePayment
void_payment p = record p { amount_cents = neg_ℤ p.amount_cents }

unfoldable pub void_row :
    Supply → VoidOrderDto → Sale → TradingDay → ℕ → Option ActiveCashier → Sale
unfolding void_lines trim
void_row supply input original day last cashier = record {
  id = supply.sale_id;
  client_generated_id = input.client_generated_id;
  location_id = day.location_id;
  trading_day_id = day.id;
  cashier_staff_member_id = cashier_id cashier;
  cashier_name_snapshot = cashier_name cashier;
  kind = void;
  corrects_sale_id = some original.id;
  day_order_number = last + 1;
  status = completed;
  customer_name = original.customer_name;
  service_type = original.service_type;
  subtotal_cents = neg_ℤ original.subtotal_cents;
  discount_cents = neg_ℤ original.discount_cents;
  free_upsize_cents = neg_ℤ original.free_upsize_cents;
  tax_cents = neg_ℤ original.tax_cents;
  total_cents = neg_ℤ original.total_cents;
  cash_tip_cents = pos 0;
  cash_received_cents = none;
  change_owed_cents = pos 0;
  change_settled_at = none;
  completed_at = none;
  void_reason = some (trim input.void_reason);
  lines = void_lines supply.void_line_id original.lines;
  payments = map void_payment original.payments;
}

abbrev pub is_admin : Role → Bool
is_admin admin = true
is_admin staff = false

-- Is some row the void of this sale?
unfoldable pub has_void : ℕ → Db → Bool
has_void id db = any (λ s. not (is_purchase s.kind) && corrects id s.corrects_sale_id) db.sales

-- `void` with the row of the open day locked, once the original is known to be voidable.
unfoldable pub void_on : Supply → VoidOrderDto → Role → Sale → TradingDay → M Sale
void_on supply input actor original day = do
  throw_if (is_none (← gets (find_open_day_by_id day.id))) (conflict no_open_day)
  throw_if (not (is_admin actor) && not (original.trading_day_id == day.id))
      (forbidden void_open_day_only)
  last ← gets λ db. last_order_number day.id db.sales
  cashier ← gets (active_cashier input.device_id)
  insert_sale (void_row supply input original day last cashier)

-- `void` once the original is locked and the request id is known to be new. `closing` is what others commit while
-- it waits for the row lock on the day, such as the closing of the day.
unfoldable pub void_locked : (Db → Db) → Supply → VoidOrderDto → Role → Sale → M Sale
unfolding void_on
void_locked closing supply input actor original = do
  throw_if (is_parked original.status) (conflict void_not_completed)
  throw_if (← gets (has_void original.id)) (conflict already_voided)
  day ← λ db. or_throw (find_open_day db) (conflict no_open_day) db
  interleave closing
  void_on supply input actor original day

unfoldable pub void_after_lock : (Db → Db) → Supply → ℕ → VoidOrderDto → Role → Sale → M Sale
unfolding void_locked
void_after_lock closing supply original_cid input actor original = do
  replay ← λ db. lift (find_void_replay input.client_generated_id original_cid db) db
  replay_or replay (transaction (void_locked closing supply input actor original))

-- The transaction of `void`, which looks for a replay of its own before it takes the lock.
unfoldable pub void_transaction : (Db → Db) → (Db → Db) → Supply → ℕ → VoidOrderDto → Role → M Sale
unfolding void_after_lock
void_transaction others closing supply original_cid input actor = do
  replay ← λ db. lift (find_void_replay input.client_generated_id original_cid db) db
  replay_or replay (do
    original ← lock_and_require_order others original_cid
    void_after_lock closing supply original_cid input actor original)

unfoldable pub void_order : (Db → Db) → (Db → Db) → Supply → ℕ → VoidOrderDto → Role → M Sale
unfolding void_transaction
void_order others closing supply original_cid input actor = do
  replay ← λ db. lift (find_void_replay input.client_generated_id original_cid db) db
  replay_or replay (void_transaction others closing supply original_cid input actor)

abbrev pub owes_unsettled_change : Sale → Bool
owes_unsettled_change s =
    not (is_parked s.status) && ltb_ℤ (pos 0) s.change_owed_cents && is_none s.change_settled_at

-- `settleChange` once the order is locked.
unfoldable pub settle_change_locked : Supply → ℕ → Sale → M Sale
settle_change_locked supply cid order = do
  throw_if (is_parked order.status) (conflict settle_not_completed)
  throw_if (leb_ℤ order.change_owed_cents (pos 0)) (conflict no_change_owed)
  if is_some order.change_settled_at
      then pure order
      else transaction (do
        update_sales (λ s. s.id == order.id && owes_unsettled_change s)
            (λ s. record s { change_settled_at = some supply.now })
        require_order cid)

unfoldable pub settle_change : (Db → Db) → Supply → ℕ → M Sale
unfolding settle_change_locked
settle_change others supply cid = do
  order ← lock_and_require_order others cid
  settle_change_locked supply cid order
