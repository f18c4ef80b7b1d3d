-- ===== src/Orders/Behaviour.antt =====
-- What the order requests answer: retries of a creation, numbering, and voids.
use mathlib.Core.Path.{subst}
use coffee_shop_pos_multi_ag.Orders.Invariant.{total_of}
use coffee_shop_pos_multi_ag.Orders.Completion.{void_line}
use coffee_shop_pos_multi_ag.Base.{
  ℕ, ◌+◌, ◌≤◌, ◌<◌, ◌≡◌, Option, map, is_some, sym, ◌⊎◌, any, ◌&&◌, refl, inl, inr, true, false,
  ◌||◌, List, [], ◌∷◌, some, All, All-map, filter, max, arith, ◌==◌, Bool-cases, Option-cases, ℤ,
  pos, neg_ℤ, ◌+ℤ◌, int_laws,
}
use coffee_shop_pos_multi_ag.Failure.{Result, ok, err, conflict, already_voided}
use coffee_shop_pos_multi_ag.Store.{parked, completed, TradingDay, SalePayment, Sale, Db, Role}
use coffee_shop_pos_multi_ag.Store.Queries.{
  ActiveCashier, find_open_day, find_open_day_by_id, active_cashier,
}
use coffee_shop_pos_multi_ag.Store.Rules.{Keeps, Post}
use coffee_shop_pos_multi_ag.Orders.Rows.{is_purchase, last_order_number, insert_sale}
use coffee_shop_pos_multi_ag.Orders.{Supply, CreateOrderDto, new_order, place_order, create}
use coffee_shop_pos_multi_ag.Orders.Completion.{
  VoidOrderDto, is_admin, has_void, void_row, void_on, void_locked,
}
use coffee_shop_pos_multi_ag.Orders.Invariant.{Inv}
use coffee_shop_pos_multi_ag.Orders.Settlement.{paid, paid_in_cash}
use coffee_shop_pos_multi_ag.Orders.Keeping.{
  total_of-void_lines, paid-void_payment, paid_in_cash-void_payment,
}
use coffee_shop_pos_multi_ag.Orders.Creation.{Named, create-Post}

Post-value :
    {A : Type 0} (I : Db → Type 0) (Q : A → Db → Type 0) (r : Result A × Db) (a : A) (db : Db)
    → Post I Q r
    → r ≡ (ok a, db)
    → Q a db
Post-value I Q r a db h e = (subst (Post I Q) e h).1

-- A create request that is sent again, with the same id and whatever else, returns the order that
-- the first one returned and changes nothing.
pub create-retry :
    (others others' : Db → Db) (supply supply' : Supply) (input input' : CreateOrderDto)
    (db db' : Db) (r : Sale)
    → Keeps Inv others
    → Inv db
    → create others supply input db ≡ (ok r, db')
    → input'.client_generated_id ≡ input.client_generated_id
    → create others' supply' input' db' ≡ (ok r, db')
unfolding create
create-retry others others' supply supply' input input' db db' r keep v e same =
    let named : Named input.client_generated_id r db' =
      Post-value Inv (Named input.client_generated_id) (create others supply input db) r db'
        (create-Post others keep supply input db v) e in
    rw (same, create) (rw (named, create) refl)

number_bound :
    (day : ℕ) (ss : List Sale)
    → All
        (λ s. s.day_order_number ≤ last_order_number day ss)
        (filter (λ s. s.trading_day_id == day) ss)
unfolding last_order_number
number_bound day [] = tt
number_bound day (s ∷ ss) = elim (Bool-cases (s.trading_day_id == day)) [
  | inl e ↦ rw e (
    omega arith,
    All-map (λ t. t.day_order_number ≤ last_order_number day ss)
        (λ t. t.day_order_number ≤ max s.day_order_number (last_order_number day ss))
        (λ t h. omega (arith, h)) (filter (λ t. t.trading_day_id == day) ss) (number_bound day ss),
  )
  | inr e ↦ rw e (number_bound day ss)
]

-- The row that a void adds, and where: the day that was open and still is once its row is locked.
void_locked_row :
    (closing : Db → Db) (supply : Supply) (input : VoidOrderDto) (actor : Role) (o r : Sale)
    (db db' : Db)
    → void_locked closing supply input actor o db ≡ (ok r, db')
    → (day : TradingDay) × (find_open_day db ≡ some day)
      × (is_some (find_open_day_by_id day.id (closing db)) ≡ true)
      × (o.status ≡ completed)
      × (has_void o.id db ≡ false)
      × ((is_admin actor || o.trading_day_id == day.id) ≡ true)
      × (r
          ≡ void_row supply input o day
              (last_order_number day.id (closing db).sales)
              (active_cashier input.device_id (closing db)))
      × (db' ≡ record (closing db) { sales = r ∷ (closing db).sales })
unfolding void_locked void_on insert_sale
void_locked_row closing supply input actor o r db db' e = elim (Option-cases (find_open_day db)) [
  | inl missing ↦ absurd (ground arith)
  | inr (day, found) ↦ (
    day,
    found,
    ground arith,
    ground arith,
    ground arith,
    ground arith,
    ground arith,
    ground arith,
  )
]

abbrev pub opposite_payment : SalePayment → SalePayment
opposite_payment p = record { method = p.method; amount_cents = neg_ℤ p.amount_cents }

-- What a void row is: on the day, for the order, and the opposite of it in its totals, its payments and the totals
-- of its lines.
pub record IsOpposite (o r : Sale) (day : TradingDay) : Type 0 where
  pub kind : is_purchase r.kind ≡ false
  pub original : r.corrects_sale_id ≡ some o.id
  pub on_day : r.trading_day_id ≡ day.id
  pub final : r.status ≡ completed
  pub subtotal : r.subtotal_cents ≡ neg_ℤ o.subtotal_cents
  pub discount : r.discount_cents ≡ neg_ℤ o.discount_cents
  pub free_upsize : r.free_upsize_cents ≡ neg_ℤ o.free_upsize_cents
  pub tax : r.tax_cents ≡ neg_ℤ o.tax_cents
  pub total : r.total_cents ≡ neg_ℤ o.total_cents
  pub payments : r.payments ≡ map opposite_payment o.payments
  pub lines :
      total_of (λ l. l.line_total_cents) r.lines
      ≡ neg_ℤ (total_of (λ l. l.line_total_cents) o.lines)
  pub servings : total_of (λ l. l.quantity) r.lines ≡ neg_ℤ (total_of (λ l. l.quantity) o.lines)

-- A void goes through only for a completed order that no row voids yet, by an administrator or on
-- the order's own day, and only if the open day is still open once its row is locked; it adds one row to that day,
-- the opposite of the order in its totals and payments, and with the opposite line totals and quantities in sum.
pub void_locked-ok :
    (closing : Db → Db) (supply : Supply) (input : VoidOrderDto) (actor : Role) (o r : Sale)
    (db db' : Db)
    → void_locked closing supply input actor o db ≡ (ok r, db')
    → (day : TradingDay) × (find_open_day db ≡ some day)
      × (is_some (find_open_day_by_id day.id (closing db)) ≡ true)
      × (o.status ≡ completed)
      × (has_void o.id db ≡ false)
      × ((is_admin actor || o.trading_day_id == day.id) ≡ true)
      × IsOpposite o r day
      × (db' ≡ record (closing db) { sales = r ∷ (closing db).sales })
void_locked-ok closing supply input actor o r db db' e =
    let (day, found, still, st, fresh, allowed, row, after) =
      void_locked_row closing supply input actor o r db db' e in
    (
      day,
      found,
      still,
      st,
      fresh,
      allowed,
      subst (λ x. IsOpposite o x day) (sym row)
          (opposite day (last_order_number day.id (closing db).sales)
            (active_cashier input.device_id (closing db))),
      after,
    )
  where
    opposite :
        (day : TradingDay) (last : ℕ) (cashier : Option ActiveCashier)
        → IsOpposite o (void_row supply input o day last cashier) day
    opposite day last cashier =
        unfold void_row in
        record {
          kind = refl;
          original = refl;
          on_day = refl;
          final = refl;
          subtotal = refl;
          discount = refl;
          free_upsize = refl;
          tax = refl;
          total = refl;
          payments = refl;
          lines =
              total_of-void_lines (λ l. l.line_total_cents) supply.void_line_id
                (λ l. unfold void_line in refl) o.lines;
          servings =
              total_of-void_lines (λ l. l.quantity) supply.void_line_id
                (λ l. unfold void_line in refl) o.lines;
        }

has_void-cons :
    (o r : Sale) (db : Db)
    → is_purchase r.kind ≡ false
    → r.corrects_sale_id ≡ some o.id
    → has_void o.id (record db { sales = r ∷ db.sales }) ≡ true
unfolding has_void
has_void-cons o r db k c = ground arith

-- An order that has been voided cannot be voided again, by any request or actor.
pub void_locked_twice :
    (closing closing' : Db → Db) (supply supply' : Supply) (input input' : VoidOrderDto)
    (actor actor' : Role) (o r : Sale) (db db' : Db)
    → void_locked closing supply input actor o db ≡ (ok r, db')
    → void_locked closing' supply' input' actor' o db' ≡ (err (conflict already_voided), db')
unfolding void_locked
void_locked_twice closing closing' supply supply' input input' actor actor' o r db db' e =
    let (day, _, _, st, _, _, opposite, after) =
      void_locked-ok closing supply input actor o r db db' e in
    let voided : has_void o.id db' ≡ true =
      rw after (has_void-cons o r (closing db) opposite.kind opposite.original) in
    rw st (rw (voided, void_locked) refl)

-- The void row takes back every amount of the order: totals, tax and payments.
pub void_locked-cancels :
    (closing : Db → Db) (supply : Supply) (input : VoidOrderDto) (actor : Role) (o r : Sale)
    (db db' : Db)
    → void_locked closing supply input actor o db ≡ (ok r, db')
    → (r.total_cents +ℤ o.total_cents ≡ pos 0)
      × (r.subtotal_cents +ℤ o.subtotal_cents ≡ pos 0)
      × (r.discount_cents +ℤ o.discount_cents ≡ pos 0)
      × (r.free_upsize_cents +ℤ o.free_upsize_cents ≡ pos 0)
      × (r.tax_cents +ℤ o.tax_cents ≡ pos 0)
      × (paid r.payments +ℤ paid o.payments ≡ pos 0)
      × (paid_in_cash r.payments +ℤ paid_in_cash o.payments ≡ pos 0)
unfolding void_row
void_locked-cancels closing supply input actor o r db db' e =
    let (day, _, _, _, _, _, row, _) = void_locked_row closing supply input actor o r db db' e in
    rw row (
      turned o.total_cents,
      turned o.subtotal_cents,
      turned o.discount_cents,
      turned o.free_upsize_cents,
      turned o.tax_cents,
      rw (paid-void_payment o.payments) (turned (paid o.payments)),
      rw (paid_in_cash-void_payment o.payments) (turned (paid_in_cash o.payments)),
    )
  where
    turned : (x : ℤ) → neg_ℤ x +ℤ x ≡ pos 0
    turned x = omega int_laws

-- The last number of a day is one that was given out, or 0 on a day without orders.
last_given :
    (day n : ℕ) (ss : List Sale)
    → last_order_number day ss ≡ n
    → (any (λ s. s.trading_day_id == day && s.day_order_number == n) ss ≡ true)
      ⊎ ((filter (λ s. s.trading_day_id == day) ss ≡ []) × (n ≡ 0))
unfolding last_order_number
last_given day n [] e = inr (refl, ground arith)
last_given day n (s ∷ ss) e = elim (Bool-cases (s.trading_day_id == day)) [
  | inr other ↦ rw other (last_given day n ss (rw other at e))
  | inl own ↦
      let top : max s.day_order_number (last_order_number day ss) ≡ n = rw own at e in
      elim (Bool-cases (s.day_order_number == n)) [
        | inl here ↦ inl (ground arith)
        | inr below ↦ elim (last_given day n ss (ground arith)) [
          | inl there ↦ inl (ground arith)
          | inr (nothing, zero) ↦ absurd (ground arith)
        ]
      ]
]

-- A new order gets the next number of its day: one more than some number given out there before and than every
-- other one, or 1 where there is none.
pub place_order-number :
    (supply : Supply) (input : CreateOrderDto) (day : TradingDay) (db db' : Db) (r : Sale)
    → place_order supply input day db ≡ (ok r, db')
    → (db' ≡ record db { sales = r ∷ db.sales })
      × (r.trading_day_id ≡ day.id)
      × (r.status ≡ parked)
      × All
          (λ s. s.day_order_number < r.day_order_number)
          (filter (λ s. s.trading_day_id == day.id) db.sales)
      × ((any
              (λ s. s.trading_day_id == day.id && s.day_order_number + 1 == r.day_order_number)
              db.sales
            ≡ true)
          ⊎ ((filter (λ s. s.trading_day_id == day.id) db.sales ≡ []) × (r.day_order_number ≡ 1)))
unfolding place_order insert_sale new_order
place_order-number supply input day db db' r e =
    let number : r.day_order_number ≡ last_order_number day.id db.sales + 1 = ground arith in
    (
      ground arith,
      ground arith,
      ground arith,
      All-map (λ t. t.day_order_number ≤ last_order_number day.id db.sales)
          (λ t. t.day_order_number < r.day_order_number) (λ t h. omega (arith, number, h))
          (filter (λ s. s.trading_day_id == day.id) db.sales) (number_bound day.id db.sales),
      elim (last_given day.id (last_order_number day.id db.sales) db.sales refl) [
        | inl given ↦ inl (rw number (next db.sales (last_order_number day.id db.sales) given))
        | inr (nothing, zero) ↦ inr (nothing, omega (arith, number, zero))
      ],
    )
  where
    next :
        (ss : List Sale) (n : ℕ)
        → any (λ s. s.trading_day_id == day.id && s.day_order_number == n) ss ≡ true
        → any (λ s. s.trading_day_id == day.id && s.day_order_number + 1 == n + 1) ss ≡ true
    next [] n h = h
    next (s ∷ ss) n h = ground (arith, next ss n)
