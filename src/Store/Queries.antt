-- ===== src/Store/Queries.antt =====
-- The queries that several services make: the open day, the active staff member, the cashier of a
-- device (apps/api/src/sales/cashier-selection.service.ts).
use coffee_shop_pos_multi_ag.Base.{
  ℕ, Bool, true, false, ◌&&◌, ◌||◌, List, [], ◌∷◌, Option, none, some, find?, ltb, ◌==◌,
  if◌then◌else◌,
}
use coffee_shop_pos_multi_ag.Money.{DayStatus, day_open, day_closed}
use coffee_shop_pos_multi_ag.Text.{Text, text_eq}
use coffee_shop_pos_multi_ag.Store.{TradingDay, StaffMember, CashierSelection, Db}

abbrev pub is_day_open : DayStatus → Bool
is_day_open day_open = true
is_day_open day_closed = false

-- The row of `rows` that meets `p` and comes first in the order that `before` decides.
unfoldable pub first_by {ℓ} : {A : Type ℓ} → (A → A → Bool) → (A → Bool) → List A → Option A
first_by before p [] = none
first_by before p (x ∷ xs) =
    let rest = first_by before p xs in
    if p x
    then elim rest [ none ↦ some x | some y ↦ if before y x then some y else some x ]
    else rest

abbrev pub opened_later : TradingDay → TradingDay → Bool
opened_later a b = ltb b.opened_at a.opened_at

-- `findFirst({ where: { status: OPEN }, orderBy: { openedAt: 'desc' } })`
unfoldable pub find_open_day : Db → Option TradingDay
unfolding first_by
find_open_day db = first_by opened_later (λ d. is_day_open d.status) db.days

-- `findFirst({ where: { id, status: OPEN } })`
unfoldable pub find_open_day_by_id : ℕ → Db → Option TradingDay
find_open_day_by_id id db = find? (λ d. d.id == id && is_day_open d.status) db.days

unfoldable pub find_active_staff : ℕ → Db → Option StaffMember
find_active_staff id db = find? (λ m. m.id == id && m.is_active) db.staff_members

pub record ActiveCashier : Type 0 where
  pub id : ℕ
  pub display_name : Text

abbrev pub selected_later : CashierSelection → CashierSelection → Bool
selected_later a b =
    ltb b.selected_at a.selected_at || a.selected_at == b.selected_at && ltb b.id a.id

abbrev pub cashier_if_active : Option StaffMember → Option ActiveCashier
cashier_if_active none = none
cashier_if_active (some m) =
    if m.is_active then some (record { id = m.id; display_name = m.display_name }) else none

abbrev pub selected_member : Option CashierSelection → Option ℕ
selected_member none = none
selected_member (some s) = s.staff_member_id

abbrev pub member_of : Option ℕ → Db → Option StaffMember
member_of none db = none
member_of (some id) db = find? (λ m. m.id == id) db.staff_members

unfoldable pub active_cashier : Text → Db → Option ActiveCashier
unfolding first_by text_eq
active_cashier device_id db = cashier_if_active (
    member_of
      (selected_member
        (first_by selected_later (λ s. text_eq s.device_id device_id) db.cashier_selections))
      db)

-- `appendSelection`, with the id and the time that the database gives the row.
unfoldable pub append_selection : CashierSelection → Db → Db
append_selection s db = record db { cashier_selections = s ∷ db.cashier_selections }
