-- ===== src/Tests/OrderExamples.antt =====
-- Examples of the order service.
use coffee_shop_pos_multi_ag.Orders.Completion.{settled}
use coffee_shop_pos_multi_ag.Orders.Completion.{create_payments}
use coffee_shop_pos_multi_ag.Orders.{require_order_day_open}
use coffee_shop_pos_multi_ag.Orders.{lock_and_require_order}
use coffee_shop_pos_multi_ag.Orders.Preferences.{is_chosen, normalize_preferences-set}
use coffee_shop_pos_multi_ag.Store.{LinePreference, sweeter, stronger, less_sweet, less_ice}
use coffee_shop_pos_multi_ag.Orders.Amounts.{normalize_preferences}
use coffee_shop_pos_multi_ag.Orders.Amounts.{statutory_discount}
use coffee_shop_pos_multi_ag.Orders.{new_order}
use coffee_shop_pos_multi_ag.Number.{
  mul, sub, add, round, round_ℕ, spacing, nearest, floor_quotient, floor_scaled,
}
use coffee_shop_pos_multi_ag.Orders.Rows.{insert_sale}
use coffee_shop_pos_multi_ag.Orders.Rows.{require_sellable_variant}
use coffee_shop_pos_multi_ag.Store.Queries.{find_open_day_by_id}
use coffee_shop_pos_multi_ag.Base.{
  is_some, any, ◌&&◌, ◌⊎◌, ◌+◌, arith, ◌≡◌, refl, true, none, some, [], ◌∷◌, pos, ◌+ℤ◌, ◌-ℤ◌, ◌*ℤ◌,
  All, ◌<◌, ◌==◌, ◌||◌, false, map, filter,
}
use coffee_shop_pos_multi_ag.Failure.{ok, err, conflict, already_voided}
use coffee_shop_pos_multi_ag.Store.{Sale, SaleLine, Db, TradingDay, parked, staff, admin, completed}
use coffee_shop_pos_multi_ag.Orders.{create, place_order}
use coffee_shop_pos_multi_ag.Orders.Amounts.{LineAmounts, calculate_line_amounts}
use coffee_shop_pos_multi_ag.Orders.Tender.{
  validate_tender, has_repeats, sum_payments, validate_cash,
}
use coffee_shop_pos_multi_ag.Orders.Lines.{add_line_to}
use coffee_shop_pos_multi_ag.Orders.{mutate_parked, mutate_parked_with_discard}
use coffee_shop_pos_multi_ag.Failure.{order_frozen}
use coffee_shop_pos_multi_ag.Orders.Completion.{complete, is_admin, has_void, void_locked, void_row}
use coffee_shop_pos_multi_ag.Orders.Rows.{find_by_client_id, last_order_number, line_create_data}
use coffee_shop_pos_multi_ag.Store.Queries.{find_open_day, active_cashier}
use coffee_shop_pos_multi_ag.Orders.Requests.{run}
use coffee_shop_pos_multi_ag.Orders.Invariant.{Inv}
use coffee_shop_pos_multi_ag.Orders.Settlement.{
  paid, paid_in_cash, IsSettled, validate_tender-IsSettled,
}
use coffee_shop_pos_multi_ag.Orders.Pricing.{
  IsSellable, IsPriced, IsModest, calculate_line_amounts-total, calculate_line_amounts_sound,
}
use coffee_shop_pos_multi_ag.Orders.Safety.{run-Inv}
use mathlib.Core.Path.{subst}
use coffee_shop_pos_multi_ag.Store.Rules.{Post, Post-keeps}
use coffee_shop_pos_multi_ag.Orders.Creation.{Named, create-Post}
use coffee_shop_pos_multi_ag.Orders.Ending.Frozen.{complete-retry, mutate_parked-frozen}
use coffee_shop_pos_multi_ag.Orders.Behaviour.{
  create-retry, place_order-number, IsOpposite, void_locked-ok, void_locked-cancels,
  void_locked_twice,
}
use coffee_shop_pos_multi_ag.Tests.{
  day, latte, morning, supply, senior_latte, new_latte, in_cash, take_back, busy, alone, order_500,
  paid_500, with_sales,
}

morning-Inv : Inv morning
morning-Inv = record { balanced = tt; apart = tt }

run-Inv_example : Inv (run busy morning)
run-Inv_example = run-Inv busy morning morning-Inv

tendered : validate_tender (pos 24600) (in_cash (pos 24600)) ≡ ok (some (pos 50000))
unfolding validate_tender has_repeats sum_payments ◌+ℤ◌ validate_cash ◌-ℤ◌ sub round round_ℕ spacing
    nearest
tendered = refl

validate_tender-IsSettled_example : IsSettled (pos 24600) (in_cash (pos 24600)) (some (pos 50000))
validate_tender-IsSettled_example =
    validate_tender-IsSettled (pos 24600) (in_cash (pos 24600)) (some (pos 50000)) (omega arith)
      tendered

created :
    create alone (supply 1) (new_latte 500) morning ≡ (ok order_500, with_sales (order_500 ∷ []))
unfolding create find_by_client_id find_open_day find_open_day_by_id require_sellable_variant
    calculate_line_amounts line_create_data ◌*ℤ◌ insert_sale new_order active_cashier
    last_order_number statutory_discount ◌-ℤ◌ ◌+ℤ◌ mul sub round round_ℕ spacing nearest
    floor_quotient floor_scaled
created = refl

nobody-Inv : (db : Db) → Inv db → Inv (alone db)
nobody-Inv db v = v

-- The same request again, now with another drink in it, while order 501 is made.
create-retry_example :
    create alone
      (supply 2)
      (record (new_latte 500) { line = senior_latte })
      (with_sales (order_500 ∷ []))
    ≡ (ok order_500, with_sales (order_500 ∷ []))
create-retry_example =
    create-retry alone alone (supply 1) (supply 2) (new_latte 500)
      (record (new_latte 500) { line = senior_latte }) morning (with_sales (order_500 ∷ []))
      order_500 nobody-Inv morning-Inv created refl

order_501 : Sale
order_501 = record order_500 {
  id = 2;
  client_generated_id = 501;
  day_order_number = 2;
  lines = map (λ (l : SaleLine). record l { id = 2 }) order_500.lines;
}

placed :
    place_order (supply 2) (new_latte 501) day (with_sales (order_500 ∷ []))
    ≡ (ok order_501, with_sales (order_501 ∷ order_500 ∷ []))
unfolding place_order require_sellable_variant calculate_line_amounts line_create_data ◌*ℤ◌
    insert_sale new_order active_cashier last_order_number statutory_discount ◌-ℤ◌ ◌+ℤ◌ mul sub
    round round_ℕ spacing nearest floor_quotient floor_scaled order_501
placed = refl

place_order-number_example :
    (with_sales (order_501 ∷ order_500 ∷ [])
      ≡ record (with_sales (order_500 ∷ [])) { sales = order_501 ∷ order_500 ∷ [] })
    × (order_501.trading_day_id ≡ day.id)
    × (order_501.status ≡ parked)
    × All
        (λ s. s.day_order_number < order_501.day_order_number)
        (filter (λ s. s.trading_day_id == day.id) (order_500 ∷ []))
    × ((any
            (λ s.
              s.trading_day_id == day.id && s.day_order_number + 1 == order_501.day_order_number)
            (order_500 ∷ [])
          ≡ true)
        ⊎ ((filter (λ s. s.trading_day_id == day.id) (order_500 ∷ []) ≡ [])
            × (order_501.day_order_number ≡ 1)))
place_order-number_example =
    place_order-number (supply 2) (new_latte 501) day (with_sales (order_500 ∷ []))
      (with_sales (order_501 ∷ order_500 ∷ [])) order_501 placed

parked-Inv : Inv (with_sales (order_500 ∷ []))
parked-Inv =
    Post-keeps Inv (Named 500) (ok order_500, with_sales (order_500 ∷ []))
      (subst (Post Inv (Named 500)) created
        (create-Post alone nobody-Inv (supply 1) (new_latte 500) morning morning-Inv))

completed_500 :
    complete alone (supply 4) 500 (in_cash (pos 15000)) (with_sales (order_500 ∷ []))
    ≡ (ok paid_500, with_sales (paid_500 ∷ []))
unfolding complete lock_and_require_order find_by_client_id require_order_day_open
    find_open_day_by_id validate_tender has_repeats sum_payments ◌+ℤ◌ validate_cash ◌-ℤ◌
    create_payments settled
completed_500 = refl

found_paid : find_by_client_id 500 (with_sales (paid_500 ∷ [])) ≡ some paid_500
unfolding find_by_client_id
found_paid = refl

complete-retry_example :
    complete alone (supply 9) 500 (in_cash (pos 1)) (with_sales (paid_500 ∷ []))
    ≡ (ok paid_500, with_sales (paid_500 ∷ []))
complete-retry_example =
    complete-retry alone nobody-Inv (supply 4) 500 (in_cash (pos 15000))
      (with_sales (order_500 ∷ [])) (with_sales (paid_500 ∷ [])) paid_500 parked-Inv completed_500
      alone (supply 9) (in_cash (pos 1)) found_paid

mutate_parked-frozen_example :
    (mutate_parked alone 500 (add_line_to (supply 2) senior_latte) (with_sales (paid_500 ∷ []))
      ≡ (err (conflict order_frozen), with_sales (paid_500 ∷ [])))
    × (mutate_parked_with_discard alone 500
          (add_line_to (supply 2) senior_latte)
          (with_sales (paid_500 ∷ []))
        ≡ (err (conflict order_frozen), with_sales (paid_500 ∷ [])))
mutate_parked-frozen_example =
    mutate_parked-frozen alone nobody-Inv (supply 4) 500 (in_cash (pos 15000))
      (with_sales (order_500 ∷ [])) (with_sales (paid_500 ∷ [])) paid_500 parked-Inv completed_500
      alone (add_line_to (supply 2) senior_latte) found_paid

void_500 : Sale
void_500 = void_row (supply 5) (take_back 600) paid_500 day 1 none

voided :
    void_locked alone (supply 5) (take_back 600) staff paid_500 (with_sales (paid_500 ∷ []))
    ≡ (ok void_500, with_sales (void_500 ∷ paid_500 ∷ []))
unfolding void_locked void_500 has_void find_open_day find_open_day_by_id insert_sale void_row
    last_order_number active_cashier
voided = refl

void_locked-ok_example :
    (today : TradingDay) × (find_open_day (with_sales (paid_500 ∷ [])) ≡ some today)
    × (is_some (find_open_day_by_id today.id (with_sales (paid_500 ∷ []))) ≡ true)
    × (paid_500.status ≡ completed)
    × (has_void paid_500.id (with_sales (paid_500 ∷ [])) ≡ false)
    × ((is_admin staff || paid_500.trading_day_id == today.id) ≡ true)
    × IsOpposite paid_500 void_500 today
    × (with_sales (void_500 ∷ paid_500 ∷ [])
        ≡ record (with_sales (paid_500 ∷ [])) { sales = void_500 ∷ paid_500 ∷ [] })
void_locked-ok_example =
    void_locked-ok alone (supply 5) (take_back 600) staff paid_500 void_500
      (with_sales (paid_500 ∷ [])) (with_sales (void_500 ∷ paid_500 ∷ [])) voided

void_locked_twice_example :
    void_locked alone
      (supply 6)
      (take_back 601)
      admin
      paid_500
      (with_sales (void_500 ∷ paid_500 ∷ []))
    ≡ (err (conflict already_voided), with_sales (void_500 ∷ paid_500 ∷ []))
void_locked_twice_example =
    void_locked_twice alone alone (supply 5) (supply 6) (take_back 600) (take_back 601) staff admin
      paid_500 void_500 (with_sales (paid_500 ∷ [])) (with_sales (void_500 ∷ paid_500 ∷ [])) voided

void_locked-cancels_example :
    (void_500.total_cents +ℤ paid_500.total_cents ≡ pos 0)
    × (void_500.subtotal_cents +ℤ paid_500.subtotal_cents ≡ pos 0)
    × (void_500.discount_cents +ℤ paid_500.discount_cents ≡ pos 0)
    × (void_500.free_upsize_cents +ℤ paid_500.free_upsize_cents ≡ pos 0)
    × (void_500.tax_cents +ℤ paid_500.tax_cents ≡ pos 0)
    × (paid void_500.payments +ℤ paid paid_500.payments ≡ pos 0)
    × (paid_in_cash void_500.payments +ℤ paid_in_cash paid_500.payments ≡ pos 0)
void_locked-cancels_example =
    void_locked-cancels alone (supply 5) (take_back 600) staff paid_500 void_500
      (with_sales (paid_500 ∷ [])) (with_sales (void_500 ∷ paid_500 ∷ [])) voided

-- One latte for a senior with a free upsize, before it is priced.
senior_line : SaleLine
senior_line = line_create_data 2 senior_latte latte

senior_amounts : LineAmounts
senior_amounts = record {
  line_gross_cents = pos 15000;
  free_upsize_cents = pos 3000;
  discount_cents = pos 2400;
  line_total_cents = pos 9600;
}

senior_priced : calculate_line_amounts senior_line ≡ ok senior_amounts
unfolding calculate_line_amounts senior_line senior_amounts line_create_data ◌*ℤ◌ statutory_discount
    ◌-ℤ◌ ◌+ℤ◌ mul sub add round round_ℕ spacing nearest floor_quotient floor_scaled
senior_priced = refl

senior_line-IsModest : IsModest senior_line
unfolding senior_line line_create_data ◌*ℤ◌
senior_line-IsModest = omega arith

senior_line-IsSellable : IsSellable senior_line
senior_line-IsSellable =
    (calculate_line_amounts_sound senior_line senior_amounts senior_priced senior_line-IsModest).0

calculate_line_amounts_sound_example : IsSellable senior_line × IsPriced senior_line senior_amounts
calculate_line_amounts_sound_example =
    calculate_line_amounts_sound senior_line senior_amounts senior_priced senior_line-IsModest

calculate_line_amounts-total_example :
    (a : LineAmounts) × (calculate_line_amounts senior_line ≡ ok a) × IsPriced senior_line a
calculate_line_amounts-total_example =
    calculate_line_amounts-total senior_line senior_line-IsSellable senior_line-IsModest

chosen_alike :
    (p : LinePreference)
    → is_chosen p (less_ice ∷ sweeter ∷ less_ice ∷ []) ≡ is_chosen p (sweeter ∷ less_ice ∷ [])
chosen_alike sweeter = refl
chosen_alike stronger = refl
chosen_alike less_sweet = refl
chosen_alike less_ice = refl

normalize_preferences-set_example :
    normalize_preferences (less_ice ∷ sweeter ∷ less_ice ∷ [])
    ≡ normalize_preferences (sweeter ∷ less_ice ∷ [])
normalize_preferences-set_example =
    normalize_preferences-set (less_ice ∷ sweeter ∷ less_ice ∷ []) (sweeter ∷ less_ice ∷ [])
      chosen_alike
