-- ===== src/TradingDay/Closing.antt =====
-- What closing a day does when it succeeds.
use coffee_shop_pos_multi_ag.Base.{
  ℕ, ◌≡◌, refl, sym, Bool, true, false, List, [], ◌∷◌, some, any, find?, find?-sound, All,
  update_where, arith, Bool-cases, Option-cases, inl, inr, neg_ℤ,
}
use coffee_shop_pos_multi_ag.Failure.{Result, ok, err}
use coffee_shop_pos_multi_ag.Money.{day_closed, CashReconciliation, add_money}
use coffee_shop_pos_multi_ag.Store.{TradingDay, StaffMember, DayClosing, DayClosingLine, Db}
use coffee_shop_pos_multi_ag.Store.Queries.{find_active_staff}
use coffee_shop_pos_multi_ag.TradingDay.{
  Supply, is_open_row, close_row, write_closing, insert_closing, insert_count, new_closing,
  close_locked, the_variance,
}
use coffee_shop_pos_multi_ag.TradingDay.Input.{CloseBusinessDayDto, CloseInput}
use coffee_shop_pos_multi_ag.TradingDay.Cash.{calculate_cash}
use coffee_shop_pos_multi_ag.Store.Calls.{lift, ◌>>=◌}
use coffee_shop_pos_multi_ag.TradingDay.Drawer.{calculate_cash-variance}

-- What a closing stores: the float of its day, the drawer as it is worked out at that moment from the
-- day's sales and current movements, the cash that was counted, and counted less expected.
pub record IsClosing (d : TradingDay) (input : CloseBusinessDayDto) (r : DayClosing) (db : Db)
    : Type 0 where
  pub cash : CashReconciliation
  pub worked_out : calculate_cash d day_closed (some input.actual_cash_cents) db ≡ ok cash
  pub day : r.trading_day_id ≡ d.id
  pub opening : r.opening_float_cents ≡ d.opening_float_cents
  pub cash_sales : r.cash_sales_cents ≡ cash.cash_sales_cents
  pub online_sales : r.online_sales_cents ≡ cash.online_sales_cents
  pub tips : r.cash_tips_cents ≡ cash.tips_cents
  pub cash_in : r.cash_in_cents ≡ cash.cash_in_cents
  pub cash_out : r.cash_out_cents ≡ cash.cash_out_cents
  pub expenses : r.cash_expenses_cents ≡ cash.cash_expenses_cents
  pub outstanding : r.outstanding_change_cents ≡ cash.outstanding_change_cents
  pub expected : r.expected_cash_cents ≡ cash.expected_cash_cents
  pub actual : r.actual_cash_cents ≡ input.actual_cash_cents
  pub variance :
      add_money (input.actual_cash_cents ∷ neg_ℤ cash.expected_cash_cents ∷ [])
      ≡ ok r.variance_cents

new_closing-IsClosing :
    (supply : Supply) (input : CloseBusinessDayDto) (checked : CloseInput) (d : TradingDay)
    (closer : StaffMember) (cash : CashReconciliation) (lines : List DayClosingLine) (db : Db)
    → calculate_cash d day_closed (some input.actual_cash_cents) db ≡ ok cash
    → IsClosing d input
        (new_closing supply input checked d closer cash (the_variance cash.variance_cents) lines)
        db
unfolding new_closing
new_closing-IsClosing supply input checked d closer cash lines db e =
    let (v, is_v, added) = calculate_cash-variance d input.actual_cash_cents db cash e in
    record {
      cash = cash;
      worked_out = e;
      day = refl;
      opening = refl;
      cash_sales = refl;
      online_sales = refl;
      tips = refl;
      cash_in = refl;
      cash_out = refl;
      expenses = refl;
      outstanding = refl;
      expected = refl;
      actual = refl;
      variance = rw is_v added;
    }

none_left_open :
    (now closer id : ℕ) (ds : List TradingDay)
    → All (λ e. is_open_row id e ≡ false) (update_where (is_open_row id) (close_row now closer) ds)
unfolding close_row
none_left_open now closer id [] = tt
none_left_open now closer id (d ∷ ds) = (ground arith, none_left_open now closer id ds)

found_any :
    (p : TradingDay → Bool) (ds : List TradingDay) (d : TradingDay)
    → find? p ds ≡ some d
    → any p ds ≡ true
found_any p [] d e = absurd (ground arith)
found_any p (x ∷ ds) d e = elim (Bool-cases (p x)) [
  | inl h ↦ ground arith
  | inr h ↦ ground (arith, found_any p ds d (ground arith))
]

-- The writes of `close`, while a row of the day is open.
write_closing-ok :
    (supply : Supply) (input : CloseBusinessDayDto) (checked : CloseInput) (d : TradingDay)
    (closer : StaffMember) (cash : CashReconciliation) (lines : List DayClosingLine) (db db' : Db)
    (r : DayClosing)
    → any (is_open_row d.id) db.days ≡ true
    → write_closing supply input checked d closer cash lines db ≡ (ok r, db')
    → (r ≡ new_closing supply input checked d closer cash (the_variance cash.variance_cents) lines)
      × (db'.day_closings ≡ r ∷ db.day_closings)
      × (db'.days ≡ update_where (is_open_row d.id) (close_row supply.now closer.id) db.days)
unfolding write_closing insert_closing insert_count
write_closing-ok supply input checked d closer cash lines db db' r h e =
    (ground arith, ground arith, ground arith)

-- Where a request finds its day open and succeeds, it stores one closing of that day, with the cash as
-- it is worked out at that moment, the variance as counted less expected, and the packaging lines of
-- that moment; no row of the day is left open.
pub close_locked-ok :
    (packaging_of : TradingDay → Db → List DayClosingLine) (supply : Supply)
    (input : CloseBusinessDayDto) (checked : CloseInput) (initially_open d : TradingDay)
    (db db' : Db) (r : DayClosing)
    → find? (is_open_row initially_open.id) db.days ≡ some d
    → close_locked packaging_of supply input checked initially_open db ≡ (ok r, db')
    → IsClosing d input r db
      × (r.lines ≡ packaging_of d db)
      × (db'.day_closings ≡ r ∷ db.day_closings)
      × All (λ e. is_open_row d.id e ≡ false) db'.days
unfolding close_locked
close_locked-ok packaging_of supply input checked initially_open d db db' r found e =
    elim (Option-cases (find_active_staff checked.closed_by db)) [
      | inl missing ↦ absurd (ground arith)
      | inr (closer, active) ↦
          written closer (calculate_cash d day_closed (some input.actual_cash_cents) db) refl
            (ground arith)
    ]
  where
    same_id : initially_open.id ≡ d.id
    same_id = sym (ground (arith, find?-sound (is_open_row initially_open.id) db.days d found))

    written :
        (closer : StaffMember) (c : Result CashReconciliation)
        → calculate_cash d day_closed (some input.actual_cash_cents) db ≡ c
        → (lift c >>= λ cash db'.
              write_closing supply input checked d closer cash (packaging_of d db') db')
            db
          ≡ (ok r, db')
        → IsClosing d input r db
          × (r.lines ≡ packaging_of d db)
          × (db'.day_closings ≡ r ∷ db.day_closings)
          × All (λ e. is_open_row d.id e ≡ false) db'.days
    written closer (err x) worked_out w = absurd (ground arith)
    written closer (ok cash) worked_out w =
        let (row, closings, days) =
          write_closing-ok supply input checked d closer cash (packaging_of d db) db db' r
            (rw same_id at (found_any (is_open_row initially_open.id) db.days d found)) w in
        (
          rw row (
              new_closing-IsClosing supply input checked d closer cash (packaging_of d db) db
                worked_out),
          rw row (unfold new_closing in refl),
          closings,
          rw days (none_left_open supply.now closer.id d.id db.days),
        )
