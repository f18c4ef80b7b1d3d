-- ===== src/TradingDay/Ending.antt =====
-- Closing a day keeps the invariant of the trading days.
use coffee_shop_pos_multi_ag.Base.{
  ℕ, ◌≡◌, true, not, List, ◌∷◌, Option, none, some, any, find?, All-map, update_where, arith, ◌==◌,
  Bool-cases, inl, inr,
}
use coffee_shop_pos_multi_ag.Failure.{ok, Error, unique_violation, no_open_day, already_closed}
use coffee_shop_pos_multi_ag.Money.{day_closed, CashReconciliation}
use coffee_shop_pos_multi_ag.Store.{
  TradingDay, StaffMember, CashCount, DayClosing, DayClosingLine, Db,
}
use coffee_shop_pos_multi_ag.Store.Calls.{M, lift, or_throw, transaction, ◌>>=◌, ◌>>◌}
use coffee_shop_pos_multi_ag.Store.Rules.{
  Keeps, Post, Post-lift, Post-throw_if, Post-or_throw, Post-transaction, Post-if, Post-bind,
}
use coffee_shop_pos_multi_ag.Store.Queries.{find_open_day, find_active_staff}
use coffee_shop_pos_multi_ag.TradingDay.Input.{
  CloseBusinessDayDto, CloseInput, validate_close_input,
}
use coffee_shop_pos_multi_ag.TradingDay.Cash.{calculate_cash}
use coffee_shop_pos_multi_ag.TradingDay.{
  Supply, closing_clashes, close_row, is_open_row, write_closing, close_locked, close_open_day,
  close_day, closing_or, find_closing, find_closing_of_day, the_variance, insert_count,
  insert_closing, new_closing,
}
use coffee_shop_pos_multi_ag.TradingDay.Invariant.{
  DayInv, All-any, is_closed_row, close-Pairwise, close-closed, close-closes,
}
use coffee_shop_pos_multi_ag.TradingDay.Keeping.{Any, or_throw-Post}

abbrev closed_days : ℕ → ℕ → ℕ → Db → Db
closed_days now closer day db = record db {
  days = update_where (is_open_row day) (close_row now closer) db.days;
}

closed_days-DayInv :
    (now closer day : ℕ) (db : Db) → DayInv db → DayInv (closed_days now closer day db)
closed_days-DayInv now closer day db v = record {
  days_apart = close-Pairwise now closer day db.days v.days_apart;
  closings_apart = v.closings_apart;
  movements_apart = v.movements_apart;
  closings_closed =
      All-map (λ c. any (is_closed_row c.trading_day_id) db.days ≡ true)
        (λ c. any (is_closed_row c.trading_day_id) (closed_days now closer day db).days ≡ true)
        (λ c h. close-closed now closer day c.trading_day_id db.days h) db.day_closings
        v.closings_closed;
}

insert_closing-Post :
    (c : DayClosing) (db : Db)
    → DayInv db
    → any (is_closed_row c.trading_day_id) db.days ≡ true
    → Post DayInv Any (insert_closing c db)
unfolding insert_closing
insert_closing-Post c db v h = elim (Bool-cases (any (closing_clashes c) db.day_closings)) [
  | inl e ↦ rw e v
  | inr e ↦ rw e (
    record {
      days_apart = v.days_apart;
      closings_apart = (All-any (closing_clashes c) db.day_closings e, v.closings_apart);
      movements_apart = v.movements_apart;
      closings_closed = (h, v.closings_closed);
    },
    tt,
  )
]

counted :
    (db : Db) (counts : List CashCount) → DayInv db → DayInv (record db { cash_counts = counts })
counted db counts v = record {
  days_apart = v.days_apart;
  closings_apart = v.closings_apart;
  movements_apart = v.movements_apart;
  closings_closed = v.closings_closed;
}

abbrev pub HasClosed : ℕ → Unit {0} → Db → Type 0
HasClosed day u db = any (is_closed_row day) db.days ≡ true

insert_count-Post :
    (c : CashCount) (day : ℕ) (db : Db)
    → DayInv db
    → any (is_closed_row day) db.days ≡ true
    → Post DayInv (HasClosed day) (insert_count c db)
unfolding insert_count
insert_count-Post c day db v h =
    Post-throw_if DayInv (HasClosed day) (any (λ e. c.id == e.id) db.cash_counts) unique_violation
      (λ _ db'. (ok tt, record db' { cash_counts = c ∷ db'.cash_counts })) db v
      λ _. (counted db _ v, h)

write_closing-Post :
    (supply : Supply) (input : CloseBusinessDayDto) (checked : CloseInput) (day : TradingDay)
    (closer : StaffMember) (cash : CashReconciliation) (packaging : List DayClosingLine) (db : Db)
    → DayInv db
    → Post DayInv Any (write_closing supply input checked day closer cash packaging db)
unfolding write_closing insert_count new_closing
write_closing-Post supply input checked day closer cash packaging db v =
    Post-if DayInv Any (not (any (is_open_row day.id) db.days)) raced insert
      (closed_days supply.now closer.id day.id db) (λ _. or_throw-Post _ _ _ w)
      λ e.
        Post-bind DayInv (HasClosed day.id) Any (insert_count count) (λ _. insert_closing closing)
          (closed_days supply.now closer.id day.id db)
          (insert_count-Post count day.id (closed_days supply.now closer.id day.id db) w
            (close-closes supply.now closer.id day.id db.days (ground arith)))
          λ _ db' v' h. insert_closing-Post closing db' v' h
  where
    w : DayInv (closed_days supply.now closer.id day.id db)
    w = closed_days-DayInv supply.now closer.id day.id db v

    raced : M DayClosing
    raced db' = or_throw (find_closing_of_day day.id db') (Error.conflict already_closed) db'

    closing : DayClosing
    closing =
        new_closing supply input checked day closer cash (the_variance cash.variance_cents)
          packaging

    count : CashCount
    count = record {
      id = supply.cash_count_id;
      trading_day_id = day.id;
      counted_cents = input.actual_cash_cents;
      counted_at = supply.now;
      counted_by_staff_member_id = closer.id;
    }

    insert : M DayClosing
    insert = insert_count count >> insert_closing closing

module _ (packaging_of : TradingDay → Db → List DayClosingLine) where
  close_locked-Post :
      (supply : Supply) (input : CloseBusinessDayDto) (checked : CloseInput)
      (initially_open : TradingDay) (db : Db)
      → DayInv db
      → Post DayInv Any (close_locked packaging_of supply input checked initially_open db)
  unfolding close_locked
  close_locked-Post supply input checked initially_open db v =
      Post-or_throw DayInv Any (find_active_staff checked.closed_by db) _ close_now db v
        λ closer _. closed (find? (is_open_row initially_open.id) db.days) closer
    where
      close_row_of : StaffMember → TradingDay → M DayClosing
      close_row_of closer d =
          (λ db'. lift (calculate_cash d day_closed (some input.actual_cash_cents) db') db')
          >>= λ cash db'. write_closing supply input checked d closer cash (packaging_of d db') db'

      close_found : StaffMember → Option TradingDay → M DayClosing
      close_found closer day = elim day [
        | none ↦ λ db'.
            or_throw (find_closing_of_day initially_open.id db') (Error.conflict no_open_day) db'
        | some d ↦ close_row_of closer d
      ]

      close_now : StaffMember → M DayClosing
      close_now closer db' = close_found closer (find? (is_open_row initially_open.id) db'.days) db'

      closed :
          (day : Option TradingDay) (closer : StaffMember)
          → Post DayInv Any (close_found closer day db)
      closed none closer = or_throw-Post (find_closing_of_day initially_open.id db) _ db v
      closed (some d) closer =
          Post-lift DayInv Any (calculate_cash d day_closed (some input.actual_cash_cents) db)
            (λ cash db'. write_closing supply input checked d closer cash (packaging_of d db') db')
            db v
            λ cash _. write_closing-Post supply input checked d closer cash (packaging_of d db) db v

  closing_or-Post :
      (replay : Option DayClosing) (m : M DayClosing) (db : Db)
      → DayInv db
      → Post DayInv Any (m db)
      → Post DayInv Any (closing_or packaging_of replay m db)
  closing_or-Post none m db v h = h
  closing_or-Post (some c) m db v h = (v, tt)

  pub close_day-Post :
      (others : Db → Db) (keep : Keeps DayInv others) (supply : Supply)
      (input : CloseBusinessDayDto) (db : Db) (v : DayInv db)
      → Post DayInv Any (close_day packaging_of others supply input db)
  unfolding close_day close_open_day
  close_day-Post others keep supply input db v =
      Post-lift DayInv Any (validate_close_input input)
        (λ checked db'.
          closing_or packaging_of (find_closing checked.client_id db')
            (close_open_day packaging_of others supply input checked) db')
        db v
        λ checked _.
          closing_or-Post (find_closing checked.client_id db)
            (close_open_day packaging_of others supply input checked) db v (first_closing checked)
    where
      locked : CloseInput → TradingDay → M DayClosing
      locked checked day db' =
          transaction (close_locked packaging_of supply input checked day) (others db')

      first_closing :
          (checked : CloseInput)
          → Post DayInv Any (close_open_day packaging_of others supply input checked db)
      first_closing checked =
          Post-or_throw DayInv Any (find_open_day db) _
            (λ day db'.
              closing_or packaging_of (find_closing checked.client_id db') (locked checked day) db')
            db v
            λ day _. closing_or-Post (find_closing checked.client_id db) (locked checked day) db v (
              Post-transaction DayInv Any (close_locked packaging_of supply input checked day)
                (others db) (keep db v)
                (close_locked-Post supply input checked day (others db) (keep db v)))
