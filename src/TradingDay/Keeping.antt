-- ===== src/TradingDay/Keeping.antt =====
-- Opening a day keeps the invariant of the trading days.
use coffee_shop_pos_multi_ag.Base.{
  ◌≡◌, true, ◌&&◌, ◌∷◌, Option, none, some, any, All-map, arith, Bool-cases, inl, inr, is_none,
}
use coffee_shop_pos_multi_ag.Failure.{Error, day_already_open, date_used, opener_inactive}
use coffee_shop_pos_multi_ag.Date.{date_eq}
use coffee_shop_pos_multi_ag.Store.{TradingDay, Db}
use coffee_shop_pos_multi_ag.Store.Calls.{M, throw, or_throw, catch_unique, ◌>>=◌, ◌>>◌, throw_if}
use coffee_shop_pos_multi_ag.Store.Rules.{
  Keeps, Post, Post-lift, Post-throw_if, Post-or_throw, Post-catch,
}
use coffee_shop_pos_multi_ag.Store.Queries.{is_day_open, find_active_staff}
use coffee_shop_pos_multi_ag.TradingDay.Input.{OpenBusinessDayDto, OpenInput, validate_open_input}
use coffee_shop_pos_multi_ag.TradingDay.{
  Supply, day_clashes, insert_day, new_day, open_transaction, open_day,
}
use coffee_shop_pos_multi_ag.TradingDay.Invariant.{DayInv, All-any, is_closed_row}

-- Nothing is said of the value.
abbrev pub Any : {A : Type 0} → A → Db → Type 0
Any a db = Unit

pub or_throw-Post :
    {A : Type 0} (o : Option A) (e : Error) (db : Db)
    → DayInv db
    → Post DayInv Any (or_throw o e db)
or_throw-Post none e db v = v
or_throw-Post (some a) e db v = (v, tt)

insert_day-Post : (day : TradingDay) (db : Db) → DayInv db → Post DayInv Any (insert_day day db)
unfolding insert_day
insert_day-Post day db v = elim (Bool-cases (any (day_clashes day) db.days)) [
  | inl e ↦ rw e v
  | inr e ↦ rw e (
    record {
      days_apart = (All-any (day_clashes day) db.days e, v.days_apart);
      closings_apart = v.closings_apart;
      movements_apart = v.movements_apart;
      closings_closed =
          All-map (λ c. any (is_closed_row c.trading_day_id) db.days ≡ true)
            (λ c. any (is_closed_row c.trading_day_id) (day ∷ db.days) ≡ true) (λ c h. ground arith)
            db.day_closings v.closings_closed;
    },
    tt,
  )
]

module _ (others : Db → Db) (keep : Keeps DayInv others) (supply : Supply) (db : Db)
    (v : DayInv db) where
  open_transaction-Post :
      (input : OpenBusinessDayDto) (checked : OpenInput)
      → Post DayInv Any (open_transaction others supply input checked db)
  unfolding open_transaction
  open_transaction-Post input checked =
      Post-throw_if DayInv Any (any (λ d. is_day_open d.status) db.days) _
        (λ _. fresh_date >> opening) db v
        λ _.
          Post-throw_if DayInv Any
            (any (λ d. is_none d.location_id && date_eq d.business_date checked.business_date)
              db.days)
            _ (λ _. opening) db v
            λ _.
              Post-or_throw DayInv Any (find_active_staff checked.opened_by db) _
                (λ opener db'. insert_day (new_day supply input checked opener.id) (others db')) db
                v
                λ opener _.
                  insert_day-Post (new_day supply input checked opener.id) (others db) (keep db v)
    where
      fresh_date : M (Unit {0})
      fresh_date db' =
          throw_if
            (any (λ d. is_none d.location_id && date_eq d.business_date checked.business_date)
              db'.days)
            (Error.conflict date_used) db'

      opening : M TradingDay
      opening =
          (λ db'.
            or_throw (find_active_staff checked.opened_by db') (Error.bad_request opener_inactive)
              db')
          >>= (λ opener db'. insert_day (new_day supply input checked opener.id) (others db'))

  pub open_day-Post :
      (input : OpenBusinessDayDto) → Post DayInv Any (open_day others supply input db)
  unfolding open_day
  open_day-Post input =
      Post-lift DayInv Any (validate_open_input input)
        (λ checked.
          catch_unique (open_transaction others supply input checked)
            (throw (Error.conflict day_already_open)))
        db v
        λ checked _.
          Post-catch DayInv Any (open_transaction others supply input checked)
            (throw (Error.conflict day_already_open)) db (open_transaction-Post input checked)
            λ db' v'. v'
