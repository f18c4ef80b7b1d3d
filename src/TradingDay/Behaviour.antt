-- ===== src/TradingDay/Behaviour.antt =====
-- What opening a day and amending a movement do when they succeed.
use coffee_shop_pos_multi_ag.Base.{
  ℕ, Bool, ◌≡◌, refl, true, false, not, ◌&&◌, List, [], ◌∷◌, Option, none, some, any, filter, find?,
  ◌++◌, ap, is_none, All, arith, ◌==◌, ==_refl, Bool-cases, Option-cases, inl, inr, is_some,
}
use coffee_shop_pos_multi_ag.Failure.{
  Error, Result, ok, err, bad_request, conflict, not_found, movement_superseded, recorder_inactive,
  movement_not_found, across_days, movement_day_closed,
}
use coffee_shop_pos_multi_ag.Money.{day_open}
use coffee_shop_pos_multi_ag.Store.{TradingDay, StaffMember, CashMovement, Db}
use coffee_shop_pos_multi_ag.Store.Queries.{is_day_open, find_active_staff}
use coffee_shop_pos_multi_ag.TradingDay.{Supply, day_clashes, insert_day, new_day, open_transaction}
use coffee_shop_pos_multi_ag.TradingDay.Input.{
  OpenBusinessDayDto, OpenInput, CashMovementDto, MovementInput,
}
use coffee_shop_pos_multi_ag.TradingDay.Cash.{amends, is_superseded, current_movements}
use coffee_shop_pos_multi_ag.TradingDay.Movements.{
  amendment_of, insert_movement, new_movement, require_recorder, amend_locked, day_is_open,
  find_movement,
}

-- Where a new open day of the shop clashes with no row, no day of the shop was open.
none_open :
    (r : TradingDay) (ds : List TradingDay)
    → r.status ≡ day_open
    → r.location_id ≡ none
    → any (day_clashes r) ds ≡ false
    → filter (λ d. is_day_open d.status && is_none d.location_id) ds ≡ []
unfolding day_clashes
none_open r [] st l h = refl
none_open r (d ∷ ds) st l h =
    let here : is_day_open d.status && is_none d.location_id ≡ false = clash d.location_id refl in
    rw here (none_open r ds st l (ground arith))
  where
    clash :
        (o : Option ℕ) → d.location_id ≡ o → is_day_open d.status && is_none d.location_id ≡ false
    clash none e = ground arith
    clash (some k) e = ground arith

-- Opening succeeds only if no day is open at its check; it adds one day, with the float and the date that were
-- sent, and whatever others commit before its row is added, that day is then the one open day of the shop.
pub open_transaction-ok :
    (others : Db → Db) (supply : Supply) (input : OpenBusinessDayDto) (checked : OpenInput)
    (db db' : Db) (r : TradingDay)
    → open_transaction others supply input checked db ≡ (ok r, db')
    → (any (λ d. is_day_open d.status) db.days ≡ false)
      × (filter (λ d. is_day_open d.status && is_none d.location_id) db'.days ≡ r ∷ [])
      × (r.status ≡ day_open)
      × (r.opening_float_cents ≡ input.opening_float_cents)
      × (r.business_date ≡ checked.business_date)
      × (db' ≡ record (others db) { days = r ∷ (others db).days })
unfolding open_transaction insert_day new_day
open_transaction-ok others supply input checked db db' r e =
    let st : r.status ≡ day_open = ground arith in
    let l : r.location_id ≡ none = ground arith in
    let free : any (day_clashes r) (others db).days ≡ false = ground arith in
    let after : db' ≡ record (others db) { days = r ∷ (others db).days } = ground arith in
    let alone : filter (λ d. is_day_open d.status && is_none d.location_id) (r ∷ (others db).days)
        ≡ r ∷ [] =
      let own : is_day_open r.status && is_none r.location_id ≡ true = ground arith in
      rw own (ap (λ ds. r ∷ ds) (none_open r (others db).days st l free)) in
    (ground arith, rw after alone, st, ground arith, ground arith, after)

recorder_of :
    (named : Option ℕ) (db : Db)
    → (x : Result (Option StaffMember)) × (require_recorder named db ≡ (x, db))
unfolding require_recorder
recorder_of none db = (ok none, refl)
recorder_of (some id) db = elim (Option-cases (find_active_staff id db)) [
  | inl e ↦ (err (bad_request recorder_inactive), ground arith)
  | inr (m, e) ↦ (ok (some m), ground arith)
]

-- An amendment succeeds only for a movement of an open day that nothing amends yet; it adds one row
-- on the same day, which names what it amends and holds the amount that was sent.
pub amend_locked-ok :
    (supply : Supply) (input : CashMovementDto) (checked : MovementInput) (id : ℕ)
    (target r : CashMovement) (db db' : Db)
    → amend_locked supply input checked id target db ≡ (ok r, db')
    → (is_some (amendment_of id db) ≡ false)
      × (day_is_open target.trading_day_id db ≡ true)
      × (r.trading_day_id ≡ target.trading_day_id)
      × (r.amends_cash_movement_id ≡ some id)
      × (r.amount_cents ≡ input.amount_cents)
      × (db' ≡ record db { cash_movements = r ∷ db.cash_movements })
unfolding amend_locked insert_movement new_movement
amend_locked-ok supply input checked id target r db db' e =
    let (x, looked) = recorder_of input.recorded_by_staff_member_id db in
    elim (Option-cases (find_movement id db)) [
      | inl missing ↦ absurd (ground arith)
      | inr (locked, found) ↦
          (ground arith, ground arith, ground arith, ground arith, ground arith, ground arith)
    ]

find?-append :
    (p : CashMovement → Bool) (xs ys : List CashMovement)
    → is_some (find? p ys) ≡ true
    → is_some (find? p (xs ++ ys)) ≡ true
find?-append p [] ys h = h
find?-append p (x ∷ xs) ys h = ground (arith, find?-append p xs ys h)

-- Once a movement is amended it stays so: as long as cash movements are only added, each later amendment of it
-- throws and changes nothing, whatever else has changed by then.
pub amend_locked_twice :
    (supply supply' : Supply) (input input' : CashMovementDto) (checked checked' : MovementInput)
    (id : ℕ) (target target' r : CashMovement) (db db' later : Db) (added : List CashMovement)
    → amend_locked supply input checked id target db ≡ (ok r, db')
    → later.cash_movements ≡ added ++ db'.cash_movements
    → (e : Error) × (amend_locked supply' input' checked' id target' later ≡ (err e, later))
unfolding amend_locked amendment_of find_movement
amend_locked_twice supply supply' input input' checked checked' id target target' r db db' later
      added e grown =
    let (_, _, _, amended, _, after) = amend_locked-ok supply input checked id target r db db' e in
    let here : is_some (find? (amends id) db'.cash_movements) ≡ true =
      rw after (ground (arith, ==_refl id)) in
    let superseded : is_some (find? (amends id) later.cash_movements) ≡ true =
      rw grown (find?-append (amends id) added db'.cash_movements here) in
    elim (Option-cases (find? (λ m. m.id == id) later.cash_movements)) [
      | inl missing ↦ (not_found movement_not_found, ground arith)
      | inr (locked, found) ↦ elim (Bool-cases (locked.trading_day_id == target'.trading_day_id)) [
        | inr other ↦ (conflict across_days, ground arith)
        | inl same ↦ elim (Bool-cases (day_is_open locked.trading_day_id later)) [
          | inr closed ↦ (conflict movement_day_closed, ground arith)
          | inl still ↦ (conflict movement_superseded, ground arith)
        ]
      ]
    ]

none_current :
    (id day : ℕ) (all ms : List CashMovement)
    → any (amends id) all ≡ true
    → All
        (λ m. (m.id == id) ≡ false)
        (filter (λ m. m.trading_day_id == day && not (is_superseded m all)) ms)
unfolding is_superseded
none_current id day all [] h = tt
none_current id day all (m ∷ ms) h =
    elim (Bool-cases (m.trading_day_id == day && not (is_superseded m all))) [
      | inl kept ↦ rw kept (ground arith, none_current id day all ms h)
      | inr left ↦ rw left (none_current id day all ms h)
    ]

-- After an amendment the amended movement counts on no day any more.
pub amend_locked-supersedes :
    (supply : Supply) (input : CashMovementDto) (checked : MovementInput) (id day : ℕ)
    (target r : CashMovement) (db db' : Db)
    → amend_locked supply input checked id target db ≡ (ok r, db')
    → All (λ m. (m.id == id) ≡ false) (current_movements day db')
unfolding current_movements
amend_locked-supersedes supply input checked id day target r db db' e =
    let (_, _, _, amended, _, after) = amend_locked-ok supply input checked id target r db db' e in
    none_current id day db'.cash_movements db'.cash_movements
      (rw after (ground (arith, ==_refl id)))
