-- ===== src/TradingDay/Amending.antt =====
-- Recording and amending cash movements: the invariant, and what an amendment does.
use coffee_shop_pos_multi_ag.Base.{
  ℕ, not, Option, none, some, any, ◌==◌, Bool-cases, inl, inr, is_none, is_some,
}
use coffee_shop_pos_multi_ag.Failure.{
  Error, unique_violation, no_open_day, recorder_inactive, movement_not_found, across_days,
  movement_day_closed, movement_superseded, conflict,
}
use coffee_shop_pos_multi_ag.Store.{TradingDay, StaffMember, CashMovement, Db}
use coffee_shop_pos_multi_ag.Store.Calls.{
  M, pure, throw, or_throw, transaction, catch_unique, ◌>>=◌, ◌>>◌, throw_if,
}
use coffee_shop_pos_multi_ag.Store.Rules.{
  Keeps, Post, Post-lift, Post-throw_if, Post-or_throw, Post-catch, Post-transaction,
}
use coffee_shop_pos_multi_ag.Store.Queries.{find_open_day, find_open_day_by_id, find_active_staff}
use coffee_shop_pos_multi_ag.TradingDay.{Supply}
use coffee_shop_pos_multi_ag.TradingDay.Input.{
  CashMovementDto, MovementInput, validate_cash_movement_input,
}
use coffee_shop_pos_multi_ag.TradingDay.Movements.{
  find_movement, amendment_of, movement_clashes, insert_movement, movement_or, require_recorder,
  new_movement, record_on, record_on_open_day, record_cash_movement, day_is_open, amend_locked,
  amend_transaction, amend_conflict, amend_cash_movement,
}
use coffee_shop_pos_multi_ag.TradingDay.Invariant.{DayInv, All-any}
use coffee_shop_pos_multi_ag.TradingDay.Keeping.{Any, or_throw-Post}

insert_movement-Post :
    (m : CashMovement) (db : Db) → DayInv db → Post DayInv Any (insert_movement m db)
unfolding insert_movement
insert_movement-Post m db v = elim (Bool-cases (any (movement_clashes m) db.cash_movements)) [
  | inl e ↦ rw e v
  | inr e ↦ rw e (
    record {
      days_apart = v.days_apart;
      closings_apart = v.closings_apart;
      movements_apart = (All-any (movement_clashes m) db.cash_movements e, v.movements_apart);
      closings_closed = v.closings_closed;
    },
    tt,
  )
]

-- The recorder is only looked up.
recorded :
    (recorder : Option ℕ) (row : Option StaffMember → CashMovement) (db : Db)
    → DayInv db
    → Post DayInv Any ((require_recorder recorder >>= λ r. insert_movement (row r)) db)
unfolding require_recorder
recorded none row db v = insert_movement-Post (row none) db v
recorded (some id) row db v = go (find_active_staff id db)
  where
    go :
        (s : Option StaffMember)
        → Post DayInv Any (
            ((λ db'. or_throw s (Error.bad_request recorder_inactive) db')
                >>= (λ r. pure (some r))
                >>= λ r. insert_movement (row r))
              db)
    go none = v
    go (some s) = insert_movement-Post (row (some s)) db v

movement_or-Post :
    (replay : Option CashMovement) (m : M CashMovement) (db : Db)
    → DayInv db
    → Post DayInv Any (m db)
    → Post DayInv Any (movement_or replay m db)
movement_or-Post none m db v h = h
movement_or-Post (some x) m db v h = (v, tt)

module _ (others : Db → Db) (keep : Keeps DayInv others) (supply : Supply)
    (input : CashMovementDto) where
  record_on-Post :
      (checked : MovementInput) (day : TradingDay) (db : Db)
      → DayInv db
      → Post DayInv Any (record_on supply input checked day db)
  unfolding record_on
  record_on-Post checked day db v =
      Post-throw_if DayInv Any (is_none (find_open_day_by_id day.id db)) (conflict no_open_day)
        (λ _. require_recorder input.recorded_by_staff_member_id >>= λ r.
          insert_movement (new_movement supply input checked day.id none r))
        db v
        λ _.
          recorded input.recorded_by_staff_member_id (new_movement supply input checked day.id none)
            db v

  record_on_open_day-Post :
      (checked : MovementInput) (db : Db)
      → DayInv db
      → Post DayInv Any (record_on_open_day others supply input checked db)
  unfolding record_on_open_day
  record_on_open_day-Post checked db v =
      Post-or_throw DayInv Any (find_open_day db) (conflict no_open_day)
        (λ day db'.
          transaction
            (movement_or (find_movement checked.client_id (others db'))
              (record_on supply input checked day))
            (others db'))
        db v
        λ day _.
          Post-transaction DayInv Any
            (movement_or (find_movement checked.client_id (others db))
              (record_on supply input checked day))
            (others db) (keep db v)
            (movement_or-Post (find_movement checked.client_id (others db))
              (record_on supply input checked day) (others db) (keep db v)
              (record_on-Post checked day (others db) (keep db v)))

  pub record_cash_movement-Post :
      (db : Db) → DayInv db → Post DayInv Any (record_cash_movement others supply input db)
  unfolding record_cash_movement
  record_cash_movement-Post db v =
      Post-lift DayInv Any (validate_cash_movement_input input)
        (λ checked db'.
          movement_or (find_movement checked.client_id db')
            (catch_unique (record_on_open_day others supply input checked)
              (λ db''. or_throw (find_movement checked.client_id db'') unique_violation db''))
            db')
        db v
        λ checked _.
          movement_or-Post (find_movement checked.client_id db)
            (catch_unique (record_on_open_day others supply input checked) (seen checked)) db v
            (Post-catch DayInv Any (record_on_open_day others supply input checked) (seen checked)
              db (record_on_open_day-Post checked db v)
              λ db' v'. or_throw-Post (find_movement checked.client_id db') unique_violation db' v')
    where
      seen : MovementInput → M CashMovement
      seen checked db' = or_throw (find_movement checked.client_id db') unique_violation db'

  amend_locked-Post :
      (checked : MovementInput) (target_id : ℕ) (target : CashMovement) (db : Db)
      → DayInv db
      → Post DayInv Any (amend_locked supply input checked target_id target db)
  unfolding amend_locked
  amend_locked-Post checked target_id target db v =
      Post-or_throw DayInv Any (find_movement target_id db) (Error.not_found movement_not_found)
        (λ locked. same_day locked >> (open_still locked >> (current >> write locked))) db v
        λ locked _.
          Post-throw_if DayInv Any (not (locked.trading_day_id == target.trading_day_id))
            (conflict across_days) (λ _. open_still locked >> (current >> write locked)) db v
            λ _.
              Post-throw_if DayInv Any (not (day_is_open locked.trading_day_id db))
                (conflict movement_day_closed) (λ _. current >> write locked) db v
                λ _.
                  Post-throw_if DayInv Any (is_some (amendment_of target_id db))
                    (conflict movement_superseded) (λ _. write locked) db v
                    λ _.
                      recorded input.recorded_by_staff_member_id
                        (new_movement supply input checked locked.trading_day_id (some target_id))
                        db v
    where
      same_day : CashMovement → M (Unit {0})
      same_day locked db' =
          throw_if (not (locked.trading_day_id == target.trading_day_id)) (conflict across_days) db'

      open_still : CashMovement → M (Unit {0})
      open_still locked db' =
          throw_if (not (day_is_open locked.trading_day_id db')) (conflict movement_day_closed) db'

      current : M (Unit {0})
      current db' =
          throw_if (is_some (amendment_of target_id db')) (conflict movement_superseded) db'

      write : CashMovement → M CashMovement
      write locked = require_recorder input.recorded_by_staff_member_id >>= λ r.
          insert_movement
            (new_movement supply input checked locked.trading_day_id (some target_id) r)

  amend_conflict-Post :
      (cid target_id : ℕ) (db : Db) → DayInv db → Post DayInv Any (amend_conflict cid target_id db)
  unfolding amend_conflict
  amend_conflict-Post cid target_id db v =
      movement_or-Post (find_movement cid db) superseded_or_unknown db v (
        Post-throw_if DayInv Any (is_some (amendment_of target_id db))
          (conflict movement_superseded) (λ _. throw unique_violation) db v λ _. v)
    where
      superseded_or_unknown : M CashMovement
      superseded_or_unknown =
          (λ db'.
            throw_if (is_some (amendment_of target_id db')) (conflict movement_superseded) db')
          >> throw unique_violation

  pub amend_cash_movement-Post :
      (target_id : ℕ) (db : Db)
      → DayInv db
      → Post DayInv Any (amend_cash_movement others supply target_id input db)
  unfolding amend_cash_movement amend_transaction
  amend_cash_movement-Post target_id db v =
      Post-lift DayInv Any (validate_cash_movement_input input)
        (λ checked db'. movement_or (find_movement checked.client_id db') (amended checked) db') db
        v
        λ checked _. movement_or-Post (find_movement checked.client_id db) (amended checked) db v (
          Post-or_throw DayInv Any (find_movement target_id db) (Error.not_found movement_not_found)
            (written checked) db v
            λ target _.
              Post-catch DayInv Any (amend_transaction others supply input checked target_id target)
                (amend_conflict checked.client_id target_id) db
                (Post-transaction DayInv Any
                  (movement_or (find_movement checked.client_id (others db))
                    (amend_locked supply input checked target_id target))
                  (others db) (keep db v)
                  (movement_or-Post (find_movement checked.client_id (others db))
                    (amend_locked supply input checked target_id target) (others db) (keep db v)
                    (amend_locked-Post checked target_id target (others db) (keep db v))))
                λ db' v'. amend_conflict-Post checked.client_id target_id db' v')
    where
      written : MovementInput → CashMovement → M CashMovement
      written checked target =
          catch_unique (amend_transaction others supply input checked target_id target)
            (amend_conflict checked.client_id target_id)

      amended : MovementInput → M CashMovement
      amended checked =
          (λ db'. or_throw (find_movement target_id db') (Error.not_found movement_not_found) db')
          >>= written checked
