-- ===== src/TradingDay/Requests.antt =====
-- The requests of the trading-day service as one type, and the schedules in which they run: others
-- run to their end while a request waits. The packaging lines of a closing are an argument.
use coffee_shop_pos_multi_ag.Base.{ℕ, List}
use coffee_shop_pos_multi_ag.Store.{TradingDay, DayClosingLine, Db}
use coffee_shop_pos_multi_ag.TradingDay.Input.{
  OpenBusinessDayDto, CloseBusinessDayDto, CashMovementDto,
}
use coffee_shop_pos_multi_ag.TradingDay.Movements.{record_cash_movement, amend_cash_movement}
use coffee_shop_pos_multi_ag.TradingDay.{Supply, open_day, close_day}

pub data DayRequest : Type 0 where
  opens : OpenBusinessDayDto → DayRequest
  closes : CloseBusinessDayDto → DayRequest
  records : CashMovementDto → DayRequest
  amends_movement : ℕ → CashMovementDto → DayRequest

-- `during_day r s meanwhile next`: the request r with its supply s, what runs while it waits, and
-- what runs after it.
pub data DaySchedule : Type 0 where
  done : DaySchedule
  during_day : DayRequest → Supply → DaySchedule → DaySchedule → DaySchedule

module _ (packaging_of : TradingDay → Db → List DayClosingLine) where
  unfoldable pub serve_day : DayRequest → Supply → (Db → Db) → Db → Db
  serve_day (opens input) supply others db = (open_day others supply input db).1
  serve_day (closes input) supply others db = (close_day packaging_of others supply input db).1
  serve_day (records input) supply others db = (record_cash_movement others supply input db).1
  serve_day (amends_movement id input) supply others db =
      (amend_cash_movement others supply id input db).1

  unfoldable pub run_day : DaySchedule → Db → Db
  unfolding serve_day
  run_day done db = db
  run_day (during_day r s meanwhile next) db = run_day next (serve_day r s (run_day meanwhile) db)
