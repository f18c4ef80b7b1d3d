-- ===== src/TradingDay/Safety.antt =====
-- The invariant of the trading days under every schedule of requests.
use coffee_shop_pos_multi_ag.Base.{List}
use coffee_shop_pos_multi_ag.Store.{TradingDay, DayClosingLine, Db}
use coffee_shop_pos_multi_ag.Store.Rules.{Keeps, Post-keeps}
use coffee_shop_pos_multi_ag.TradingDay.{Supply}
use coffee_shop_pos_multi_ag.TradingDay.Requests.{
  DayRequest, opens, closes, records, amends_movement, DaySchedule, done, during_day, serve_day,
  run_day,
}
use coffee_shop_pos_multi_ag.TradingDay.Invariant.{DayInv}
use coffee_shop_pos_multi_ag.TradingDay.Keeping.{Any, open_day-Post}
use coffee_shop_pos_multi_ag.TradingDay.Ending.{close_day-Post}
use coffee_shop_pos_multi_ag.TradingDay.Amending.{
  record_cash_movement-Post, amend_cash_movement-Post,
}

serve_day-DayInv :
    (packaging_of : TradingDay → Db → List DayClosingLine) (r : DayRequest) (s : Supply)
    (others : Db → Db)
    → Keeps DayInv others
    → Keeps DayInv (serve_day packaging_of r s others)
unfolding serve_day
serve_day-DayInv p (opens input) s o k db v =
    Post-keeps DayInv Any _ (open_day-Post o k s db v input)
serve_day-DayInv p (closes input) s o k db v =
    Post-keeps DayInv Any _ (close_day-Post p o k s input db v)
serve_day-DayInv p (records input) s o k db v =
    Post-keeps DayInv Any _ (record_cash_movement-Post o k s input db v)
serve_day-DayInv p (amends_movement id input) s o k db v =
    Post-keeps DayInv Any _ (amend_cash_movement-Post o k s input id db v)

-- However requests to open, close, record and amend interleave: no two days share an id or are open
-- at one location, no two closings share an id, a day or a cash count, every closing is of a closed
-- day, no two cash movements share an id, and no movement is amended twice.
pub run_day-DayInv :
    (packaging_of : TradingDay → Db → List DayClosingLine) (s : DaySchedule) (db : Db)
    → DayInv db
    → DayInv (run_day packaging_of s db)
unfolding run_day
run_day-DayInv p done db v = v
run_day-DayInv p (during_day r s meanwhile next) db v =
    run_day-DayInv p next (serve_day p r s (run_day p meanwhile) db)
      (serve_day-DayInv p r s (run_day p meanwhile) (run_day-DayInv p meanwhile) db v)
