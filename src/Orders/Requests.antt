-- ===== src/Orders/Requests.antt =====
-- The requests of the order service as one type, and the schedules in which they run: each request
-- reads, waits for its row lock while others run to their end, and then goes on.
use coffee_shop_pos_multi_ag.Base.{
  ℕ, Bool, false, not, ◌&&◌, ◌==◌, Option, none, some, if◌then◌else◌,
}
use coffee_shop_pos_multi_ag.Store.{Role, Sale, Db}
use coffee_shop_pos_multi_ag.Orders.Tender.{CompleteOrderDto}
use coffee_shop_pos_multi_ag.Orders.Rows.{AddOrderLineDto, find_by_client_id}
use coffee_shop_pos_multi_ag.Orders.{Supply, CreateOrderDto, create}
use coffee_shop_pos_multi_ag.Orders.Lines.{
  UpdateOrderDto, UpdateOrderLineDto, update, add_line, update_line, increment_line, decrement_line,
  remove_line,
}
use coffee_shop_pos_multi_ag.Orders.Completion.{
  VoidOrderDto, complete, has_void, void_order, settle_change,
}

pub data Request : Type 0 where
  creates : CreateOrderDto → Request
  updates : ℕ → UpdateOrderDto → Request
  adds_line : ℕ → AddOrderLineDto → Request
  updates_line : ℕ → ℕ → UpdateOrderLineDto → Request
  increments_line decrements_line removes_line : ℕ → ℕ → Request
  completes : ℕ → CompleteOrderDto → Request
  voids : ℕ → VoidOrderDto → Role → Request
  settles_change : ℕ → Request

-- Does the row lock on the order with this client id hold between the two databases: is it there still, and not
-- void?
abbrev pub still_locked : Option Sale → Option Sale → Db → Bool
still_locked none after db = false
still_locked (some o) none db = false
still_locked (some o) (some p) db = o.id == p.id && not (has_void o.id db)

-- What others do to the database while a request holds the row lock on an order. Any void of that order waits for
-- the lock, and nothing removes a completed order, so a run in which they do so cannot happen, and is left out.
unfoldable pub under_lock : ℕ → (Db → Db) → Db → Db
unfolding has_void find_by_client_id
under_lock cid others db =
    if still_locked (find_by_client_id cid db) (find_by_client_id cid (others db)) (others db)
    then others db
    else db

-- The database after a request; `others` runs while it waits for its first lock, and `closing` while it waits for
-- another, with the first one held.
unfoldable pub serve : Request → Supply → (Db → Db) → (Db → Db) → Db → Db
unfolding under_lock
serve (creates input) supply others closing db = (create others supply input db).1
serve (updates cid input) supply others closing db = (update others cid input db).1
serve (adds_line cid input) supply others closing db = (add_line others supply cid input db).1
serve (updates_line cid line input) supply others closing db =
    (update_line others cid line input db).1
serve (increments_line cid line) supply others closing db = (increment_line others cid line db).1
serve (decrements_line cid line) supply others closing db = (decrement_line others cid line db).1
serve (removes_line cid line) supply others closing db = (remove_line others cid line db).1
serve (completes cid input) supply others closing db = (complete others supply cid input db).1
serve (voids cid input actor) supply others closing db =
    (void_order others (under_lock cid closing) supply cid input actor db).1
serve (settles_change cid) supply others closing db = (settle_change others supply cid db).1

-- `during r s meanwhile locked next`: the request r with its supply s, what runs while it waits for its row lock,
-- what runs while it holds that and waits for the lock on the day, and what runs after it.
pub data Schedule : Type 0 where
  done : Schedule
  during : Request → Supply → Schedule → Schedule → Schedule → Schedule

unfoldable pub run : Schedule → Db → Db
unfolding serve
run done db = db
run (during r s meanwhile locked next) db = run next (serve r s (run meanwhile) (run locked) db)
