-- ===== src/Orders/Safety.antt =====
-- The invariant of the sales under every schedule of requests.
use coffee_shop_pos_multi_ag.Base.{
  ℕ, ◌≡◌, refl, false, true, not, ◌&&◌, ◌==◌, inl, inr, Bool-cases, Option-cases, arith,
}
use coffee_shop_pos_multi_ag.Orders.Rows.{find_by_client_id}
use coffee_shop_pos_multi_ag.Orders.Completion.{has_void}
use coffee_shop_pos_multi_ag.Store.{Db}
use coffee_shop_pos_multi_ag.Store.Rules.{Keeps, Post-keeps}
use coffee_shop_pos_multi_ag.Orders.{Supply}
use coffee_shop_pos_multi_ag.Orders.Requests.{
  Request, creates, updates, adds_line, updates_line, increments_line, decrements_line,
  removes_line, completes, voids, settles_change, still_locked, under_lock, serve, Schedule, done,
  during, run,
}
use coffee_shop_pos_multi_ag.Orders.Invariant.{Inv}
use coffee_shop_pos_multi_ag.Orders.HeaderEdits.{
  update-Post, add_line-Post, update_line-Post, increment_line-Post, decrement_line-Post,
  remove_line-Post,
}
use coffee_shop_pos_multi_ag.Orders.Creation.{create-Post}
use coffee_shop_pos_multi_ag.Orders.Ending.{complete-Post}
use coffee_shop_pos_multi_ag.Orders.Change.{settle_change-Post}
use coffee_shop_pos_multi_ag.Orders.Voiding.{Respects, void_order-Post}

under_lock-Keeps : (cid : ℕ) (f : Db → Db) → Keeps Inv f → Keeps Inv (under_lock cid f)
unfolding under_lock
under_lock-Keeps cid f k db v =
    elim (Bool-cases
      (still_locked (find_by_client_id cid db) (find_by_client_id cid (f db)) (f db))) [
        | inl e ↦ rw e (k db v)
        | inr e ↦ rw e v
      ]

-- While the lock holds, its order stays there and is not voided.
under_lock-Respects : (cid : ℕ) (f : Db → Db) → Respects cid (under_lock cid f)
unfolding under_lock
under_lock-Respects cid f o db found fresh =
    elim (Bool-cases
      (still_locked (find_by_client_id cid db) (find_by_client_id cid (f db)) (f db))) [
        | inr e ↦ rw e (fresh, (o, found, refl))
        | inl e ↦ rw e (elim (Option-cases (find_by_client_id cid (f db))) [
          | inl missing ↦ absurd (let held : false ≡ true = rw (found, missing) at e in cc)
          | inr (p, there) ↦
              let held : o.id == p.id && not (has_void o.id (f db)) ≡ true =
                rw (found, there) at e in
              (ground arith, (p, there, ground arith))
        ])
      ]

serve-Inv :
    (r : Request) (s : Supply) (others closing : Db → Db)
    → Keeps Inv others
    → Keeps Inv closing
    → Keeps Inv (serve r s others closing)
unfolding serve
serve-Inv (creates input) s o c k kc db v = Post-keeps Inv _ _ (create-Post o k s input db v)
serve-Inv (updates cid input) s o c k kc db v = Post-keeps Inv _ _ (update-Post o k cid db v input)
serve-Inv (adds_line cid input) s o c k kc db v =
    Post-keeps Inv _ _ (add_line-Post o k cid db v s input)
serve-Inv (updates_line cid l input) s o c k kc db v =
    Post-keeps Inv _ _ (update_line-Post o k cid db v l input)
serve-Inv (increments_line cid l) s o c k kc db v =
    Post-keeps Inv _ _ (increment_line-Post o k cid db v l)
serve-Inv (decrements_line cid l) s o c k kc db v =
    Post-keeps Inv _ _ (decrement_line-Post o k cid db v l)
serve-Inv (removes_line cid l) s o c k kc db v =
    Post-keeps Inv _ _ (remove_line-Post o k cid db v l)
serve-Inv (completes cid input) s o c k kc db v =
    Post-keeps Inv _ _ (complete-Post o k s cid db v input)
serve-Inv (voids cid input actor) s o c k kc db v = Post-keeps Inv _ _ (
    void_order-Post o k (under_lock cid c) (under_lock-Keeps cid c kc) s cid
      (under_lock-Respects cid c) input actor db v)
serve-Inv (settles_change cid) s o c k kc db v =
    Post-keeps Inv _ _ (settle_change-Post o k s cid db v)

-- However requests interleave, every sale adds up, a parked one has no payments and a completed one
-- is paid exactly, and no two rows share an id, a client id or a number within a day, or void the
-- same order.
pub run-Inv : (s : Schedule) (db : Db) → Inv db → Inv (run s db)
unfolding run
run-Inv done db v = v
run-Inv (during r s meanwhile locked next) db v =
    run-Inv next (serve r s (run meanwhile) (run locked) db)
      (serve-Inv r s (run meanwhile) (run locked) (run-Inv meanwhile) (run-Inv locked) db v)
