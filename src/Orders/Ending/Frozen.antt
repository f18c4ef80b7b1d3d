-- ===== src/Orders/Ending/Frozen.antt =====
-- A completed order is frozen: it is answered as it stands, and no edit of it goes through.
use coffee_shop_pos_multi_ag.Base.{
  ℕ, ◌≡◌, refl, ◌∙◌, ap, inl, inr, Bool, true, not, ◌&&◌, List, [], ◌∷◌, ◌++◌, Option, some,
  update_where, find?, ==_refl, any, map, arith, ◌==◌, Bool-cases, ℤ,
}
use mathlib.Core.Path.{subst}
use coffee_shop_pos_multi_ag.Failure.{Error, Result, ok, err, conflict, order_empty, order_frozen}
use coffee_shop_pos_multi_ag.Store.{parked, completed, Sale, Db}
use coffee_shop_pos_multi_ag.Store.Calls.{M, pure, lift, throw_if, transaction, ◌>>=◌, ◌>>◌}
use coffee_shop_pos_multi_ag.Store.Rules.{
  Keeps, Post, Post-lift, Post-if, Post-bind, Post-throw_if, Post-transaction,
}
use coffee_shop_pos_multi_ag.Orders.Amounts.{is_nil}
use coffee_shop_pos_multi_ag.Orders.Tender.{CompleteOrderDto, validate_tender}
use coffee_shop_pos_multi_ag.Orders.Rows.{is_parked, is_purchase, find_by_client_id, update_sales}
use coffee_shop_pos_multi_ag.Orders.Settlement.{paid, validate_tender-paid}
use coffee_shop_pos_multi_ag.Orders.{
  Supply, require_order, require_order_day_open, lock_and_require_order, check_mutable,
  mutate_parked, mutate_parked_with_discard,
}
use coffee_shop_pos_multi_ag.Orders.Completion.{
  settled, create_payments, settle, complete_locked, complete,
}
use coffee_shop_pos_multi_ag.Orders.Invariant.{Inv}
use coffee_shop_pos_multi_ag.Orders.Editing.{parked_of_test}
use coffee_shop_pos_multi_ag.Orders.Voiding.{completed_of}
use coffee_shop_pos_multi_ag.Orders.Frame.{Found, lock_and_require_order-Post}
use coffee_shop_pos_multi_ag.Orders.Ending.{
  paid_row, both, both-hit, both-miss, writes-both, complete-Post,
}

abbrev Nothing : Db → Type 0
Nothing db = Unit {0}

abbrev IsDone : Sale → Db → Type 0
IsDone r db = r.status ≡ completed

find?-map :
    (p : Sale → Bool) (f : Sale → Sale) (ss : List Sale) (o : Sale)
    → ((s : Sale) → p (f s) ≡ p s)
    → find? p ss ≡ some o
    → find? p (map f ss) ≡ some (f o)
find?-map p f [] o same h = cc
find?-map p f (s ∷ ss) o same h = elim (Bool-cases (p s)) [
  | inl e ↦ let here : s ≡ o = ground arith in rw (same s, e) (ap (λ x. some (f x)) here)
  | inr e ↦ rw (same s, e) (find?-map p f ss o same (rw e at h))
]

any-found :
    (p q : Sale → Bool) (ss : List Sale) (o : Sale)
    → find? p ss ≡ some o
    → q o ≡ true
    → any q ss ≡ true
any-found p q [] o h k = cc
any-found p q (s ∷ ss) o h k = elim (Bool-cases (p s)) [
  | inl e ↦ let here : s ≡ o = ground arith in rw here (rw k refl)
  | inr e ↦ let rest = any-found p q ss o (rw e at h) k in rw rest (ground arith)
]

of_row :
    (cid : ℕ) (db : Db) (r : Sale)
    → find_by_client_id cid db ≡ some r
    → r.status ≡ completed
    → Post Nothing IsDone (require_order cid db)
unfolding require_order
of_row cid db r found st = elim (Bool-cases (is_purchase r.kind)) [
  | inl e ↦ rw (found, Post) (rw e (tt, st))
  | inr e ↦ rw (found, Post) (rw e tt)
]

-- What `settle` returns is the order, completed.
settle-completed :
    (now cid : ℕ) (input : CompleteOrderDto) (received : Option ℤ) (o : Sale) (db : Db)
    → find_by_client_id cid db ≡ some o
    → o.status ≡ parked
    → paid input.payments ≡ o.total_cents
    → Post Nothing IsDone (settle now cid input received o db)
unfolding settle create_payments find_by_client_id
settle-completed now cid input received o db f st exact =
    let writable : any (λ s. s.id == o.id && is_parked s.status) db.sales ≡ true =
      any-found (λ s. s.client_generated_id == cid) (λ s. s.id == o.id && is_parked s.status)
        db.sales o f (rw st (ground (arith, ==_refl o.id))) in
    rw (writable, Post, settle) paid_path
  where
    first : Db
    first = record db {
      sales =
          update_where (λ s. s.id == o.id && is_parked s.status) (settled now input received)
            db.sales;
    }

    pays : Sale → Sale
    pays = both now input received o st exact

    pays-client : (s : Sale) → (pays s).client_generated_id ≡ s.client_generated_id
    pays-client s = elim (Bool-cases (s.id == o.id)) [
      | inr miss ↦
          ap (λ (x : Sale). x.client_generated_id) (both-miss now input received o st exact s miss)
      | inl hit ↦ elim (Bool-cases (is_parked s.status)) [
        | inl open_row ↦
            ap (λ (x : Sale). x.client_generated_id)
              (both-hit now input received o st exact s hit open_row)
            ∙ (unfold paid_row settled in refl)
        | inr done ↦ unfold both in rw hit (rw done (rw hit refl))
      ]
    ]

    pays-order : (pays o).status ≡ completed
    pays-order =
        ap (λ (x : Sale). x.status)
          (both-hit now input received o st exact o (ground (arith, ==_refl o.id)) (rw st refl))
        ∙ (unfold paid_row settled in refl)

    found_paid :
        (db' : Db) → db'.sales ≡ map pays db.sales → find_by_client_id cid db' ≡ some (pays o)
    found_paid db' w = rw w (
        find?-map (λ s. s.client_generated_id == cid) pays db.sales o
          (λ s. ap (λ (n : ℕ). n == cid) (pays-client s)) f)

    reread_paid :
        (db' : Db) → db'.sales ≡ map pays db.sales → Post Nothing IsDone (require_order cid db')
    reread_paid db' w = of_row cid db' (pays o) (found_paid db' w) pays-order

    write : Unit {0} → M (Unit {0})
    write _ =
        update_sales (λ s. s.id == o.id) (λ s. record s { payments = s.payments ++ input.payments })

    paid_path :
        Post Nothing IsDone ((create_payments o.id input.payments >> require_order cid) first)
    paid_path =
        Post-bind Nothing (λ _ db'. db'.sales ≡ map pays db.sales) IsDone
          (create_payments o.id input.payments) (λ _. require_order cid) first
          (Post-throw_if Nothing (λ _ db'. db'.sales ≡ map pays db.sales) _ _ write first tt
            (λ _. (tt, writes-both now input received o st exact db.sales)))
          (λ _ db' u w. reread_paid db' w)

complete_locked-completed :
    (supply : Supply) (cid : ℕ) (input : CompleteOrderDto) (o : Sale) (db : Db)
    → Found cid o db
    → Post Nothing IsDone (complete_locked supply cid input o db)
unfolding complete_locked require_order_day_open
complete_locked-completed supply cid input o db f =
    Post-if Nothing IsDone (not (is_parked o.status)) (pure o) pay db
      (λ done. (tt, completed_of o.status (ground arith)))
      λ parked_test.
        Post-throw_if Nothing IsDone (is_nil o.lines) _ (λ _. open_day >> paying) db tt
          λ _.
            Post-throw_if Nothing IsDone _ _ (λ _. paying) db tt
              λ _.
                Post-lift Nothing IsDone (validate_tender o.total_cents input) finish db tt
                  λ received e.
                    Post-transaction Nothing IsDone (settle supply.now cid input received o) db tt (
                      settle-completed supply.now cid input received o db f.0
                        (parked_of_test o.status (ground arith))
                        (validate_tender-paid o.total_cents input received e))
  where
    finish : Option ℤ → M Sale
    finish received = transaction (settle supply.now cid input received o)

    paying : M Sale
    paying = lift (validate_tender o.total_cents input) >>= finish

    open_day : M (Unit {0})
    open_day = require_order_day_open o.trading_day_id

    pay : M Sale
    pay = throw_if (is_nil o.lines) (Error.bad_request order_empty) >> (open_day >> paying)

complete-completed :
    (others : Db → Db) (supply : Supply) (cid : ℕ) (input : CompleteOrderDto) (db : Db)
    → Post Nothing IsDone (complete others supply cid input db)
unfolding complete
complete-completed others supply cid input db =
    Post-bind Nothing (Found cid) IsDone (lock_and_require_order others cid)
      (complete_locked supply cid input) db
      (lock_and_require_order-Post Nothing others cid db (λ d u. tt) tt)
      λ o db' u f. complete_locked-completed supply cid input o db' f

Post-value :
    (I : Db → Type 0) (Q : Sale → Db → Type 0) (r : Result Sale × Db) (a : Sale) (db : Db)
    → Post I Q r
    → r ≡ (ok a, db)
    → Q a db
Post-value I Q r a db h e = (subst (Post I Q) e h).1

module _ (others : Db → Db) (keep : Keeps Inv others) (supply : Supply) (cid : ℕ)
    (input : CompleteOrderDto) (db db' : Db) (r : Sale) (v : Inv db)
    (paid_for : complete others supply cid input db ≡ (ok r, db')) where
  found_completed :
      (find_by_client_id cid db' ≡ some r) × (is_purchase r.kind ≡ true) × (r.status ≡ completed)
  found_completed =
      let f =
        Post-value Inv (Found cid) (complete others supply cid input db) r db'
          (complete-Post others keep supply cid db v input) paid_for in
      (
        f.0,
        f.1,
        Post-value Nothing IsDone (complete others supply cid input db) r db'
            (complete-completed others supply cid input db) paid_for,
      )

  -- Once an order has been completed, every later request to complete it, with whatever tender, returns the row
  -- that the first one returned and changes nothing, as long as others leave that row.
  pub complete-retry :
      (others' : Db → Db) (supply' : Supply) (input' : CompleteOrderDto)
      → find_by_client_id cid (others' db') ≡ some r
      → complete others' supply' cid input' db' ≡ (ok r, others' db')
  unfolding complete complete_locked lock_and_require_order require_order
  complete-retry others' supply' input' f' = let f = found_completed in ground (arith, f)

  -- Once an order has been completed, every later edit of it is refused and changes nothing, as long as others leave
  -- its row.
  pub mutate_parked-frozen :
      (others' : Db → Db) (mutation : Sale → M (Unit {0}))
      → find_by_client_id cid (others' db') ≡ some r
      → (mutate_parked others' cid mutation db' ≡ (err (conflict order_frozen), others' db'))
        × (mutate_parked_with_discard others' cid mutation db'
            ≡ (err (conflict order_frozen), others' db'))
  unfolding mutate_parked mutate_parked_with_discard lock_and_require_order check_mutable
      require_order
  mutate_parked-frozen others' mutation f' = let f = found_completed in ground (arith, f)
