-- ===== src/Orders/Ending.antt =====
-- Completing an order keeps the invariant of the sales.
pub mod Frozen
use coffee_shop_pos_multi_ag.Base.{
  ℕ, ◌≡◌, refl, sym, ◌∙◌, ap, inl, inr, Bool, true, false, not, ◌&&◌, List, [], ◌∷◌, ◌++◌, Option,
  some, All, Rows, update_where, any, map, arith, ◌==◌, if◌then◌else◌, Bool-cases, ℤ,
}
use coffee_shop_pos_multi_ag.Failure.{Error, order_empty}
use coffee_shop_pos_multi_ag.Store.{parked, Sale, Db}
use coffee_shop_pos_multi_ag.Store.Calls.{M, pure, lift, throw_if, transaction, ◌>>=◌, ◌>>◌}
use coffee_shop_pos_multi_ag.Store.Rules.{
  Keeps, Post, Post-lift, Post-if, Post-bind, Post-throw_if, Post-transaction_of,
}
use coffee_shop_pos_multi_ag.Orders.Amounts.{is_nil}
use coffee_shop_pos_multi_ag.Orders.Tender.{CompleteOrderDto, validate_tender}
use coffee_shop_pos_multi_ag.Orders.Rows.{is_parked, find_by_client_id, update_sales}
use coffee_shop_pos_multi_ag.Orders.Settlement.{paid, validate_tender-paid}
use coffee_shop_pos_multi_ag.Orders.{
  Supply, require_order, require_order_day_open, lock_and_require_order,
}
use coffee_shop_pos_multi_ag.Orders.Completion.{
  settled, create_payments, settle, complete_locked, complete,
}
use coffee_shop_pos_multi_ag.Orders.Invariant.{
  IsBalanced, SameKeys, SameKeys-refl, AllApart-Rows, Inv, found_unique,
}
use coffee_shop_pos_multi_ag.Orders.Editing.{parked_of_test}
use coffee_shop_pos_multi_ag.Orders.Frame.{Found, lock_and_require_order-Post, reread}

update_where-none :
    {A : Type 0} (p : A → Bool) (f : A → A) (xs : List A)
    → any p xs ≡ false
    → update_where p f xs ≡ xs
update_where-none p f [] h = refl
update_where-none p f (x ∷ xs) h = ground (arith, update_where-none p f xs)

-- The row of an order that has been paid.
pub paid_row : ℕ → CompleteOrderDto → Option ℤ → Sale → Sale
paid_row now input received s = record (settled now input received s) {
  payments = (settled now input received s).payments ++ input.payments;
}

paid_row-IsBalanced :
    (now : ℕ) (input : CompleteOrderDto) (received : Option ℤ) (s : Sale)
    → IsBalanced s
    → s.payments ≡ []
    → paid input.payments ≡ s.total_cents
    → IsBalanced (paid_row now input received s)
unfolding paid_row settled
paid_row-IsBalanced now input received s b none_yet e = record {
  lines = b.lines;
  subtotal = b.subtotal;
  discount = b.discount;
  free_upsize = b.free_upsize;
  total = b.total;
  paid_up = rw none_yet e;
}

module _ (now : ℕ) (input : CompleteOrderDto) (received : Option ℤ) (o : Sale)
    (st : o.status ≡ parked) (exact : paid input.payments ≡ o.total_cents) where
  -- A row after both writes of `settle`.
  pub both : Sale → Sale
  both s =
      let t : Sale =
        if s.id == o.id && is_parked s.status then settled now input received s else s in
      if t.id == o.id then record t { payments = t.payments ++ input.payments } else t

  pub both-hit :
      (s : Sale)
      → s.id == o.id ≡ true
      → is_parked s.status ≡ true
      → both s ≡ paid_row now input received s
  unfolding both paid_row settled
  both-hit s h k = rw h (rw k (rw h refl))

  pub both-miss : (s : Sale) → s.id == o.id ≡ false → both s ≡ s
  unfolding both
  both-miss s h = rw h (rw h refl)

  paid_row-SameKeys : (s : Sale) → SameKeys s (paid_row now input received s)
  unfolding paid_row settled
  paid_row-SameKeys s = record {
    id = refl;
    client = refl;
    day = refl;
    number = refl;
    kind = refl;
    original = refl;
  }

  both-row :
      (s : Sale) → IsBalanced s → (s.id ≡ o.id → s ≡ o) → IsBalanced (both s) × SameKeys s (both s)
  both-row s b only = elim (Bool-cases (s.id == o.id)) [
    | inl hit ↦
        let same : s ≡ o = only (ground arith) in
        let at : s.status ≡ parked = ap (λ (x : Sale). x.status) same ∙ st in
        rw (both-hit s hit (rw at refl)) (
          paid_row-IsBalanced now input received s b (rw at at b.paid_up)
              (exact ∙ sym (ap (λ (x : Sale). x.total_cents) same)),
          paid_row-SameKeys s,
        )
    | inr miss ↦ rw (both-miss s miss) (b, SameKeys-refl s)
  ]

  both-Rows :
      (ss : List Sale)
      → All IsBalanced ss
      → All (λ s. s.id ≡ o.id → s ≡ o) ss
      → All IsBalanced (map both ss) × Rows SameKeys ss (map both ss)
  both-Rows [] b u = (tt, tt)
  both-Rows (s ∷ ss) b u =
      let h = both-row s b.0 u.0 in let hs = both-Rows ss b.1 u.1 in ((h.0, hs.0), (h.1, hs.1))

  -- The two writes, one after the other, are `both` on each row.
  pub writes-both :
      (ss : List Sale)
      → update_where
          (λ s. s.id == o.id)
          (λ s. record s { payments = s.payments ++ input.payments })
          (update_where (λ s. s.id == o.id && is_parked s.status) (settled now input received) ss)
        ≡ map both ss
  unfolding both
  writes-both [] = refl
  writes-both (s ∷ ss) = ap (λ r. both s ∷ r) (writes-both ss)

  create_payments-Post :
      (db : Db)
      → Inv db
      → All (λ s. s.id ≡ o.id → s ≡ o) db.sales
      → Post
          (λ _. Unit {0})
          (λ _ db'. Inv db')
          (create_payments o.id input.payments (record db {
            sales =
                update_where
                  (λ s. s.id == o.id && is_parked s.status)
                  (settled now input received)
                  db.sales;
          }))
  unfolding create_payments
  create_payments-Post db v u =
      Post-throw_if (λ _. Unit {0}) (λ _ db'. Inv db') _ _ write _ tt λ _. (tt, written)
    where
      write : Unit {0} → M (Unit {0})
      write _ =
          update_sales (λ s. s.id == o.id)
            (λ s. record s { payments = s.payments ++ input.payments })

      rows : All IsBalanced (map both db.sales) × Rows SameKeys db.sales (map both db.sales)
      rows = both-Rows db.sales v.balanced u

      written : Inv (record db {
        sales =
            update_where
              (λ s. s.id == o.id)
              (λ s. record s { payments = s.payments ++ input.payments })
              (update_where
                (λ s. s.id == o.id && is_parked s.status)
                (settled now input received)
                db.sales);
      })
      written = record {
        balanced = rw (writes-both db.sales) (rows.0);
        apart =
            rw (writes-both db.sales) (AllApart-Rows db.sales (map both db.sales) rows.1 v.apart);
      }

settle-Post :
    (now cid : ℕ) (input : CompleteOrderDto) (received : Option ℤ) (o : Sale) (db : Db)
    → Inv db
    → (find_by_client_id cid db ≡ some o)
    → o.status ≡ parked
    → paid input.payments ≡ o.total_cents
    → Post (λ _. Unit {0}) (λ r db'. Inv db' × Found cid r db') (settle now cid input received o db)
unfolding settle find_by_client_id
settle-Post now cid input received o db v f st exact =
    elim (Bool-cases (any (λ s. s.id == o.id && is_parked s.status) db.sales)) [
      | inl e ↦ rw (e, Post, settle) paid_path
      | inr e ↦ rw (e, Post, settle) (reread cid (first db) (unwritten e))
    ]
  where
    first : Db → Db
    first d = record d {
      sales =
          update_where (λ s. s.id == o.id && is_parked s.status) (settled now input received)
            d.sales;
    }

    unwritten : any (λ s. s.id == o.id && is_parked s.status) db.sales ≡ false → Inv (first db)
    unwritten e =
        rw
          (update_where-none (λ s. s.id == o.id && is_parked s.status) (settled now input received)
            db.sales e)
          v

    paid_path :
        Post
          (λ _. Unit {0})
          (λ r db'. Inv db' × Found cid r db')
          ((create_payments o.id input.payments >> require_order cid) (first db))
    paid_path =
        Post-bind (λ _. Unit {0}) (λ _ db'. Inv db') (λ r db'. Inv db' × Found cid r db')
          (create_payments o.id input.payments) (λ _. require_order cid) (first db)
          (create_payments-Post now input received o st exact db v
            (found_unique cid db.sales o v.apart f))
          λ _ db' _ w. reread cid db' w

complete_locked-Post :
    (supply : Supply) (cid : ℕ) (input : CompleteOrderDto) (o : Sale) (db : Db)
    → Inv db
    → Found cid o db
    → Post Inv (Found cid) (complete_locked supply cid input o db)
unfolding complete_locked require_order_day_open
complete_locked-Post supply cid input o db v f =
    Post-if Inv (Found cid) (not (is_parked o.status)) (pure o) pay db (λ _. (v, f))
      λ parked_test.
        Post-throw_if Inv (Found cid) (is_nil o.lines) _ (λ _. open_day >> paying) db v
          λ _.
            Post-throw_if Inv (Found cid) _ _ (λ _. paying) db v
              λ _.
                Post-lift Inv (Found cid) (validate_tender o.total_cents input) finish db v
                  λ received e.
                    Post-transaction_of Inv (Found cid) (settle supply.now cid input received o) db
                      v
                      (settle-Post supply.now cid input received o db v f.0
                        (parked_of_test o.status (ground arith))
                        (validate_tender-paid o.total_cents input received e))
  where
    finish : Option ℤ → M Sale
    finish received = transaction (settle supply.now cid input received o)

    paying : M Sale
    paying = lift (validate_tender o.total_cents input) >>= finish

    open_day : M (Unit {0})
    open_day = require_order_day_open o.trading_day_id

    pay : M Sale
    pay = throw_if (is_nil o.lines) (Error.bad_request order_empty) >> (open_day >> paying)

module _ (others : Db → Db) (keep : Keeps Inv others) (supply : Supply) (cid : ℕ) (db : Db)
    (v : Inv db) where
  -- Completing an order keeps the invariant, so its payments make up its total.
  pub complete-Post :
      (input : CompleteOrderDto) → Post Inv (Found cid) (complete others supply cid input db)
  unfolding complete
  complete-Post input =
      Post-bind Inv (Found cid) (Found cid) (lock_and_require_order others cid)
        (complete_locked supply cid input) db (lock_and_require_order-Post Inv others cid db keep v)
        λ o db' v' f. complete_locked-Post supply cid input o db' v' f
