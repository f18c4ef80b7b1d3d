-- ===== src/Orders/Frame.antt =====
-- The frames `mutate_parked` and `mutate_parked_with_discard` keep the invariant, for every edit of
-- the order that they hand on.
use coffee_shop_pos_multi_ag.Base.{
  ℕ, ◌≡◌, ◌∙◌, ap, inl, inr, true, Option, none, some, All, All-map, Rows, arith, Bool-cases,
}
use coffee_shop_pos_multi_ag.Store.{parked, Sale, Db}
use coffee_shop_pos_multi_ag.Store.Calls.{M, pure, transaction, ◌>>=◌, ◌>>◌}
use coffee_shop_pos_multi_ag.Store.Rules.{Keeps, Post, Post-bind, Post-transaction_of, Post-whole}
use coffee_shop_pos_multi_ag.Orders.Amounts.{is_nil}
use coffee_shop_pos_multi_ag.Orders.Rows.{is_purchase, find_by_client_id, recalculate_order}
use coffee_shop_pos_multi_ag.Orders.{
  require_order, lock_and_require_order, check_mutable, edit_order, keep_or_discard, mutate_parked,
  mutate_parked_with_discard, lines_of,
}
use coffee_shop_pos_multi_ag.Orders.Invariant.{Inv, found_unique}
use coffee_shop_pos_multi_ag.Orders.Editing.{
  Edit, ParkedAt, parked_of_test, recalculate_order-Inv, delete_sale-Inv,
}

-- The order with this client id, as a purchase.
abbrev pub Found : ℕ → Sale → Db → Type 0
Found cid o db = (find_by_client_id cid db ≡ some o) × (is_purchase o.kind ≡ true)

module _ (I : Db → Type 0) where
  pub require_order-Post : (cid : ℕ) (db : Db) → I db → Post I (Found cid) (require_order cid db)
  unfolding require_order
  require_order-Post cid db i = ground arith

  pub lock_and_require_order-Post :
      (others : Db → Db) (cid : ℕ) (db : Db)
      → Keeps I others
      → I db
      → Post I (Found cid) (lock_and_require_order others cid db)
  unfolding lock_and_require_order
  lock_and_require_order-Post others cid db k i =
      Post-bind I (Found cid) (Found cid) (require_order cid) _ db (require_order-Post cid db i)
        λ o db' i' _. require_order-Post cid (others db') (k db' i')

-- An order that may be changed: it is parked.
abbrev pub FoundParked : ℕ → Sale → Db → Type 0
FoundParked cid o db = (find_by_client_id cid db ≡ some o) × (o.status ≡ parked)

pub check_mutable-Post :
    (I : Db → Type 0) (cid : ℕ) (o : Sale) (db : Db)
    → I db
    → Found cid o db
    → Post I (FoundParked cid) (check_mutable o db)
unfolding check_mutable
check_mutable-Post I cid o db i f = ground (arith, parked_of_test o.status)

-- What an edit may do to the order that it is given: change its row as `Edit` says.
abbrev pub Edits : ℕ → (Sale → M (Unit {0})) → Type 0
Edits cid mutation =
    (o : Sale) (db : Db)
    → Inv db
    → FoundParked cid o db
    → Post (λ _. Unit {0}) (λ _ db'. Rows (Edit o.id) db.sales db'.sales) (mutation o db)

parked_at :
    (cid : ℕ) (o : Sale) (db : Db) → Inv db → FoundParked cid o db → All (ParkedAt o.id) db.sales
unfolding find_by_client_id
parked_at cid o db v f =
    All-map (λ s. s.id ≡ o.id → s ≡ o) (ParkedAt o.id)
      (λ s h e. ap (λ (x : Sale). x.status) (h e) ∙ f.1) db.sales
      (found_unique cid db.sales o v.apart f.0)

-- The order read again, after a step that has put the database in order.
pub reread :
    (cid : ℕ) (db : Db)
    → Inv db
    → Post (λ _. Unit {0}) (λ r db'. Inv db' × Found cid r db') (require_order cid db)
reread cid db w =
    Post-whole Inv (Found cid) (require_order cid db) (require_order-Post Inv cid db w)

edit_order-Post :
    (cid : ℕ) (mutation : Sale → M (Unit {0}))
    → Edits cid mutation
    → (o : Sale) (db : Db) → Inv db
    → FoundParked cid o db
    → Post (λ _. Unit {0}) (λ r db'. Inv db' × Found cid r db') (edit_order cid mutation o db)
unfolding edit_order recalculate_order
edit_order-Post cid mutation h o db v f =
    Post-bind (λ _. Unit {0}) (λ _ db'. Rows (Edit o.id) db.sales db'.sales)
      (λ r db'. Inv db' × Found cid r db') (mutation o)
      (λ _. recalculate_order o.id >> require_order cid) db (h o db v f)
      λ _ db' _ rows.
        reread cid (recalculate_order o.id db').1
          (recalculate_order-Inv o.id db db' v (parked_at cid o db v f) rows)

-- The order found again, or nothing where it was discarded.
abbrev pub FoundIfKept : ℕ → Option Sale → Db → Type 0
FoundIfKept cid none db = Unit
FoundIfKept cid (some o) db = Found cid o db

keep_or_discard-Post :
    (cid : ℕ) (o : Sale) (db db' : Db)
    → Inv db
    → All (ParkedAt o.id) db.sales
    → Rows (Edit o.id) db.sales db'.sales
    → Post (λ _. Unit {0}) (λ r db''. Inv db'' × FoundIfKept cid r db'') (keep_or_discard cid o db')
unfolding keep_or_discard recalculate_order
keep_or_discard-Post cid o db db' v p rows = elim (Bool-cases (is_nil (lines_of o.id db'))) [
  | inl e ↦ rw (e, Post, keep_or_discard) (tt, (delete_sale-Inv o.id db db' v rows, tt))
  | inr e ↦
      rw (e, Post, keep_or_discard)
        (found (recalculate_order o.id db').1 (recalculate_order-Inv o.id db db' v p rows))
]
  where
    found :
        (db'' : Db)
        → Inv db''
        → Post
            (λ _. Unit {0})
            (λ r db''. Inv db'' × FoundIfKept cid r db'')
            ((require_order cid >>= λ o'. pure (some o')) db'')
    found db'' w =
        Post-bind (λ _. Unit {0}) (λ r db'. Inv db' × Found cid r db')
          (λ r db''. Inv db'' × FoundIfKept cid r db'') (require_order cid) (λ o'. pure (some o'))
          db'' (reread cid db'' w) (λ o' db3 _ h. (tt, h))

module _ (others : Db → Db) (keep : Keeps Inv others) (cid : ℕ) (mutation : Sale → M (Unit {0}))
    (edits : Edits cid mutation) (db : Db) (v : Inv db) where
  -- Whatever edit it is given, the frame keeps the invariant, and returns the order as it stands.
  pub mutate_parked-Post : Post Inv (Found cid) (mutate_parked others cid mutation db)
  unfolding mutate_parked
  mutate_parked-Post =
      Post-bind Inv (Found cid) (Found cid) (lock_and_require_order others cid)
        (λ locked. check_mutable locked >>= λ order. transaction (edit_order cid mutation order)) db
        (lock_and_require_order-Post Inv others cid db keep v)
        λ o db' v' f.
          Post-bind Inv (FoundParked cid) (Found cid) (check_mutable o)
            (λ order. transaction (edit_order cid mutation order)) db'
            (check_mutable-Post Inv cid o db' v' f)
            λ o' db'' v'' f'.
              Post-transaction_of Inv (Found cid) (edit_order cid mutation o') db'' v''
                (edit_order-Post cid mutation edits o' db'' v'' f')

  pub mutate_parked_with_discard-Post :
      Post Inv (FoundIfKept cid) (mutate_parked_with_discard others cid mutation db)
  unfolding mutate_parked_with_discard
  mutate_parked_with_discard-Post =
      Post-bind Inv (Found cid) (FoundIfKept cid) (lock_and_require_order others cid)
        (λ locked. check_mutable locked >>= λ order. transaction (edit order)) db
        (lock_and_require_order-Post Inv others cid db keep v)
        λ o db' v' f.
          Post-bind Inv (FoundParked cid) (FoundIfKept cid) (check_mutable o)
            (λ order. transaction (edit order)) db' (check_mutable-Post Inv cid o db' v' f)
            λ o' db'' v'' f'. Post-transaction_of Inv (FoundIfKept cid) (edit o') db'' v'' (
              Post-bind (λ _. Unit {0}) (λ _ db3. Rows (Edit o'.id) db''.sales db3.sales)
                (λ r db3. Inv db3 × FoundIfKept cid r db3) (mutation o')
                (λ _. keep_or_discard cid o') db'' (edits o' db'' v'' f')
                λ _ db3 _ rows.
                  keep_or_discard-Post cid o' db'' db3 v'' (parked_at cid o' db'' v'' f') rows)
    where
      edit : Sale → M (Option Sale)
      edit order = mutation order >> keep_or_discard cid order
