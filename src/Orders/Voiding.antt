-- ===== src/Orders/Voiding.antt =====
-- Voiding an order: the invariant is kept, so an order is voided at most once, and the void row
-- cancels the order.
use coffee_shop_pos_multi_ag.Base.{
  ℕ, ◌≡◌, refl, inl, inr, true, false, not, ◌&&◌, List, [], ◌∷◌, Option, none, some, All, All-find?,
  find?-sound, find?, arith, ◌==◌, Option-cases, is_none,
}
use coffee_shop_pos_multi_ag.Failure.{ok, Error, already_voided, no_open_day, void_open_day_only}
use coffee_shop_pos_multi_ag.Store.{OrderStatus, parked, completed, TradingDay, Sale, Db, Role}
use coffee_shop_pos_multi_ag.Store.Calls.{
  M, or_throw, throw_if, transaction, interleave, ◌>>=◌, ◌>>◌,
}
use coffee_shop_pos_multi_ag.Store.Queries.{
  find_open_day, find_open_day_by_id, ActiveCashier, active_cashier,
}
use coffee_shop_pos_multi_ag.Store.Rules.{
  Keeps, Post, Post-lift, Post-mono, Post-bind, Post-or_throw, Post-throw_if, Post-transaction,
}
use coffee_shop_pos_multi_ag.Orders.Rows.{
  clashes, is_purchase, is_parked, find_by_client_id, insert_sale, last_order_number,
}
use coffee_shop_pos_multi_ag.Orders.{Supply, replay_or, lock_and_require_order}
use coffee_shop_pos_multi_ag.Orders.Completion.{
  VoidOrderDto, corrects, has_void, is_admin, find_void_replay, void_row, void_on, void_locked,
  void_after_lock, void_transaction, void_order,
}
use coffee_shop_pos_multi_ag.Orders.Invariant.{IsBalanced, double_void, Apart, Inv}
use coffee_shop_pos_multi_ag.Orders.Keeping.{any-false, insert_sale-Post, void_row-IsBalanced}
use coffee_shop_pos_multi_ag.Orders.Frame.{Found, lock_and_require_order-Post}

-- A void row of the order with this id.
abbrev pub Voids : ℕ → Sale → Type 0
Voids id r = (is_purchase r.kind ≡ false) × (r.corrects_sale_id ≡ some id)

not_voided_twice :
    (s : Sale) (id : ℕ) (ts : List Sale)
    → s.corrects_sale_id ≡ some id
    → All (λ t. not (is_purchase t.kind) && corrects id t.corrects_sale_id ≡ false) ts
    → All (λ t. double_void s t ≡ false) ts
unfolding double_void
not_voided_twice s id [] e h = tt
not_voided_twice s id (t ∷ ts) e h = (rw e (ground arith), not_voided_twice s id ts e h.1)

pub completed_of : (o : OrderStatus) → is_parked o ≡ false → o ≡ completed
completed_of parked h = cc
completed_of completed h = refl

-- The row voids the order that has this client id.
abbrev pub VoidOf : ℕ → Sale → Db → Type 0
VoidOf cid r db = (o : Sale) × (find_by_client_id cid db ≡ some o) × Voids o.id r

Apart-client : (s t : Sale) → Apart s t → s.client_generated_id == t.client_generated_id ≡ false
unfolding clashes
Apart-client s t a = ground arith

-- A new row hides no row that was there.
found_behind :
    (cid : ℕ) (s o : Sale) (ss : List Sale)
    → All (Apart s) ss
    → find? (λ t. t.client_generated_id == cid) ss ≡ some o
    → find? (λ t. t.client_generated_id == cid) (s ∷ ss) ≡ some o
found_behind cid s o ss a e =
    let apart : Apart s o = All-find? (Apart s) (λ t. t.client_generated_id == cid) ss o a e in
    let own : o.client_generated_id == cid ≡ true =
      find?-sound (λ t. t.client_generated_id == cid) ss o e in
    ground (arith, Apart-client s o apart)

-- The row of the order, `o` as it was read and `p` as it is now.
module _ (supply : Supply) (input : VoidOrderDto) (actor : Role) (cid : ℕ) (o p : Sale) (db : Db)
    (v : Inv db) (b : IsBalanced o) (f : find_by_client_id cid db ≡ some p)
    (same : p.id ≡ o.id) where
  void_on-Post :
      (day : TradingDay)
      → o.status ≡ completed
      → has_void o.id db ≡ false
      → Post Inv (VoidOf cid) (void_on supply input actor o day db)
  unfolding void_on has_void
  void_on-Post day st fresh =
      Post-throw_if Inv (VoidOf cid) (is_none (find_open_day_by_id day.id db)) _
        (λ _. allowed >> insert) db v
        λ _.
          Post-throw_if Inv (VoidOf cid) _ _ (λ _. insert) db v
            λ _.
              Post-mono Inv (λ r db'. (r ≡ row) × (db'.sales ≡ row ∷ db.sales)) (VoidOf cid)
                (insert_sale row db)
                (insert_sale-Post row db v
                  (void_row-IsBalanced supply input o day last cashier b st)
                  (not_voided_twice row o.id db.sales (unfold void_row in refl)
                    (any-false _ db.sales fresh)))
                voided
    where
      last : ℕ
      last = last_order_number day.id db.sales

      cashier : Option ActiveCashier
      cashier = active_cashier input.device_id db

      row : Sale
      row = void_row supply input o day last cashier

      insert : M Sale
      insert db' =
          insert_sale
            (void_row supply input o day (last_order_number day.id db'.sales)
              (active_cashier input.device_id db'))
            db'

      allowed : M (Unit {0})
      allowed =
          throw_if (not (is_admin actor) && not (o.trading_day_id == day.id))
            (Error.forbidden void_open_day_only)

      voided :
          (r : Sale) (db' : Db)
          → Inv db'
          → (r ≡ row) × (db'.sales ≡ row ∷ db.sales)
          → VoidOf cid r db'
      voided r db' i q =
          let apart : All (Apart row) db.sales = (rw q.1 at i.apart).0 in
          (
            p,
            unfold find_by_client_id in rw q.1 (found_behind cid row p db.sales apart f),
            rw (q.0, same) (unfold void_row in (refl, refl)),
          )

-- What others may do while the row lock on an order that is not void is held.
abbrev pub Respects : ℕ → (Db → Db) → Type 0
Respects cid closing =
    (o : Sale) (db : Db)
    → find_by_client_id cid db ≡ some o
    → has_void o.id db ≡ false
    → (has_void o.id (closing db) ≡ false)
      × ((p : Sale) × (find_by_client_id cid (closing db) ≡ some p) × (p.id ≡ o.id))

module _ (closing : Db → Db) (keep_closing : Keeps Inv closing) (supply : Supply)
    (input : VoidOrderDto) (actor : Role) (cid : ℕ) (respects : Respects cid closing) (o : Sale)
    (db : Db) (v : Inv db) (b : IsBalanced o) (f : find_by_client_id cid db ≡ some o) where
  void_locked-Post : Post Inv (VoidOf cid) (void_locked closing supply input actor o db)
  unfolding void_locked
  void_locked-Post =
      Post-throw_if Inv (VoidOf cid) (is_parked o.status) _ (λ _. once >> on_day) db v
        λ st.
          Post-throw_if Inv (VoidOf cid) (has_void o.id db) _ (λ _. on_day) db v
            λ fresh.
              let (still, (p, f', same)) = respects o db f fresh in
              Post-or_throw Inv (VoidOf cid) (find_open_day db) _ waiting db v λ day _.
                void_on-Post supply input actor cid o p (closing db) (keep_closing db v) b f' same
                  day (completed_of o.status st) still
    where
      waiting : TradingDay → M Sale
      waiting day = interleave closing >> void_on supply input actor o day

      once : M (Unit {0})
      once db' = throw_if (has_void o.id db') (Error.conflict already_voided) db'

      on_day : M Sale
      on_day db' = (or_throw (find_open_day db') (Error.conflict no_open_day) >>= waiting) db'

-- A replay is the void of the order that the request names.
replay_VoidOf :
    (vcid cid : ℕ) (r : Sale) (db : Db)
    → find_void_replay vcid cid db ≡ ok (some r)
    → VoidOf cid r db
unfolding find_void_replay
replay_VoidOf vcid cid r db e = elim (Option-cases (find_by_client_id cid db)) [
  | inl missing ↦ absurd (ground arith)
  | inr (o, f) ↦ (o, f, ground arith)
]

replay_or-VoidOf :
    (vcid cid : ℕ) (m : M Sale) (db : Db)
    → Inv db
    → (replay : Option Sale) → find_void_replay vcid cid db ≡ ok replay
    → Post Inv (VoidOf cid) (m db)
    → Post Inv (VoidOf cid) (replay_or replay m db)
replay_or-VoidOf vcid cid m db v none e h = h
replay_or-VoidOf vcid cid m db v (some r) e h = (v, replay_VoidOf vcid cid r db e)

IsBalanced-found :
    (cid : ℕ) (o : Sale) (db : Db) → Inv db → find_by_client_id cid db ≡ some o → IsBalanced o
unfolding find_by_client_id
IsBalanced-found cid o db v f =
    All-find? IsBalanced (λ t. t.client_generated_id == cid) db.sales o v.balanced f

void_after_lock-Post :
    (closing : Db → Db) (keep_closing : Keeps Inv closing) (supply : Supply) (cid : ℕ)
    (respects : Respects cid closing) (input : VoidOrderDto) (actor : Role) (o : Sale) (db : Db)
    → Inv db
    → Found cid o db
    → Post Inv (VoidOf cid) (void_after_lock closing supply cid input actor o db)
unfolding void_after_lock
void_after_lock-Post closing keep_closing supply cid respects input actor o db v f =
    Post-lift Inv (VoidOf cid) (find_void_replay input.client_generated_id cid db)
      (λ replay. replay_or replay (transaction (void_locked closing supply input actor o))) db v
      λ replay e. replay_or-VoidOf input.client_generated_id cid _ db v replay e (
        Post-transaction Inv (VoidOf cid) (void_locked closing supply input actor o) db v (
          void_locked-Post closing keep_closing supply input actor cid respects o db v
            (IsBalanced-found cid o db v f.0) f.0))

-- Voiding keeps the invariant, and what it returns is a void of the order that was named.
void_transaction-Post :
    (others : Db → Db) (keep : Keeps Inv others) (closing : Db → Db)
    (keep_closing : Keeps Inv closing) (supply : Supply) (cid : ℕ) (respects : Respects cid closing)
    (input : VoidOrderDto) (actor : Role) (db : Db)
    → Inv db
    → Post Inv (VoidOf cid) (void_transaction others closing supply cid input actor db)
unfolding void_transaction
void_transaction-Post others keep closing keep_closing supply cid respects input actor db v =
    Post-lift Inv (VoidOf cid) (find_void_replay input.client_generated_id cid db)
      (λ replay. replay_or replay locked) db v
      λ replay e. replay_or-VoidOf input.client_generated_id cid locked db v replay e (
        Post-bind Inv (Found cid) (VoidOf cid) (lock_and_require_order others cid)
          (void_after_lock closing supply cid input actor) db
          (lock_and_require_order-Post Inv others cid db keep v)
          λ o db' v' f.
            void_after_lock-Post closing keep_closing supply cid respects input actor o db' v' f)
  where
    locked : M Sale
    locked = lock_and_require_order others cid >>= void_after_lock closing supply cid input actor

pub void_order-Post :
    (others : Db → Db) (keep : Keeps Inv others) (closing : Db → Db)
    (keep_closing : Keeps Inv closing) (supply : Supply) (cid : ℕ) (respects : Respects cid closing)
    (input : VoidOrderDto) (actor : Role) (db : Db)
    → Inv db
    → Post Inv (VoidOf cid) (void_order others closing supply cid input actor db)
unfolding void_order
void_order-Post others keep closing keep_closing supply cid respects input actor db v =
    Post-lift Inv (VoidOf cid) (find_void_replay input.client_generated_id cid db)
      (λ replay. replay_or replay (void_transaction others closing supply cid input actor)) db v
      λ replay e.
        replay_or-VoidOf input.client_generated_id cid
          (void_transaction others closing supply cid input actor) db v replay e
          (void_transaction-Post others keep closing keep_closing supply cid respects input actor db
            v)
