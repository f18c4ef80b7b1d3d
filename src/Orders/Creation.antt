-- ===== src/Orders/Creation.antt =====
-- Creating and voiding orders: the invariant is kept, and the request id names the row from then on.
use coffee_shop_pos_multi_ag.Base.{
  ℕ, ◌≡◌, refl, false, List, [], ◌∷◌, Option, none, some, All, arith, is_none,
}
use coffee_shop_pos_multi_ag.Failure.{unique_violation}
use coffee_shop_pos_multi_ag.Store.{purchase, ProductVariant, SaleLine, TradingDay, Sale, Db}
use coffee_shop_pos_multi_ag.Store.Calls.{M, lift, or_throw, transaction, ◌>>=◌}
use coffee_shop_pos_multi_ag.Store.Queries.{
  ActiveCashier, active_cashier, find_open_day_by_id, find_open_day,
}
use coffee_shop_pos_multi_ag.Store.Rules.{
  Keeps, Post, Post-lift, Post-mono, Post-catch, Post-or_throw, Post-throw_if, Post-transaction,
}
use coffee_shop_pos_multi_ag.Orders.Amounts.{LineAmounts, calculate_line_amounts}
use coffee_shop_pos_multi_ag.Orders.Rows.{
  insert_sale, find_by_client_id, last_order_number, require_sellable_variant, line_create_data,
}
use coffee_shop_pos_multi_ag.Orders.{
  Supply, CreateOrderDto, new_order, replay_or, place_order, create_locked, create_on_open_day,
  create_transaction, create,
}
use coffee_shop_pos_multi_ag.Orders.Invariant.{double_void, Inv}
use coffee_shop_pos_multi_ag.Orders.Keeping.{insert_sale-Post, new_order-IsBalanced}

-- The row that carries this client id.
abbrev pub Named : ℕ → Sale → Db → Type 0
Named cid r db = find_by_client_id cid db ≡ some r

inserted-Named :
    (cid : ℕ) (s r : Sale) (db db' : Db)
    → s.client_generated_id ≡ cid
    → r ≡ s
    → db'.sales ≡ s ∷ db.sales
    → Named cid r db'
unfolding find_by_client_id
inserted-Named cid s r db db' e same rows = rw (rows, same) (ground arith)

replay_or-Post :
    (I : Db → Type 0) (cid : ℕ) (replay : Option Sale) (m : M Sale) (db : Db)
    → I db
    → find_by_client_id cid db ≡ replay
    → Post I (Named cid) (m db)
    → Post I (Named cid) (replay_or replay m db)
replay_or-Post I cid none m db i e h = h
replay_or-Post I cid (some order) m db i e h = (i, e)

not_double :
    (s : Sale) → s.kind ≡ purchase → (ts : List Sale) → All (λ t. double_void s t ≡ false) ts
unfolding double_void
not_double s e [] = tt
not_double s e (t ∷ ts) = (rw e refl, not_double s e ts)

place_order-Post :
    (supply : Supply) (input : CreateOrderDto) (day : TradingDay) (db : Db)
    → Inv db
    → Post Inv (Named input.client_generated_id) (place_order supply input day db)
unfolding place_order
place_order-Post supply input day db v =
    Post-lift Inv (Named input.client_generated_id)
      (require_sellable_variant input.line.product_variant_id db) priced db v
      λ variant _.
        Post-lift Inv (Named input.client_generated_id) (calculate_line_amounts (line variant))
          (λ a. insert_sale (row variant a)) db v
          λ a e.
            Post-mono Inv (λ r db'. (r ≡ row variant a) × (db'.sales ≡ row variant a ∷ db.sales))
              (Named input.client_generated_id) (insert_sale (row variant a) db)
              (insert_sale-Post (row variant a) db v
                (new_order-IsBalanced supply input day last cashier (line variant) a e)
                (not_double (row variant a) (unfold new_order in refl) db.sales))
              λ r db' i q.
                inserted-Named input.client_generated_id (row variant a) r db db'
                  (unfold new_order in refl) q.0 q.1
  where
    last : ℕ
    last = last_order_number day.id db.sales

    cashier : Option ActiveCashier
    cashier = active_cashier input.device_id db

    line : ProductVariant → SaleLine
    line variant = line_create_data supply.line_id input.line variant

    row : ProductVariant → LineAmounts → Sale
    row variant a = new_order supply input day last cashier (line variant) a

    priced : ProductVariant → M Sale
    priced variant =
        lift (calculate_line_amounts (line variant)) >>= λ a. insert_sale (row variant a)

create_locked-Post :
    (supply : Supply) (input : CreateOrderDto) (day : TradingDay) (db : Db)
    → Inv db
    → Post Inv (Named input.client_generated_id) (create_locked supply input day db)
unfolding create_locked
create_locked-Post supply input day db v =
    Post-throw_if Inv (Named input.client_generated_id) (is_none (find_open_day_by_id day.id db)) _
      (λ _ db'.
        replay_or (find_by_client_id input.client_generated_id db') (place_order supply input day)
          db')
      db v
      λ _.
        replay_or-Post Inv input.client_generated_id
          (find_by_client_id input.client_generated_id db) (place_order supply input day) db v refl
          (place_order-Post supply input day db v)

module _ (others : Db → Db) (keep : Keeps Inv others) (supply : Supply) (input : CreateOrderDto)
    (db : Db) (v : Inv db) where
  create_on_open_day-Post :
      Post Inv (Named input.client_generated_id) (create_on_open_day others supply input db)
  unfolding create_on_open_day
  create_on_open_day-Post =
      Post-or_throw Inv (Named input.client_generated_id) (find_open_day db) _
        (λ day db'. transaction (create_locked supply input day) (others db')) db v
        λ day _.
          Post-transaction Inv (Named input.client_generated_id) (create_locked supply input day)
            (others db) (keep db v) (create_locked-Post supply input day (others db) (keep db v))

  create_transaction-Post :
      Post Inv (Named input.client_generated_id) (create_transaction others supply input db)
  unfolding create_transaction
  create_transaction-Post =
      replay_or-Post Inv input.client_generated_id (find_by_client_id input.client_generated_id db)
        (create_on_open_day others supply input) db v refl create_on_open_day-Post

  -- Creating an order keeps the invariant, and what it returns is the row with the request's id:
  -- the new order, or the one that an earlier request of that id made.
  pub create-Post : Post Inv (Named input.client_generated_id) (create others supply input db)
  unfolding create
  create-Post =
      replay_or-Post Inv input.client_generated_id (find_by_client_id input.client_generated_id db)
        _ db v refl
        (Post-catch Inv (Named input.client_generated_id) (create_transaction others supply input) _
          db create_transaction-Post (λ db' v'. found db' v'))
    where
      found :
          (db' : Db)
          → Inv db'
          → Post Inv
              (Named input.client_generated_id)
              (or_throw (find_by_client_id input.client_generated_id db') unique_violation db')
      found db' v' = ground arith
