-- ===== src/Orders/Change.antt =====
-- Handing out the change of an order keeps the invariant of the sales.
use coffee_shop_pos_multi_ag.Base.{
  ℕ, refl, Bool, true, false, ◌&&◌, List, [], ◌∷◌, some, All, Rows, update_where, ◌==◌,
  if◌then◌else◌, pos, is_some, leb_ℤ,
}
use coffee_shop_pos_multi_ag.Failure.{Error, no_change_owed}
use coffee_shop_pos_multi_ag.Store.{Sale, Db}
use coffee_shop_pos_multi_ag.Store.Calls.{M, pure, throw_if, transaction, ◌>>◌}
use coffee_shop_pos_multi_ag.Store.Rules.{
  Keeps, Post, Post-if, Post-bind, Post-throw_if, Post-transaction_of,
}
use coffee_shop_pos_multi_ag.Orders.Rows.{is_parked, update_sales}
use coffee_shop_pos_multi_ag.Orders.{Supply, require_order, lock_and_require_order}
use coffee_shop_pos_multi_ag.Orders.Completion.{
  settle_change_locked, settle_change, owes_unsettled_change,
}
use coffee_shop_pos_multi_ag.Orders.Invariant.{
  IsBalanced, SameKeys, SameKeys-refl, AllApart-Rows, Inv,
}
use coffee_shop_pos_multi_ag.Orders.Frame.{Found, lock_and_require_order-Post, reread}

-- Only the time at which change was handed out is written.
change_settled-Rows :
    (now id : ℕ) (ss : List Sale)
    → All IsBalanced ss
    → let ts =
        update_where
          (λ s. s.id == id && owes_unsettled_change s)
          (λ s. record s { change_settled_at = some now })
          ss in
      All IsBalanced ts × Rows SameKeys ss ts
change_settled-Rows now id [] b = (tt, tt)
change_settled-Rows now id (s ∷ ss) b =
    let h = row (s.id == id && owes_unsettled_change s) in
    let hs = change_settled-Rows now id ss b.1 in ((h.0, hs.0), (h.1, hs.1))
  where
    row :
        (c : Bool)
        → let t = if c then record s { change_settled_at = some now } else s in
          IsBalanced t × SameKeys s t
    row true = (
      record {
        lines = b.0.lines;
        subtotal = b.0.subtotal;
        discount = b.0.discount;
        free_upsize = b.0.free_upsize;
        total = b.0.total;
        paid_up = b.0.paid_up;
      },
      record { id = refl; client = refl; day = refl; number = refl; kind = refl; original = refl },
    )
    row false = (b.0, SameKeys-refl s)

settle_change_locked-Post :
    (supply : Supply) (cid : ℕ) (o : Sale) (db : Db)
    → Inv db
    → Found cid o db
    → Post Inv (Found cid) (settle_change_locked supply cid o db)
unfolding settle_change_locked
settle_change_locked-Post supply cid o db v f =
    Post-throw_if Inv (Found cid) (is_parked o.status) _ (λ _. owed >> write_or_skip) db v
      λ _.
        Post-throw_if Inv (Found cid) (leb_ℤ o.change_owed_cents (pos 0)) _ (λ _. write_or_skip) db
          v
          λ _.
            Post-if Inv (Found cid) (is_some o.change_settled_at) (pure o) (transaction write) db
              (λ _. (v, f))
              λ _. Post-transaction_of Inv (Found cid) write db v (reread cid _ written)
  where
    owed : M (Unit {0})
    owed = throw_if (leb_ℤ o.change_owed_cents (pos 0)) (Error.conflict no_change_owed)

    write : M Sale
    write =
        update_sales (λ s. s.id == o.id && owes_unsettled_change s)
          (λ s. record s { change_settled_at = some supply.now })
        >> require_order cid

    write_or_skip : M Sale
    write_or_skip = if is_some o.change_settled_at then pure o else transaction write

    rows :
        let ts =
          update_where
            (λ s. s.id == o.id && owes_unsettled_change s)
            (λ s. record s { change_settled_at = some supply.now })
            db.sales in
        All IsBalanced ts × Rows SameKeys db.sales ts
    rows = change_settled-Rows supply.now o.id db.sales v.balanced

    written : Inv (record db {
      sales =
          update_where
            (λ s. s.id == o.id && owes_unsettled_change s)
            (λ s. record s { change_settled_at = some supply.now })
            db.sales;
    })
    written = record { balanced = rows.0; apart = AllApart-Rows db.sales _ rows.1 v.apart }

pub settle_change-Post :
    (others : Db → Db) (keep : Keeps Inv others) (supply : Supply) (cid : ℕ) (db : Db) (v : Inv db)
    → Post Inv (Found cid) (settle_change others supply cid db)
unfolding settle_change
settle_change-Post others keep supply cid db v =
    Post-bind Inv (Found cid) (Found cid) (lock_and_require_order others cid)
      (settle_change_locked supply cid) db (lock_and_require_order-Post Inv others cid db keep v)
      λ o db' v' f. settle_change_locked-Post supply cid o db' v' f
