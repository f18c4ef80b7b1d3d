-- ===== src/Orders/HeaderEdits.antt =====
-- Every request that changes a parked order keeps the invariant of the sales.
use coffee_shop_pos_multi_ag.Base.{
  ℕ, ◌≡◌, refl, inl, inr, Bool, true, false, ◌&&◌, List, [], ◌∷◌, All, Rows, update_where, arith,
  ◌==◌, if◌then◌else◌, or_else,
}
use coffee_shop_pos_multi_ag.Store.{Sale, Db}
use coffee_shop_pos_multi_ag.Store.Rules.{Keeps, Post}
use coffee_shop_pos_multi_ag.Orders.Rows.{is_parked, update_sales, AddOrderLineDto}
use coffee_shop_pos_multi_ag.Orders.{Supply}
use coffee_shop_pos_multi_ag.Orders.Lines.{
  UpdateOrderDto, UpdateOrderLineDto, update, add_line_to, add_line, update_line_of, update_line,
  increment_line, decrement_line_of, decrement_line, remove_line_of, remove_line,
}
use coffee_shop_pos_multi_ag.Orders.Invariant.{IsBalanced, Inv}
use coffee_shop_pos_multi_ag.Orders.Editing.{Edit}
use coffee_shop_pos_multi_ag.Orders.Frame.{
  Found, FoundIfKept, Edits, mutate_parked-Post, mutate_parked_with_discard-Post,
}
use coffee_shop_pos_multi_ag.Orders.LineEdits.{
  add_line-Edits, update_line-Edits, increment_line-Edits, decrement_line-Edits, remove_line-Edits,
}

edited_header :
    (id : ℕ) (input : UpdateOrderDto) (ss : List Sale)
    → All IsBalanced ss
    → Rows (Edit id) ss (
        update_where
          (λ s. s.id == id && is_parked s.status)
          (λ s. record s {
            customer_name = or_else input.customer_name s.customer_name;
            service_type = or_else input.service_type s.service_type;
          })
          ss)
edited_header id input [] b = tt
edited_header id input (s ∷ ss) b =
    (row (s.id == id && is_parked s.status) refl, edited_header id input ss b.1)
  where
    row :
        (c : Bool)
        → s.id == id && is_parked s.status ≡ c
        → Edit id s (
            if c
            then record s {
              customer_name = or_else input.customer_name s.customer_name;
              service_type = or_else input.service_type s.service_type;
            }
            else s)
    row true e = inr (
      ground arith,
      record {
        keys = record {
          id = refl;
          client = refl;
          day = refl;
          number = refl;
          kind = refl;
          original = refl;
        };
        status = refl;
        payments = refl;
        lines = b.0.lines;
      },
    )
    row false e = inl refl

update-Edits :
    (cid : ℕ) (input : UpdateOrderDto)
    → Edits cid (λ o.
      update_sales
        (λ s. s.id == o.id && is_parked s.status)
        (λ s. record s {
          customer_name = or_else input.customer_name s.customer_name;
          service_type = or_else input.service_type s.service_type;
        }))
update-Edits cid input o db v f = (tt, edited_header o.id input db.sales v.balanced)

module _ (others : Db → Db) (keep : Keeps Inv others) (cid : ℕ) (db : Db) (v : Inv db) where
  pub add_line-Post :
      (supply : Supply) (input : AddOrderLineDto)
      → Post Inv (Found cid) (add_line others supply cid input db)
  unfolding add_line
  add_line-Post supply input =
      mutate_parked-Post others keep cid (add_line_to supply input)
        (add_line-Edits supply cid input) db v

  pub update_line-Post :
      (line_id : ℕ) (input : UpdateOrderLineDto)
      → Post Inv (Found cid) (update_line others cid line_id input db)
  unfolding update_line
  update_line-Post line_id input =
      mutate_parked-Post others keep cid (update_line_of line_id input)
        (update_line-Edits cid line_id input) db v

  pub increment_line-Post :
      (line_id : ℕ) → Post Inv (Found cid) (increment_line others cid line_id db)
  unfolding increment_line
  increment_line-Post line_id =
      mutate_parked-Post others keep cid _ (increment_line-Edits cid line_id) db v

  pub decrement_line-Post :
      (line_id : ℕ) → Post Inv (FoundIfKept cid) (decrement_line others cid line_id db)
  unfolding decrement_line
  decrement_line-Post line_id =
      mutate_parked_with_discard-Post others keep cid (decrement_line_of line_id)
        (decrement_line-Edits cid line_id) db v

  pub remove_line-Post :
      (line_id : ℕ) → Post Inv (FoundIfKept cid) (remove_line others cid line_id db)
  unfolding remove_line
  remove_line-Post line_id =
      mutate_parked_with_discard-Post others keep cid (remove_line_of line_id)
        (remove_line-Edits cid line_id) db v

  pub update-Post : (input : UpdateOrderDto) → Post Inv (Found cid) (update others cid input db)
  unfolding update
  update-Post input = mutate_parked-Post others keep cid _ (update-Edits cid input) db v
