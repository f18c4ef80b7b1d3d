-- ===== src/Orders/LineEdits.antt =====
-- The changes of the lines of a parked order, as edits of its row.
use coffee_shop_pos_multi_ag.Base.{
  ℕ, ◌≡◌, refl, inl, inr, Bool, true, false, List, [], ◌∷◌, Option, none, some, All,
  All-update_where, All-delete_where, Rows, update_where, delete_where, arith, ◌==◌, ltb,
  if◌then◌else◌, ℤ, pos, ◌+ℤ◌, ◌-ℤ◌, eq_ℤ, or_else,
}
use coffee_shop_pos_multi_ag.Failure.{ok}
use coffee_shop_pos_multi_ag.Store.{SaleLine, Sale, Db}
use coffee_shop_pos_multi_ag.Store.Calls.{M, lift, ◌>>=◌}
use coffee_shop_pos_multi_ag.Store.Rules.{Post, Post-lift, Post-if}
use coffee_shop_pos_multi_ag.Orders.Amounts.{LineAmounts, with_amounts, calculate_line_amounts}
use coffee_shop_pos_multi_ag.Orders.Rows.{
  insert_line, update_line_row, delete_line, create_line, require_owned_line,
  require_sellable_variant, line_create_data, AddOrderLineDto,
}
use coffee_shop_pos_multi_ag.Orders.Pricing.{calculate_line_amounts-IsTotalled}
use coffee_shop_pos_multi_ag.Orders.{Supply}
use coffee_shop_pos_multi_ag.Orders.Lines.{
  UpdateOrderLineDto, write_quantity, add_line_to, next_line, update_line_of, decrement_line_of,
  remove_line_of, merge_target,
}
use coffee_shop_pos_multi_ag.Orders.Invariant.{IsLineBalanced, IsBalanced, Inv}
use coffee_shop_pos_multi_ag.Orders.Editing.{Edit}
use coffee_shop_pos_multi_ag.Orders.Frame.{Edits}

-- A change of the lines alone of the row with this id.
abbrev pub LinesKept : (List SaleLine → List SaleLine) → Type 0
LinesKept g = (ls : List SaleLine) → All IsLineBalanced ls → All IsLineBalanced (g ls)

edited_lines :
    (id : ℕ) (g : List SaleLine → List SaleLine)
    → LinesKept g
    → (ss : List Sale) → All IsBalanced ss
    → Rows (Edit id) ss (update_where (λ s. s.id == id) (λ s. record s { lines = g s.lines }) ss)
edited_lines id g k [] b = tt
edited_lines id g k (s ∷ ss) b = (row (s.id == id) refl, edited_lines id g k ss b.1)
  where
    row : (c : Bool) → s.id == id ≡ c → Edit id s (if c then record s { lines = g s.lines } else s)
    row true e = inr (
      ground arith,
      record {
        keys = record {
          id = refl;
          client = refl;
          day = refl;
          number = refl;
          kind = refl;
          original = refl;
        };
        status = refl;
        payments = refl;
        lines = k s.lines b.0.lines;
      },
    )
    row false e = inl refl

pub insert_line-balanced : (l : SaleLine) → IsLineBalanced l → LinesKept (insert_line l)
unfolding insert_line
insert_line-balanced l h [] ls = (h, tt)
insert_line-balanced l h (k ∷ ks) ls =
    elim (ltb l.id k.id)
      as (λ c. All IsLineBalanced (if c then l ∷ k ∷ ks else k ∷ insert_line l ks)) [
        | true ↦ (h, ls)
        | false ↦ (ls.0, insert_line-balanced l h ks ls.1)
      ]

with_amounts-balanced :
    (l k : SaleLine) (a : LineAmounts)
    → calculate_line_amounts l ≡ ok a
    → IsLineBalanced (with_amounts k a)
with_amounts-balanced l k a e = (calculate_line_amounts-IsTotalled l a e).total

-- Writing the priced row of one line.
priced_row :
    (line_id : ℕ) (l : SaleLine) (a : LineAmounts) (g : SaleLine → SaleLine)
    → calculate_line_amounts l ≡ ok a
    → LinesKept (update_where (λ k. k.id == line_id) (λ k. with_amounts (g k) a))
priced_row line_id l a g e ls h =
    All-update_where IsLineBalanced (λ k. k.id == line_id) (λ k. with_amounts (g k) a) ls
      (λ k _ _. with_amounts-balanced l (g k) a e) h

abbrev EditedTo : Sale → Db → Unit {0} → Db → Type 0
EditedTo o db _ db' = Rows (Edit o.id) db.sales db'.sales

write_quantity-Post :
    (o : Sale) (l : SaleLine) (q : ℤ) (db : Db)
    → Inv db
    → Post (λ _. Unit {0}) (EditedTo o db) (write_quantity o l q db)
unfolding write_quantity
write_quantity-Post o l q db v =
    Post-lift (λ _. Unit {0}) (EditedTo o db) (calculate_line_amounts (record l { quantity = q }))
      (λ amounts. update_line_row o.id l.id (λ k. with_amounts (record k { quantity = q }) amounts))
      db tt
      λ a e. (
        tt,
        edited_lines o.id _
            (priced_row l.id (record l { quantity = q }) a (λ k. record k { quantity = q }) e)
            db.sales v.balanced,
      )

delete_line-Post :
    (o : Sale) (line_id : ℕ) (db : Db)
    → Inv db
    → Post (λ _. Unit {0}) (EditedTo o db) (delete_line o.id line_id db)
delete_line-Post o line_id db v = (
  tt,
  edited_lines o.id (delete_where (λ l. l.id == line_id))
      (λ ls h. All-delete_where IsLineBalanced (λ l. l.id == line_id) ls h) db.sales v.balanced,
)

pub add_line-Edits :
    (supply : Supply) (cid : ℕ) (input : AddOrderLineDto) → Edits cid (add_line_to supply input)
unfolding add_line_to
add_line-Edits supply cid input o db v f =
    Post-lift (λ _. Unit {0}) (EditedTo o db) (require_sellable_variant input.product_variant_id db)
      (λ variant. place (line_create_data supply.line_id input variant)) db tt
      λ variant _.
        placed (line_create_data supply.line_id input variant)
          (merge_target (line_create_data supply.line_id input variant) input o)
  where
    put : SaleLine → Option SaleLine → M (Unit {0})
    put incoming target = elim target [
      | some line ↦ write_quantity o line (line.quantity +ℤ or_else input.quantity (pos 1))
      | none ↦ do
        amounts ← lift (calculate_line_amounts incoming)
        create_line o.id (with_amounts incoming amounts)
    ]

    place : SaleLine → M (Unit {0})
    place incoming = put incoming (merge_target incoming input o)

    placed :
        (incoming : SaleLine) (target : Option SaleLine)
        → Post (λ _. Unit {0}) (EditedTo o db) (put incoming target db)
    placed incoming (some line) =
        write_quantity-Post o line (line.quantity +ℤ or_else input.quantity (pos 1)) db v
    placed incoming none =
        Post-lift (λ _. Unit {0}) (EditedTo o db) (calculate_line_amounts incoming)
          (λ amounts. create_line o.id (with_amounts incoming amounts)) db tt
          λ a e. (
            tt,
            edited_lines o.id (insert_line (with_amounts incoming a))
                (insert_line-balanced (with_amounts incoming a)
                  (with_amounts-balanced incoming incoming a e))
                db.sales v.balanced,
          )

pub update_line-Edits :
    (cid line_id : ℕ) (input : UpdateOrderLineDto) → Edits cid (update_line_of line_id input)
unfolding update_line_of
update_line-Edits cid line_id input o db v f =
    Post-lift (λ _. Unit {0}) (EditedTo o db) (require_owned_line line_id o)
      (λ current. lift (calculate_line_amounts (next_line input current)) >>= write current) db tt
      λ current _.
        Post-lift (λ _. Unit {0}) (EditedTo o db) (calculate_line_amounts (next_line input current))
          (write current) db tt
          λ a e. (
            tt,
            edited_lines o.id _
                (priced_row current.id (next_line input current) a (next_line input) e) db.sales
                v.balanced,
          )
  where
    write : SaleLine → LineAmounts → M (Unit {0})
    write current amounts =
        update_line_row o.id current.id (λ l. with_amounts (next_line input l) amounts)

pub increment_line-Edits :
    (cid line_id : ℕ)
    → Edits cid
        (λ o. lift (require_owned_line line_id o) >>= λ l. write_quantity o l (l.quantity +ℤ pos 1))
increment_line-Edits cid line_id o db v f =
    Post-lift (λ _. Unit {0}) (EditedTo o db) (require_owned_line line_id o)
      (λ l. write_quantity o l (l.quantity +ℤ pos 1)) db tt
      λ l _. write_quantity-Post o l (l.quantity +ℤ pos 1) db v

pub decrement_line-Edits : (cid line_id : ℕ) → Edits cid (decrement_line_of line_id)
unfolding decrement_line_of
decrement_line-Edits cid line_id o db v f =
    Post-lift (λ _. Unit {0}) (EditedTo o db) (require_owned_line line_id o) fewer db tt
      λ l _.
        Post-if (λ _. Unit {0}) (EditedTo o db) (eq_ℤ (l.quantity -ℤ pos 1) (pos 0))
          (delete_line o.id l.id) (write_quantity o l (l.quantity -ℤ pos 1)) db
          (λ _. delete_line-Post o l.id db v)
          (λ _. write_quantity-Post o l (l.quantity -ℤ pos 1) db v)
  where
    fewer : SaleLine → M (Unit {0})
    fewer l =
        if eq_ℤ (l.quantity -ℤ pos 1) (pos 0)
        then delete_line o.id l.id
        else write_quantity o l (l.quantity -ℤ pos 1)

pub remove_line-Edits : (cid line_id : ℕ) → Edits cid (remove_line_of line_id)
unfolding remove_line_of
remove_line-Edits cid line_id o db v f =
    Post-lift (λ _. Unit {0}) (EditedTo o db) (require_owned_line line_id o)
      (λ _. delete_line o.id line_id) db tt λ l _. delete_line-Post o line_id db v
