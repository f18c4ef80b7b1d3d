-- ===== src/Orders/Keeping.antt =====
-- The requests that add a sale or end an order keep the invariant of the sales.
use coffee_shop_pos_multi_ag.Base.{
  ℕ, ◌≡◌, refl, sym, ◌∙◌, ap, inl, inr, Bool, true, false, List, [], ◌∷◌, Option, All, filter, any,
  map, arith, ltb, if◌then◌else◌, Bool-cases, ℤ, pos, neg_ℤ, ◌+ℤ◌, ◌-ℤ◌, int_laws,
}
use coffee_shop_pos_multi_ag.Failure.{ok}
use coffee_shop_pos_multi_ag.Store.{completed, SaleLine, SalePayment, TradingDay, Sale, Db}
use coffee_shop_pos_multi_ag.Money.{is_cash}
use coffee_shop_pos_multi_ag.Store.Queries.{ActiveCashier}
use coffee_shop_pos_multi_ag.Store.Rules.{Post}
use coffee_shop_pos_multi_ag.Orders.Amounts.{LineAmounts, calculate_line_amounts}
use coffee_shop_pos_multi_ag.Orders.Rows.{clashes, insert_sale, insert_line}
use coffee_shop_pos_multi_ag.Orders.Pricing.{calculate_line_amounts-IsTotalled}
use coffee_shop_pos_multi_ag.Orders.Settlement.{paid, paid_in_cash}
use coffee_shop_pos_multi_ag.Orders.{Supply, CreateOrderDto, new_order}
use coffee_shop_pos_multi_ag.Orders.Completion.{
  void_row, void_line, void_lines, void_payment, VoidOrderDto,
}
use coffee_shop_pos_multi_ag.Orders.Invariant.{
  total_of, IsLineBalanced, IsBalanced, Apart, double_void, Inv,
}
use coffee_shop_pos_multi_ag.Orders.LineEdits.{insert_line-balanced}

pub any-false :
    {A : Type 0} (p : A → Bool) (xs : List A) → any p xs ≡ false → All (λ x. p x ≡ false) xs
any-false p [] h = tt
any-false p (x ∷ xs) h = (ground arith, any-false p xs (ground arith))

-- A new row that adds up and voids nothing that is void already goes in only where its keys are new.
pub insert_sale-Post :
    (s : Sale) (db : Db)
    → Inv db
    → IsBalanced s
    → All (λ t. double_void s t ≡ false) db.sales
    → Post Inv (λ r db'. (r ≡ s) × (db'.sales ≡ s ∷ db.sales)) (insert_sale s db)
unfolding insert_sale
insert_sale-Post s db v b d = elim (Bool-cases (any (clashes s) db.sales)) [
  | inl e ↦ rw (e, Post, insert_sale) v
  | inr e ↦
      rw (e, Post, insert_sale)
        (
          record {
            balanced = (b, v.balanced);
            apart = (apart db.sales (any-false (clashes s) db.sales e) d, v.apart);
          },
          (refl, refl),
        )
]
  where
    apart :
        (ts : List Sale)
        → All (λ t. clashes s t ≡ false) ts
        → All (λ t. double_void s t ≡ false) ts
        → All (Apart s) ts
    apart [] h k = tt
    apart (t ∷ ts) h k = ((h.0, k.0), apart ts h.1 k.1)

-- A new order adds up, by its one line.
pub new_order-IsBalanced :
    (supply : Supply) (input : CreateOrderDto) (day : TradingDay) (last : ℕ)
    (cashier : Option ActiveCashier) (line : SaleLine) (a : LineAmounts)
    → calculate_line_amounts line ≡ ok a
    → IsBalanced (new_order supply input day last cashier line a)
unfolding new_order
new_order-IsBalanced supply input day last cashier line a e =
    let p = calculate_line_amounts-IsTotalled line a e in
    record {
      lines = (p.total, tt);
      subtotal = one a.line_gross_cents;
      discount = one a.discount_cents;
      free_upsize = one a.free_upsize_cents;
      total = p.total;
      paid_up = refl;
    }
  where
    one : (x : ℤ) → x ≡ x +ℤ pos 0
    one x = omega int_laws

-- The lines of a void row total to the opposite of the lines that they cancel.
module _ (f : SaleLine → ℤ) (new_id : ℕ → ℕ)
    (opposite : (l : SaleLine) → f (void_line new_id l) ≡ neg_ℤ (f l)) where
  total_of-insert :
      (l : SaleLine) (ls : List SaleLine) → total_of f (insert_line l ls) ≡ f l +ℤ total_of f ls
  unfolding insert_line
  total_of-insert l [] = refl
  total_of-insert l (k ∷ ks) =
      elim (ltb l.id k.id)
        as (λ c.
          total_of f (if c then l ∷ k ∷ ks else k ∷ insert_line l ks)
          ≡ f l +ℤ (f k +ℤ total_of f ks)) [
            | true ↦ refl
            | false ↦ rw (total_of-insert l ks) (omega int_laws)
          ]

  pub total_of-void_lines :
      (ls : List SaleLine) → total_of f (void_lines new_id ls) ≡ neg_ℤ (total_of f ls)
  unfolding void_lines
  total_of-void_lines [] = omega int_laws
  total_of-void_lines (l ∷ ls) =
      rw
        (
          total_of-insert (void_line new_id l) (void_lines new_id ls),
          opposite l,
          total_of-void_lines ls,
        )
        (omega int_laws)

void_line-balanced :
    (new_id : ℕ → ℕ) (l : SaleLine) → IsLineBalanced l → IsLineBalanced (void_line new_id l)
unfolding void_line
void_line-balanced new_id l h =
    rw h (opposite_total l.line_gross_cents l.free_upsize_cents l.discount_cents)
  where
    opposite_total : (g u d : ℤ) → neg_ℤ (g -ℤ u -ℤ d) ≡ neg_ℤ g -ℤ neg_ℤ u -ℤ neg_ℤ d
    opposite_total g u d = omega int_laws

void_lines-balanced :
    (new_id : ℕ → ℕ) (ls : List SaleLine)
    → All IsLineBalanced ls
    → All IsLineBalanced (void_lines new_id ls)
unfolding void_lines
void_lines-balanced new_id [] h = tt
void_lines-balanced new_id (l ∷ ls) h =
    insert_line-balanced (void_line new_id l) (void_line-balanced new_id l h.0)
      (void_lines new_id ls) (void_lines-balanced new_id ls h.1)

pub paid-void_payment : (ps : List SalePayment) → paid (map void_payment ps) ≡ neg_ℤ (paid ps)
paid-void_payment [] = omega int_laws
paid-void_payment (p ∷ ps) = rw (paid-void_payment ps) (omega int_laws)

filter-void_payment :
    (ps : List SalePayment)
    → filter (λ p. is_cash p.method) (map void_payment ps)
      ≡ map void_payment (filter (λ p. is_cash p.method) ps)
filter-void_payment [] = refl
filter-void_payment (p ∷ ps) =
    elim (is_cash p.method)
      as (λ c.
        (if c
          then void_payment p ∷ filter (λ q. is_cash q.method) (map void_payment ps)
          else filter (λ q. is_cash q.method) (map void_payment ps))
        ≡ map void_payment (
            if c
            then p ∷ filter (λ q. is_cash q.method) ps
            else filter (λ q. is_cash q.method) ps)) [
              | true ↦ ap (λ qs. void_payment p ∷ qs) (filter-void_payment ps)
              | false ↦ filter-void_payment ps
            ]

pub paid_in_cash-void_payment :
    (ps : List SalePayment) → paid_in_cash (map void_payment ps) ≡ neg_ℤ (paid_in_cash ps)
paid_in_cash-void_payment ps =
    ap paid (filter-void_payment ps) ∙ paid-void_payment (filter (λ p. is_cash p.method) ps)

-- The row that voids a completed order adds up as the order did, with every sign turned.
pub void_row-IsBalanced :
    (supply : Supply) (input : VoidOrderDto) (o : Sale) (day : TradingDay) (last : ℕ)
    (cashier : Option ActiveCashier)
    → IsBalanced o
    → o.status ≡ completed
    → IsBalanced (void_row supply input o day last cashier)
unfolding void_row
void_row-IsBalanced supply input o day last cashier b st = record {
  lines = void_lines-balanced supply.void_line_id o.lines b.lines;
  subtotal = turned b.subtotal (
      total_of-void_lines (λ l. l.line_gross_cents) supply.void_line_id
        (λ l. unfold void_line in refl) o.lines);
  discount = turned b.discount (
      total_of-void_lines (λ l. l.discount_cents) supply.void_line_id
        (λ l. unfold void_line in refl) o.lines);
  free_upsize = turned b.free_upsize (
      total_of-void_lines (λ l. l.free_upsize_cents) supply.void_line_id
        (λ l. unfold void_line in refl) o.lines);
  total = ap neg_ℤ b.total ∙ total_turned o.subtotal_cents o.free_upsize_cents o.discount_cents;
  paid_up = paid-void_payment o.payments ∙ ap neg_ℤ (rw st at b.paid_up);
}
  where
    turned : {x y z : ℤ} → x ≡ y → z ≡ neg_ℤ y → neg_ℤ x ≡ z
    turned e h = ap neg_ℤ e ∙ sym h

    total_turned : (s u d : ℤ) → neg_ℤ (s -ℤ u -ℤ d) ≡ neg_ℤ s -ℤ neg_ℤ u -ℤ neg_ℤ d
    total_turned s u d = omega int_laws
