-- ===== src/Reporting/Sums.antt =====
-- The sums over the rows of a day, as the database and the trading-day service make them.
use coffee_shop_pos_multi_ag.Base.{
  ℕ, ◌<◌, ◌≡◌, refl, sym, ◌∙◌, ap, Bool, not, ◌&&◌, List, [], ◌∷◌, Option, none, some, filter, any,
  map, ◌==◌, is_none, ℤ, sum, Bool-cases, inl, inr, arith,
}
use coffee_shop_pos_multi_ag.Number.{two_53}
use coffee_shop_pos_multi_ag.Failure.{ok}
use coffee_shop_pos_multi_ag.Money.{TenderAmount, amounts_by, PaymentMethod}
use coffee_shop_pos_multi_ag.Money.Sums.{abs_sum, cents-ok, add_money-exact}
use coffee_shop_pos_multi_ag.Money.Cash.{amounts, counted_size}
use coffee_shop_pos_multi_ag.Store.{MovementKind, SalePayment, Db}
use coffee_shop_pos_multi_ag.TradingDay.Cash.{
  kind_eq, sales_of, amends, is_superseded, current_movements, all_cents, all_tenders, add_all,
  amounts_of_kind, checked,
}
use coffee_shop_pos_multi_ag.Reporting.Daily.{movement_total, outstanding_total}

pub all_cents-ok : (xs : List ℤ) → abs_sum xs < two_53 → all_cents xs ≡ ok xs
unfolding all_cents
all_cents-ok [] h = refl
all_cents-ok (x ∷ xs) h = rw (cents-ok x (omega arith), all_cents-ok xs (omega arith)) refl

pub add_all-ok : (xs : List ℤ) → abs_sum xs < two_53 → add_all xs ≡ ok (sum xs)
unfolding add_all
add_all-ok xs h = rw (all_cents-ok xs h) (add_money-exact xs h)

abbrev pub tender : SalePayment → TenderAmount
tender p = record { method = p.method; amount_cents = p.amount_cents }

pub all_tenders-ok :
    (ps : List SalePayment)
    → abs_sum (map (λ p. p.amount_cents) ps) < two_53
    → all_tenders ps ≡ ok (map tender ps)
unfolding all_tenders
all_tenders-ok [] h = refl
all_tenders-ok (p ∷ ps) h =
    rw (cents-ok p.amount_cents (omega arith), all_tenders-ok ps (omega arith)) refl

pub checked-ok : (c : Option ℤ) → counted_size c < two_53 → checked c ≡ ok c
checked-ok none h = refl
checked-ok (some c) h = rw (cents-ok c h) refl

pub amounts-tenders :
    (ps : List SalePayment) → amounts (map tender ps) ≡ map (λ p. p.amount_cents) ps
amounts-tenders [] = refl
amounts-tenders (p ∷ ps) = ap (λ l. p.amount_cents ∷ l) (amounts-tenders ps)

pub amounts_by-tenders :
    (method : PaymentMethod → Bool) (ps : List SalePayment)
    → amounts_by method (map tender ps)
      ≡ map (λ p. p.amount_cents) (filter (λ p. method p.method) ps)
amounts_by-tenders method [] = refl
amounts_by-tenders method (p ∷ ps) = elim (Bool-cases (method p.method)) [
  | inl h ↦ rw h (ap (λ l. p.amount_cents ∷ l) (amounts_by-tenders method ps))
  | inr h ↦ rw h (amounts_by-tenders method ps)
]

-- Two filters, one after the other, are one.
pub filter-filter :
    {A : Type 0} (p q : A → Bool) (xs : List A)
    → filter q (filter p xs) ≡ filter (λ x. p x && q x) xs
filter-filter p q [] = refl
filter-filter p q (x ∷ xs) = ground (arith, filter-filter p q xs)

pub filter_ext :
    {A : Type 0} (p q : A → Bool) (xs : List A) → ((x : A) → p x ≡ q x) → filter p xs ≡ filter q xs
filter_ext p q [] h = refl
filter_ext p q (x ∷ xs) h = ground (arith, h x, filter_ext p q xs h)

pub and_assoc : (a b c : Bool) → (a && b && c) ≡ (a && (b && c))
and_assoc a b c = ground arith

pub movement_total_lem :
    (kind : MovementKind) (day : ℕ) (db : Db)
    → movement_total kind day db ≡ sum (amounts_of_kind kind (current_movements day db))
unfolding movement_total current_movements is_superseded
movement_total_lem kind day db =
    ap (λ ms. sum (map (λ m. m.amount_cents) ms))
      (filter_ext
          (λ m.
            m.trading_day_id == day
            && (not (any (amends m.id) db.cash_movements) && kind_eq m.kind kind))
          (λ m.
            m.trading_day_id == day
            && not (any (amends m.id) db.cash_movements)
            && kind_eq m.kind kind)
          db.cash_movements (λ m. ground arith)
        ∙ sym (
            filter-filter
              (λ m. m.trading_day_id == day && not (any (amends m.id) db.cash_movements))
              (λ m. kind_eq m.kind kind) db.cash_movements))

pub outstanding_total_lem :
    (day : ℕ) (db : Db)
    → outstanding_total day db
      ≡ sum (
          map
            (λ s. s.change_owed_cents)
            (filter (λ s. is_none s.change_settled_at) (sales_of day db)))
unfolding outstanding_total
outstanding_total_lem day db =
    ap (λ ss. sum (map (λ s. s.change_owed_cents) ss))
      (sym
        (filter-filter (λ s. s.trading_day_id == day) (λ s. is_none s.change_settled_at) db.sales))
