-- ===== src/Inventory/Counts/Chain.antt =====
-- Counts are only ever added, and corrections form chains.
use coffee_shop_pos_multi_ag.Base.{
  ℕ, ◌≡◌, refl, sym, ◌∙◌, ap, Bool, true, false, ◌&&◌, List, [], ◌∷◌, ◌++◌, Option, none, some,
  find?, any, ◌==◌, Bool-cases, inl, inr, arith,
}
use mathlib.Core.Path.{subst}
use coffee_shop_pos_multi_ag.Date.{date_eq}
use coffee_shop_pos_multi_ag.Store.{Db}
use coffee_shop_pos_multi_ag.Store.Stock.{StockCount}
use coffee_shop_pos_multi_ag.TradingDay.{location_eq}
use coffee_shop_pos_multi_ag.Inventory.Movements.{Supply}
use coffee_shop_pos_multi_ag.Inventory.Packaging.{is_phase}
use coffee_shop_pos_multi_ag.Inventory.Counts.Input.{SubmitStockCountDto}
use coffee_shop_pos_multi_ag.Inventory.Counts.{same_target}

-- What a correction may name: a count of its place, date and phase.
abbrev pub may_correct : StockCount → ℕ → StockCount → Bool
may_correct row id c =
    c.id == id
    && (location_eq c.location_id row.location_id
        && date_eq c.business_date row.business_date
        && is_phase c.phase row.phase)

abbrev pub target_among : StockCount → Option ℕ → List StockCount → Bool
target_among row none counts = true
target_among row (some id) counts = any (may_correct row id) counts

-- The counts, the newest row first: no id stands twice, each correction names an older count of its place, date
-- and phase, and no two corrections name the same.
abbrev pub IsChained : List StockCount → Type 0
IsChained [] = Unit
IsChained (c ∷ counts) =
    (any (λ d. d.id == c.id) counts ≡ false)
    × (any (λ d. same_target c.corrects_stock_count_id d.corrects_stock_count_id) counts ≡ false)
    × (target_among c c.corrects_stock_count_id counts ≡ true)
    × IsChained counts

-- The counts of `db` are all there, below newer ones.
abbrev pub Extends : Db → Db → Type 0
Extends db db' = (newer : List StockCount) × (db'.stock_counts ≡ newer ++ db.stock_counts)

pub record IsKept (db db' : Db) : Type 0 where
  pub chained : IsChained db'.stock_counts
  pub extended : Extends db db'

-- Requests that keep the counts.
abbrev pub KeepsCounts : (Db → Db) → Type 0
KeepsCounts f = (db : Db) → IsChained db.stock_counts → IsKept db (f db)

pub append_append : {A : Type 0} (xs ys zs : List A) → xs ++ (ys ++ zs) ≡ (xs ++ ys) ++ zs
append_append [] ys zs = refl
append_append (x ∷ xs) ys zs = ap (λ l. x ∷ l) (append_append xs ys zs)

pub any-append :
    {A : Type 0} (p : A → Bool) (xs ys : List A) → any p ys ≡ true → any p (xs ++ ys) ≡ true
any-append p [] ys h = h
any-append p (x ∷ xs) ys h = ground (arith, any-append p xs ys h)

pub IsKept-trans : (f : Db → Db) → KeepsCounts f → (db db' : Db) → IsKept db db' → IsKept db (f db')
IsKept-trans f keep db db' k =
    let next : IsKept db' (f db') = keep db' k.chained in
    record {
      chained = next.chained;
      extended = (
        next.extended.0 ++ k.extended.0,
        next.extended.1
            ∙ ap (λ l. next.extended.0 ++ l) k.extended.1
            ∙ append_append next.extended.0 k.extended.0 db.stock_counts,
      );
    }

pub any-find :
    (p q : StockCount → Bool) (counts : List StockCount) (c : StockCount)
    → find? p counts ≡ some c
    → (p c ≡ true → q c ≡ true)
    → any q counts ≡ true
any-find p q [] c h k = absurd (ground arith)
any-find p q (d ∷ counts) c h k = elim (Bool-cases (p d)) [
  | inl e ↦
      let same : d ≡ c = ground arith in
      ground (
        arith,
        subst (λ (x : StockCount). q x ≡ true) (sym same)
            (k (subst (λ (x : StockCount). p x ≡ true) same e)),
      )
  | inr e ↦ ground (arith, any-find p q counts c (ground arith) k)
]

pub target_among-append :
    (row : StockCount) (o : Option ℕ) (newer counts : List StockCount)
    → target_among row o counts ≡ true
    → target_among row o (newer ++ counts) ≡ true
target_among-append row none newer counts h = refl
target_among-append row (some id) newer counts h = any-append (may_correct row id) newer counts h

-- What is known of a count that was added: the row itself, and the rows that it was put on.
pub record IsAdded (supply : Supply) (input : SubmitStockCountDto) (r : StockCount) (db : Db)
    : Type 0 where
  pub newest : (older : List StockCount) × (db.stock_counts ≡ r ∷ older)
  pub recorded : r.recorded_at ≡ supply.now
  pub of_phase : r.phase ≡ input.phase
  pub correcting : r.corrects_stock_count_id ≡ input.corrects_stock_count_id
