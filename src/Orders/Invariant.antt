-- ===== src/Orders/Invariant.antt =====
-- What holds of the sales at all times: each one adds up, and no two share a key or void the same
-- order.
use coffee_shop_pos_multi_ag.Base.{
  ℕ, ◌≡◌, refl, Bool, true, false, not, ◌&&◌, List, [], ◌∷◌, Option, none, some, map, All, Rows,
  find?, All-find?, All-map, ap, sym, ◌∙◌, inl, inr, delete_where, arith, All-delete_where, ◌==◌,
  if◌then◌else◌, ℤ, ◌-ℤ◌, sum, Bool-cases,
}
use coffee_shop_pos_multi_ag.Store.{OrderStatus, parked, completed, SaleLine, SalePayment, Sale, Db}
use coffee_shop_pos_multi_ag.Orders.Rows.{is_purchase, clashes}
use coffee_shop_pos_multi_ag.Orders.Settlement.{paid}
use coffee_shop_pos_multi_ag.Orders.Completion.{corrects}

abbrev pub total_of : (SaleLine → ℤ) → List SaleLine → ℤ
total_of f ls = sum (map f ls)

abbrev pub IsLineBalanced : SaleLine → Type 0
IsLineBalanced l =
    l.line_total_cents ≡ l.line_gross_cents -ℤ l.free_upsize_cents -ℤ l.discount_cents

abbrev pub IsPaid : OrderStatus → List SalePayment → ℤ → Type 0
IsPaid parked payments total = payments ≡ []
IsPaid completed payments total = paid payments ≡ total

-- A sale adds up: its totals are those of its lines, a parked one has no payments yet, and the
-- payments of a completed one make up its total.
pub record IsBalanced (s : Sale) : Type 0 where
  pub lines : All IsLineBalanced s.lines
  pub subtotal : s.subtotal_cents ≡ total_of (λ l. l.line_gross_cents) s.lines
  pub discount : s.discount_cents ≡ total_of (λ l. l.discount_cents) s.lines
  pub free_upsize : s.free_upsize_cents ≡ total_of (λ l. l.free_upsize_cents) s.lines
  pub total : s.total_cents ≡ s.subtotal_cents -ℤ s.free_upsize_cents -ℤ s.discount_cents
  pub paid_up : IsPaid s.status s.payments s.total_cents

abbrev pub same_original : Option ℕ → Option ℕ → Bool
same_original none o = false
same_original (some id) o = corrects id o

-- Do both rows void one order?
unfoldable pub double_void : Sale → Sale → Bool
double_void s t =
    not (is_purchase s.kind)
    && not (is_purchase t.kind)
    && same_original s.corrects_sale_id t.corrects_sale_id

abbrev pub Apart : Sale → Sale → Type 0
Apart s t = (clashes s t ≡ false) × (double_void s t ≡ false)

abbrev pub AllApart : List Sale → Type 0
AllApart [] = Unit
AllApart (s ∷ ss) = All (Apart s) ss × AllApart ss

pub record Inv (db : Db) : Type 0 where
  pub balanced : All IsBalanced db.sales
  pub apart : AllApart db.sales

-- What no request changes in a row: its keys, its kind and what it corrects.
pub record SameKeys (s t : Sale) : Type 0 where
  pub id : t.id ≡ s.id
  pub client : t.client_generated_id ≡ s.client_generated_id
  pub day : t.trading_day_id ≡ s.trading_day_id
  pub number : t.day_order_number ≡ s.day_order_number
  pub kind : t.kind ≡ s.kind
  pub original : t.corrects_sale_id ≡ s.corrects_sale_id

Apart-SameKeys : (s s' t t' : Sale) → SameKeys s s' → SameKeys t t' → Apart s t → Apart s' t'
unfolding clashes double_void
Apart-SameKeys s s' t t' h k a = (
  rw (h.id, h.client, h.day, h.number, k.id, k.client, k.day, k.number) a.0,
  rw (h.kind, k.kind, h.original, k.original) a.1,
)

pub SameKeys-refl : (s : Sale) → SameKeys s s
SameKeys-refl s = record {
  id = refl;
  client = refl;
  day = refl;
  number = refl;
  kind = refl;
  original = refl;
}

pub SameKeys-trans : (s t u : Sale) → SameKeys s t → SameKeys t u → SameKeys s u
SameKeys-trans s t u h k = record {
  id = k.id ∙ h.id;
  client = k.client ∙ h.client;
  day = k.day ∙ h.day;
  number = k.number ∙ h.number;
  kind = k.kind ∙ h.kind;
  original = k.original ∙ h.original;
}

All-Apart-Rows :
    (s s' : Sale) (ss ts : List Sale)
    → SameKeys s s'
    → Rows SameKeys ss ts
    → All (Apart s) ss
    → All (Apart s') ts
All-Apart-Rows s s' [] [] h r a = tt
All-Apart-Rows s s' [] (t ∷ ts) h r a = elim r [ ]
All-Apart-Rows s s' (x ∷ xs) [] h r a = elim r [ ]
All-Apart-Rows s s' (x ∷ xs) (t ∷ ts) h r a =
    (Apart-SameKeys s s' x t h r.0 a.0, All-Apart-Rows s s' xs ts h r.1 a.1)

-- A change that keeps the keys of every row keeps the rows apart.
pub AllApart-Rows : (ss ts : List Sale) → Rows SameKeys ss ts → AllApart ss → AllApart ts
AllApart-Rows [] [] r a = tt
AllApart-Rows [] (t ∷ ts) r a = elim r [ ]
AllApart-Rows (s ∷ ss) [] r a = elim r [ ]
AllApart-Rows (s ∷ ss) (t ∷ ts) r a =
    (All-Apart-Rows s t ss ts r.0 r.1 a.0, AllApart-Rows ss ts r.1 a.1)

pub AllApart-delete :
    (p : Sale → Bool) (ss : List Sale) → AllApart ss → AllApart (delete_where p ss)
AllApart-delete p [] a = tt
AllApart-delete p (s ∷ ss) a =
    elim (p s) as (λ b. AllApart (if b then delete_where p ss else s ∷ delete_where p ss)) [
      | true ↦ AllApart-delete p ss a.1
      | false ↦ (All-delete_where (Apart s) p ss a.0, AllApart-delete p ss a.1)
    ]

Apart-id : (s t : Sale) → Apart s t → s.id ≡ t.id → ⊥
unfolding clashes
Apart-id s t a e = ground arith

-- A row that is found by its client id is the only one with its id.
pub found_unique :
    (cid : ℕ) (ss : List Sale) (o : Sale)
    → AllApart ss
    → find? (λ s. s.client_generated_id == cid) ss ≡ some o
    → All (λ s. s.id ≡ o.id → s ≡ o) ss
found_unique cid [] o a e = tt
found_unique cid (s ∷ ss) o a e = elim (Bool-cases (s.client_generated_id == cid)) [
  | inl hit ↦ let same : s ≡ o = ground arith in ((λ _. same), others_differ o same)
  | inr miss ↦
      let found : find? (λ t. t.client_generated_id == cid) ss ≡ some o = ground arith in
      let apart : Apart s o =
        All-find? (Apart s) (λ t. t.client_generated_id == cid) ss o a.0 found in
      ((λ e'. absurd (Apart-id s o apart e')), found_unique cid ss o a.1 found)
]
  where
    others_differ : (o : Sale) → s ≡ o → All (λ t. t.id ≡ o.id → t ≡ o) ss
    others_differ o same =
        All-map (Apart s) (λ t. t.id ≡ o.id → t ≡ o)
          (λ t h e'. absurd (Apart-id s t h (ap (λ (x : Sale). x.id) same ∙ sym e'))) ss a.0
