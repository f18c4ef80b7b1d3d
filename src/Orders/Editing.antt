-- ===== src/Orders/Editing.antt =====
-- The frame of every change to a parked order: the change touches only the lines and the header of
-- that order, and the totals are taken anew from its lines.
use coffee_shop_pos_multi_ag.Base.{
  ℕ, ◌≡◌, refl, ◌∙◌, ◌⊎◌, inl, inr, Bool, true, false, ◌&&◌, List, [], ◌∷◌, All, Rows, update_where,
  delete_where, arith, ◌==◌, if◌then◌else◌, ℤ, pos, ◌+ℤ◌, int_laws, Bool-cases,
}
use coffee_shop_pos_multi_ag.Store.{OrderStatus, parked, completed, SaleLine, Sale, Db}
use coffee_shop_pos_multi_ag.Orders.Rows.{is_parked, sum_by, recalculated, recalculate_order}
use coffee_shop_pos_multi_ag.Orders.Invariant.{
  total_of, IsLineBalanced, IsBalanced, SameKeys, SameKeys-refl, SameKeys-trans, AllApart-Rows,
  AllApart-delete, Inv,
}

sum_by-total_of :
    (f : SaleLine → ℤ) (t : ℤ) (ls : List SaleLine) → sum_by f t ls ≡ t +ℤ total_of f ls
unfolding sum_by
sum_by-total_of f t [] = omega int_laws
sum_by-total_of f t (l ∷ ls) = sum_by-total_of f (t +ℤ f l) ls ∙ omega int_laws

sum_by-zero : (f : SaleLine → ℤ) (ls : List SaleLine) → sum_by f (pos 0) ls ≡ total_of f ls
sum_by-zero f ls = sum_by-total_of f (pos 0) ls ∙ omega int_laws

-- Taking the totals anew makes a parked order add up, whatever its totals were.
pub recalculated-IsBalanced :
    (s : Sale)
    → s.status ≡ parked
    → s.payments ≡ []
    → All IsLineBalanced s.lines
    → IsBalanced (recalculated s)
unfolding recalculated
recalculated-IsBalanced s st ps ls = record {
  lines = ls;
  subtotal = sum_by-zero (λ l. l.line_gross_cents) s.lines;
  discount = sum_by-zero (λ l. l.discount_cents) s.lines;
  free_upsize = sum_by-zero (λ l. l.free_upsize_cents) s.lines;
  total = refl;
  paid_up = rw st ps;
}

-- A row of the edited order: the lines still add up, and the keys, the status and the payments are
-- those from before.
pub record EditedRow (s t : Sale) : Type 0 where
  pub keys : SameKeys s t
  pub status : t.status ≡ s.status
  pub payments : t.payments ≡ s.payments
  pub lines : All IsLineBalanced t.lines

-- Rows after an edit of the order with this id.
abbrev pub Edit : ℕ → Sale → Sale → Type 0
Edit id s t = (t ≡ s) ⊎ ((s.id ≡ id) × EditedRow s t)

abbrev pub ParkedAt : ℕ → Sale → Type 0
ParkedAt id s = s.id ≡ id → s.status ≡ parked

-- The row as `recalculate_order` leaves it.
abbrev renewed : ℕ → Sale → Sale
renewed id t = if t.id == id && is_parked t.status then recalculated t else t

recalculated-SameKeys : (s : Sale) → SameKeys s (recalculated s)
unfolding recalculated
recalculated-SameKeys s = record {
  id = refl;
  client = refl;
  day = refl;
  number = refl;
  kind = refl;
  original = refl;
}

no_payments : (s : Sale) → s.status ≡ parked → IsBalanced s → s.payments ≡ []
no_payments s st b = rw st at b.paid_up

pub parked_of_test : (o : OrderStatus) → is_parked o ≡ true → o ≡ parked
parked_of_test parked h = refl
parked_of_test completed h = cc

renewed-same :
    (id : ℕ) (s : Sale) → IsBalanced s → IsBalanced (renewed id s) × SameKeys s (renewed id s)
renewed-same id s b = elim (Bool-cases (s.id == id && is_parked s.status)) [
  | inl e ↦
      let st : s.status ≡ parked = parked_of_test s.status (ground arith) in
      rw e (recalculated-IsBalanced s st (no_payments s st b) b.lines, recalculated-SameKeys s)
  | inr e ↦ rw e (b, SameKeys-refl s)
]

renewed-edited :
    (id : ℕ) (s t : Sale)
    → IsBalanced s
    → s.status ≡ parked
    → s.id ≡ id
    → EditedRow s t
    → IsBalanced (renewed id t) × SameKeys s (renewed id t)
renewed-edited id s t b st e row =
    let here : t.id == id && is_parked t.status ≡ true = ground arith in
    rw here (
      recalculated-IsBalanced t (row.status ∙ st) (row.payments ∙ no_payments s st b) row.lines,
      SameKeys-trans s t (recalculated t) row.keys (recalculated-SameKeys t),
    )

renewed-row :
    (id : ℕ) (s t : Sale)
    → IsBalanced s
    → ParkedAt id s
    → Edit id s t
    → IsBalanced (renewed id t) × SameKeys s (renewed id t)
renewed-row id s t b p (inl e) = rw e (renewed-same id s b)
renewed-row id s t b p (inr (e, row)) = renewed-edited id s t b (p e) e row

renewed-Rows :
    (id : ℕ) (ss ts : List Sale)
    → All IsBalanced ss
    → All (ParkedAt id) ss
    → Rows (Edit id) ss ts
    → All IsBalanced (update_where (λ s. s.id == id && is_parked s.status) recalculated ts)
      × Rows SameKeys ss (update_where (λ s. s.id == id && is_parked s.status) recalculated ts)
renewed-Rows id [] [] b p r = (tt, tt)
renewed-Rows id [] (t ∷ ts) b p r = elim r [ ]
renewed-Rows id (s ∷ ss) [] b p r = elim r [ ]
renewed-Rows id (s ∷ ss) (t ∷ ts) b p r =
    let h = renewed-row id s t b.0 p.0 r.0 in
    let hs = renewed-Rows id ss ts b.1 p.1 r.1 in ((h.0, hs.0), (h.1, hs.1))

-- An edit of a parked order, with its totals taken anew, keeps the invariant.
pub recalculate_order-Inv :
    (id : ℕ) (db db' : Db)
    → Inv db
    → All (ParkedAt id) db.sales
    → Rows (Edit id) db.sales db'.sales
    → Inv (recalculate_order id db').1
unfolding recalculate_order
recalculate_order-Inv id db db' v p r =
    let h = renewed-Rows id db.sales db'.sales v.balanced p r in
    record { balanced = h.0; apart = AllApart-Rows db.sales _ h.1 v.apart }

Edit-SameKeys : (id : ℕ) (s t : Sale) → Edit id s t → SameKeys s t
Edit-SameKeys id s t (inl e) = rw e (SameKeys-refl s)
Edit-SameKeys id s t (inr (e, row)) = row.keys

-- An edit followed by the removal of the edited order keeps the invariant too.
deleted-Rows :
    (id : ℕ) (ss ts : List Sale)
    → All IsBalanced ss
    → Rows (Edit id) ss ts
    → All IsBalanced (delete_where (λ s. s.id == id) ts) × Rows SameKeys ss ts
deleted-Rows id [] [] b r = (tt, tt)
deleted-Rows id [] (t ∷ ts) b r = elim r [ ]
deleted-Rows id (s ∷ ss) [] b r = elim r [ ]
deleted-Rows id (s ∷ ss) (t ∷ ts) b r =
    let hs = deleted-Rows id ss ts b.1 r.1 in
    (kept (t.id == id) refl hs.0, (Edit-SameKeys id s t r.0, hs.1))
  where
    unedited : t.id == id ≡ false → Edit id s t → IsBalanced t
    unedited e (inl same) = rw same b.0
    unedited e (inr (at, row)) = absurd (ground (arith, row.keys.id))

    kept :
        (c : Bool)
        → t.id == id ≡ c
        → All IsBalanced (delete_where (λ s. s.id == id) ts)
        → All IsBalanced
            (if c then delete_where (λ s. s.id == id) ts else t ∷ delete_where (λ s. s.id == id) ts)
    kept true e h = h
    kept false e h = (unedited e r.0, h)

pub delete_sale-Inv :
    (id : ℕ) (db db' : Db)
    → Inv db
    → Rows (Edit id) db.sales db'.sales
    → Inv (record db' { sales = delete_where (λ s. s.id == id) db'.sales })
delete_sale-Inv id db db' v r =
    let h = deleted-Rows id db.sales db'.sales v.balanced r in
    record {
      balanced = h.0;
      apart =
          AllApart-delete (λ s. s.id == id) db'.sales
            (AllApart-Rows db.sales db'.sales h.1 v.apart);
    }
