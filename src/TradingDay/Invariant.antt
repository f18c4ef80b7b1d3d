-- ===== src/TradingDay/Invariant.antt =====
-- What holds of the trading days, their closings and their cash movements at all times.
use coffee_shop_pos_multi_ag.Base.{
  ℕ, ◌≡◌, Bool, true, false, not, ◌&&◌, List, [], ◌∷◌, any, All, update_where, arith, ◌==◌,
  if◌then◌else◌, Bool-cases, inl, inr,
}
use coffee_shop_pos_multi_ag.Store.{TradingDay, Db}
use coffee_shop_pos_multi_ag.Store.Queries.{is_day_open}
use coffee_shop_pos_multi_ag.TradingDay.{day_clashes, closing_clashes, close_row, is_open_row}
use coffee_shop_pos_multi_ag.TradingDay.Movements.{movement_clashes}

-- No two rows clash.
abbrev pub Pairwise : {A : Type 0} → (A → A → Bool) → List A → Type 0
Pairwise clash [] = Unit
Pairwise clash (x ∷ xs) = All (λ y. clash x y ≡ false) xs × Pairwise clash xs

pub All-any :
    {A : Type 0} (p : A → Bool) (xs : List A) → any p xs ≡ false → All (λ x. p x ≡ false) xs
All-any p [] h = tt
All-any p (x ∷ xs) h = (ground arith, All-any p xs (ground arith))

-- Is there a closed day with this id?
abbrev pub is_closed_row : ℕ → TradingDay → Bool
is_closed_row id d = d.id == id && not (is_day_open d.status)

pub record DayInv (db : Db) : Type 0 where
  pub days_apart : Pairwise day_clashes db.days
  pub closings_apart : Pairwise closing_clashes db.day_closings
  pub movements_apart : Pairwise movement_clashes db.cash_movements
  pub closings_closed :
      All (λ c. any (is_closed_row c.trading_day_id) db.days ≡ true) db.day_closings

module _ (now closer day : ℕ) where
  after : TradingDay → TradingDay
  after d = if is_open_row day d then close_row now closer d else d

  closed_clash :
      (d e : TradingDay) → day_clashes d e ≡ false → day_clashes (after d) (after e) ≡ false
  unfolding after day_clashes close_row
  closed_clash d e h = ground arith

  closed-All :
      (d : TradingDay) (ds : List TradingDay)
      → All (λ e. day_clashes d e ≡ false) ds
      → All
          (λ e. day_clashes (after d) e ≡ false)
          (update_where (is_open_row day) (close_row now closer) ds)
  unfolding after
  closed-All d [] h = tt
  closed-All d (e ∷ ds) h = (closed_clash d e h.0, closed-All d ds h.1)

  -- Closing days keeps the rows apart.
  pub close-Pairwise :
      (ds : List TradingDay)
      → Pairwise day_clashes ds
      → Pairwise day_clashes (update_where (is_open_row day) (close_row now closer) ds)
  unfolding after
  close-Pairwise [] h = tt
  close-Pairwise (d ∷ ds) h = (closed-All d ds h.0, close-Pairwise ds h.1)

  -- A closed day stays closed.
  pub close-closed :
      (id : ℕ) (ds : List TradingDay)
      → any (is_closed_row id) ds ≡ true
      → any (is_closed_row id) (update_where (is_open_row day) (close_row now closer) ds) ≡ true
  unfolding close_row
  close-closed id [] h = h
  close-closed id (d ∷ ds) h = elim (Bool-cases (is_closed_row id d)) [
    | inl e ↦ ground arith
    | inr e ↦ ground (arith, close-closed id ds (ground arith))
  ]

  -- The open day that is closed is closed afterwards.
  pub close-closes :
      (ds : List TradingDay)
      → any (is_open_row day) ds ≡ true
      → any (is_closed_row day) (update_where (is_open_row day) (close_row now closer) ds) ≡ true
  unfolding close_row
  close-closes [] h = absurd (ground arith)
  close-closes (d ∷ ds) h = elim (Bool-cases (is_open_row day d)) [
    | inl e ↦ ground arith
    | inr e ↦ ground (arith, close-closes ds (ground arith))
  ]
