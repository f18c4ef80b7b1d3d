-- ===== src/Orders/Pricing.antt =====
-- Proofs about the price of one line.
use mathlib.Core.Path.{subst}
use coffee_shop_pos_multi_ag.Base.{
  ℕ, zero, suc, Bool, false, not, ◌&&◌, ◌||◌, ltb_ℤ, inl, inr, ◌+ℤ◌, neg_part, ◌+◌, ◌*◌, ◌/◌, ◌≤◌,
  ◌<◌, ◌≡◌, refl, true, ◌⊎◌, arith, ℤ, pos, negsuc, abs, pos_part, ◌-ℤ◌, ◌*ℤ◌, ◌≤ℤ◌, int_laws,
}
use coffee_shop_pos_multi_ag.Number.{
  two_53, is_safe_integer, add, mul, round, round_ℕ, floor_quotient,
}
use coffee_shop_pos_multi_ag.Number.Rounding.{round-exact, round-safe, round_nonneg}
use coffee_shop_pos_multi_ag.Number.Quotient.{round_ℕ-le, floor_quotient-exact, floor_quotient-le}
use coffee_shop_pos_multi_ag.Money.Lines.{mul-pos}
use coffee_shop_pos_multi_ag.Failure.{Error, Result, ok, throw_if, ◌>>◌}
use coffee_shop_pos_multi_ag.Store.{DiscountKind, no_discount, pwd, senior, SaleLine}
use coffee_shop_pos_multi_ag.Orders.Amounts.{
  LineAmounts, percent_and_half, statutory_discount, calculate_line_amounts, free_upsize_unit_cents,
}

-- A fifth of the base, to the nearest cent, for the statutory kinds.
abbrev pub IsDiscount : DiscountKind → ℤ → ℤ → Type 0
IsDiscount no_discount base d = d ≡ pos 0
IsDiscount pwd base d = (5 * pos_part d ≤ pos_part base + 2) × (pos_part base ≤ 5 * pos_part d + 2)
IsDiscount senior base d =
    (5 * pos_part d ≤ pos_part base + 2) × (pos_part base ≤ 5 * pos_part d + 2)

percent_and_half-exact :
    (n : ℕ) → n * 20 + 50 < two_53 → percent_and_half (pos n) ≡ pos (n * 20 + 50)
unfolding add
percent_and_half-exact n h =
    let first : mul (pos n) (pos 20) ≡ pos (n * 20) = mul-pos n 20 (omega arith) in
    rw first (
      let e : pos (n * 20) +ℤ pos 50 ≡ pos (n * 20 + 50) = omega int_laws in
      rw e (round-exact (pos (n * 20 + 50)) (omega arith)))

-- Below 2^53 / 20 the percentage is worked out without rounding.
fifth :
    (n : ℕ)
    → n * 20 + 50 < two_53
    → floor_quotient (pos_part (percent_and_half (pos n))) 100 ≡ (n * 20 + 50) / 100
fifth n h = rw (percent_and_half-exact n h) (floor_quotient-exact (n * 20 + 50) h)

statutory_discount-IsDiscount :
    (kind : DiscountKind) (base : ℤ)
    → pos 0 ≤ℤ base
    → abs base * 20 + 50 < two_53
    → IsDiscount kind base (statutory_discount kind base) × (statutory_discount kind base ≤ℤ base)
unfolding statutory_discount
statutory_discount-IsDiscount no_discount base h k = (refl, omega arith)
statutory_discount-IsDiscount pwd (pos n) h k =
    let d = fifth n (omega arith) in ((omega (arith, d), omega (arith, d)), omega (arith, d))
statutory_discount-IsDiscount pwd (negsuc n) h k = absurd (omega arith)
statutory_discount-IsDiscount senior (pos n) h k =
    let d = fifth n (omega arith) in ((omega (arith, d), omega (arith, d)), omega (arith, d))
statutory_discount-IsDiscount senior (negsuc n) h k = absurd (omega arith)

percent_and_half-le : (n : ℕ) → pos_part (percent_and_half (pos n)) ≤ 80 * n + 100
unfolding add mul round
percent_and_half-le n =
    let product : pos n *ℤ pos 20 ≡ pos (n * 20) = unfold ◌*ℤ◌ in ground arith in
    let total : pos (round_ℕ (n * 20)) +ℤ pos 50 ≡ pos (round_ℕ (n * 20) + 50) = omega int_laws in
    rw product (rw total (omega (arith, round_ℕ-le (n * 20), round_ℕ-le (round_ℕ (n * 20) + 50))))

-- At any size the discount is from nothing to less than twice the base.
statutory_discount-bounds :
    (kind : DiscountKind) (base : ℤ)
    → pos 0 ≤ℤ base
    → (pos 0 ≤ℤ statutory_discount kind base)
      × (pos_part (statutory_discount kind base) * 50 ≤ 80 * pos_part base + 100)
unfolding statutory_discount
statutory_discount-bounds no_discount base h = (omega arith, omega arith)
statutory_discount-bounds pwd (pos n) h = (
  omega arith,
  omega (arith, floor_quotient-le (pos_part (percent_and_half (pos n))), percent_and_half-le n),
)
statutory_discount-bounds pwd (negsuc n) h = absurd (omega arith)
statutory_discount-bounds senior (pos n) h = (
  omega arith,
  omega (arith, floor_quotient-le (pos_part (percent_and_half (pos n))), percent_and_half-le n),
)
statutory_discount-bounds senior (negsuc n) h = absurd (omega arith)

-- The conditions that a line has to meet.
pub record IsSellable (l : SaleLine) : Type 0 where
  pub quantity_safe : abs l.quantity < two_53
  pub quantity_pos : pos 1 ≤ℤ l.quantity
  pub upsize_safe : abs l.free_upsize_count < two_53
  pub upsize_nonneg : pos 0 ≤ℤ l.free_upsize_count
  pub upsize_le : l.free_upsize_count ≤ℤ l.quantity
  pub upsize_allowed : (l.free_upsize_eligible ≡ true) ⊎ (l.free_upsize_count ≡ pos 0)
  pub gross_safe : abs (l.unit_price_cents *ℤ l.quantity) < two_53
  pub upsize_covered :
      l.free_upsize_count *ℤ pos free_upsize_unit_cents ≤ℤ l.unit_price_cents *ℤ l.quantity

-- How the amounts of a line come to its total.
pub record IsTotalled (l : SaleLine) (a : LineAmounts) : Type 0 where
  pub gross : a.line_gross_cents ≡ l.unit_price_cents *ℤ l.quantity
  pub upsize : a.free_upsize_cents ≡ l.free_upsize_count *ℤ pos free_upsize_unit_cents
  pub discount_nonneg : pos 0 ≤ℤ a.discount_cents
  pub total : a.line_total_cents ≡ a.line_gross_cents -ℤ a.free_upsize_cents -ℤ a.discount_cents

-- What the amounts of a line are, with the discount to the nearest cent.
pub record IsPriced (l : SaleLine) (a : LineAmounts) : Type 0 where
  pub totalled : IsTotalled l a
  pub discount :
      IsDiscount l.discount_kind (a.line_gross_cents -ℤ a.free_upsize_cents) a.discount_cents
  pub total_nonneg : pos 0 ≤ℤ a.line_total_cents

-- A gross amount whose percentage is a safe integer too: up to 450359962737047 cents.
abbrev pub IsModest : SaleLine → Type 0
IsModest l = abs (l.unit_price_cents *ℤ l.quantity) * 20 + 50 < two_53

pub nonneg_part : (x : ℤ) → pos 0 ≤ℤ x → neg_part x ≡ 0
nonneg_part (pos n) h = refl
nonneg_part (negsuc n) h = absurd (omega arith)

base_bounds : (g u : ℤ) → pos 0 ≤ℤ u → u ≤ℤ g → (pos 0 ≤ℤ g -ℤ u) × (abs (g -ℤ u) ≤ abs g)
base_bounds g u p q =
    let n : pos 0 ≤ℤ g -ℤ u = omega int_laws in
    (n, omega (int_laws, nonneg_part (g -ℤ u) n, nonneg_part u p))

-- The discount is small enough for the total to be exact.
difference_safe :
    (b d : ℤ)
    → abs b < two_53
    → pos 0 ≤ℤ b
    → pos 0 ≤ℤ d
    → pos_part d * 50 ≤ 80 * pos_part b + 100
    → abs (b -ℤ d) < two_53
difference_safe (pos n) (pos m) h p q k = unfold ◌-ℤ◌ in ground arith
difference_safe (negsuc n) d h p q k = absurd (omega arith)
difference_safe (pos n) (negsuc m) h p q k = absurd (omega arith)

module _ (l : SaleLine) (s : IsSellable l) where
  abbrev gross : ℤ
  gross = l.unit_price_cents *ℤ l.quantity

  abbrev upsize : ℤ
  upsize = l.free_upsize_count *ℤ pos free_upsize_unit_cents

  upsize_nonneg : pos 0 ≤ℤ upsize
  upsize_nonneg = product_nonneg l.free_upsize_count s.upsize_nonneg
    where
      product_nonneg : (c : ℤ) → pos 0 ≤ℤ c → pos 0 ≤ℤ c *ℤ pos free_upsize_unit_cents
      product_nonneg (pos n) h = unfold ◌*ℤ◌ in ground arith
      product_nonneg (negsuc n) h = absurd (omega arith)

  based : (pos 0 ≤ℤ gross -ℤ upsize) × (abs (gross -ℤ upsize) ≤ abs gross)
  based = base_bounds gross upsize upsize_nonneg s.upsize_covered

  abbrev discount : ℤ
  discount = statutory_discount l.discount_kind (gross -ℤ upsize)

  bounds : (pos 0 ≤ℤ discount) × (pos_part discount * 50 ≤ 80 * pos_part (gross -ℤ upsize) + 100)
  bounds = statutory_discount-bounds l.discount_kind (gross -ℤ upsize) based.0

  abbrev priced : LineAmounts
  priced = record {
    line_gross_cents = gross;
    free_upsize_cents = upsize;
    discount_cents = discount;
    line_total_cents = gross -ℤ upsize -ℤ discount;
  }

  priced-IsTotalled : IsTotalled l priced
  priced-IsTotalled = record {
    gross = refl;
    upsize = refl;
    discount_nonneg = bounds.0;
    total = refl;
  }

  exact_gross : round gross ≡ gross
  exact_gross = round-exact gross s.gross_safe

  exact_upsize : round upsize ≡ upsize
  exact_upsize =
      round-exact upsize
        (omega (arith, nonneg_part upsize upsize_nonneg, s.upsize_covered, s.gross_safe))

  exact_base : round (gross -ℤ upsize) ≡ gross -ℤ upsize
  exact_base = round-exact (gross -ℤ upsize) (omega (arith, based.1, s.gross_safe))

  exact_total : round (gross -ℤ upsize -ℤ discount) ≡ gross -ℤ upsize -ℤ discount
  exact_total = round-exact (gross -ℤ upsize -ℤ discount) (
      difference_safe (gross -ℤ upsize) discount (omega (arith, based.1, s.gross_safe)) based.0
        bounds.0 bounds.1)

  calculated : calculate_line_amounts l ≡ ok priced
  unfolding calculate_line_amounts
  calculated =
      rw (exact_gross, exact_upsize)
        (rw exact_base (rw exact_total (ground (arith, s.upsize_allowed, s.gross_safe))))

  priced-IsPriced : IsModest l → IsPriced l priced
  priced-IsPriced small =
      let d =
        statutory_discount-IsDiscount l.discount_kind (gross -ℤ upsize) based.0
          (omega (arith, based.1, small)) in
      record { totalled = priced-IsTotalled; discount = d.0; total_nonneg = omega (int_laws, d.1) }

upsize_exact :
    (c g : ℤ)
    → pos 0 ≤ℤ c
    → abs g < two_53
    → round (c *ℤ pos free_upsize_unit_cents) ≤ℤ g
    → round (c *ℤ pos free_upsize_unit_cents) ≡ c *ℤ pos free_upsize_unit_cents
upsize_exact (pos n) g p h le =
    let product : pos n *ℤ pos free_upsize_unit_cents ≡ pos (n * free_upsize_unit_cents) =
      unfold ◌*ℤ◌ in ground arith in
    let whole : neg_part (pos n *ℤ pos free_upsize_unit_cents) ≡ 0 = rw product refl in
    (round-safe (pos n *ℤ pos free_upsize_unit_cents)
      (omega (arith, round_nonneg (pos n *ℤ pos free_upsize_unit_cents) whole, le, h))).0
upsize_exact (negsuc n) g p h le = absurd (omega arith)

passed :
    {A : Type 0} (c : Bool) (e : Error) (m : Result A) (a : A)
    → (throw_if c e >> m) ≡ ok a
    → (c ≡ false) × (m ≡ ok a)
passed true e m a h = cc
passed false e m a h = (refl, h)

or_false : (a b : Bool) → a || b ≡ false → (a ≡ false) × (b ≡ false)
or_false true b h = cc
or_false false b h = (refl, h)

safe_of : (x : ℤ) → not (is_safe_integer x) ≡ false → abs x < two_53
safe_of x h = ground arith

le_of : (a b : ℤ) → ltb_ℤ a b ≡ false → b ≤ℤ a
le_of a b h = ground arith

five :
    (c1 c2 c3 c4 c5 : Bool) (e1 e2 e3 e4 e5 : Error) (r a : LineAmounts)
    → (throw_if c1 e1
        >> (throw_if c2 e2 >> (throw_if c3 e3 >> (throw_if c4 e4 >> (throw_if c5 e5 >> ok r)))))
      ≡ ok a
    → (c1 ≡ false) × (c2 ≡ false) × (c3 ≡ false) × (c4 ≡ false) × (c5 ≡ false)
five c1 c2 c3 c4 c5 e1 e2 e3 e4 e5 r a h =
    let p1 = passed c1 e1 _ a h in
    let p2 = passed c2 e2 _ a p1.1 in
    let p3 = passed c3 e3 _ a p2.1 in
    let p4 = passed c4 e4 _ a p3.1 in
    let p5 = passed c5 e5 _ a p4.1 in (p1.0, p2.0, p3.0, p4.0, p5.0)

zero_or :
    (n : ℤ) (eligible : Bool)
    → pos 0 ≤ℤ n
    → not eligible && ltb_ℤ (pos 0) n ≡ false
    → (eligible ≡ true) ⊎ (n ≡ pos 0)
zero_or n true p h = inl refl
zero_or (pos zero) false p h = inr refl
zero_or (pos (suc n)) false p h = absurd (ground arith)
zero_or (negsuc n) false p h = absurd (omega arith)

-- What passes the guards is sellable.
calculate_line_amounts-IsSellable :
    (l : SaleLine) (a : LineAmounts) → calculate_line_amounts l ≡ ok a → IsSellable l
unfolding calculate_line_amounts
calculate_line_amounts-IsSellable l a e = of_guards (five _ _ _ _ _ _ _ _ _ _ _ a e)
  where
    of_guards :
        (not (is_safe_integer l.quantity) || ltb_ℤ l.quantity (pos 1) ≡ false)
          × (not (is_safe_integer l.free_upsize_count)
                || ltb_ℤ l.free_upsize_count (pos 0)
                || ltb_ℤ l.quantity l.free_upsize_count
              ≡ false)
          × (not l.free_upsize_eligible && ltb_ℤ (pos 0) l.free_upsize_count ≡ false)
          × (not (is_safe_integer (round (l.unit_price_cents *ℤ l.quantity))) ≡ false)
          × (ltb_ℤ
                (round (l.unit_price_cents *ℤ l.quantity))
                (round (l.free_upsize_count *ℤ pos free_upsize_unit_cents))
              ≡ false)
        → IsSellable l
    of_guards (h1, h2, h3, h4, h5) =
        let g =
          round-safe (l.unit_price_cents *ℤ l.quantity)
            (safe_of (round (l.unit_price_cents *ℤ l.quantity)) h4) in
        let counted =
          or_false (not (is_safe_integer l.free_upsize_count) || ltb_ℤ l.free_upsize_count (pos 0))
            (ltb_ℤ l.quantity l.free_upsize_count) h2 in
        let most =
          or_false (not (is_safe_integer l.free_upsize_count)) (ltb_ℤ l.free_upsize_count (pos 0))
            counted.0 in
        let bought = or_false (not (is_safe_integer l.quantity)) (ltb_ℤ l.quantity (pos 1)) h1 in
        let c : pos 0 ≤ℤ l.free_upsize_count = le_of l.free_upsize_count (pos 0) most.1 in
        let within : round (l.free_upsize_count *ℤ pos free_upsize_unit_cents)
            ≤ℤ round (l.unit_price_cents *ℤ l.quantity) =
          le_of (round (l.unit_price_cents *ℤ l.quantity))
            (round (l.free_upsize_count *ℤ pos free_upsize_unit_cents)) h5 in
        let u =
          upsize_exact l.free_upsize_count (l.unit_price_cents *ℤ l.quantity) c g.1
            (rw (g.0) at within) in
        record {
          quantity_safe = safe_of l.quantity bought.0;
          quantity_pos = le_of l.quantity (pos 1) bought.1;
          upsize_safe = safe_of l.free_upsize_count most.0;
          upsize_nonneg = c;
          upsize_le = le_of l.quantity l.free_upsize_count counted.1;
          upsize_allowed = zero_or l.free_upsize_count l.free_upsize_eligible c h3;
          gross_safe = g.1;
          upsize_covered = rw (u, g.0) at within;
        }

-- At any size the total of a line is its gross less its free upsizes and its discount, without rounding.
pub calculate_line_amounts-IsTotalled :
    (l : SaleLine) (a : LineAmounts) → calculate_line_amounts l ≡ ok a → IsTotalled l a
calculate_line_amounts-IsTotalled l a e =
    let s = calculate_line_amounts-IsSellable l a e in
    subst (λ r. IsTotalled l r) (same (calculated l s)) (priced-IsTotalled l s)
  where
    same : {b : LineAmounts} → calculate_line_amounts l ≡ ok b → b ≡ a
    same h = cc

-- A sellable line with a gross amount of up to 450359962737047 cents is priced, whatever else it holds.
pub calculate_line_amounts-total :
    (l : SaleLine)
    → IsSellable l
    → IsModest l
    → (a : LineAmounts) × (calculate_line_amounts l ≡ ok a) × IsPriced l a
calculate_line_amounts-total l s small = (priced l s, calculated l s, priced-IsPriced l s small)

-- What passes the guards is sellable, and up to a gross amount of 450359962737047 cents its amounts are right:
-- the discount of the statutory kinds is a fifth to the nearest cent, and no total is negative.
pub calculate_line_amounts_sound :
    (l : SaleLine) (a : LineAmounts)
    → calculate_line_amounts l ≡ ok a
    → IsModest l
    → IsSellable l × IsPriced l a
calculate_line_amounts_sound l a e small =
    let s = calculate_line_amounts-IsSellable l a e in
    let (b, e', p) = calculate_line_amounts-total l s small in
    let same : b ≡ a = cc in (s, subst (IsPriced l) same p)
