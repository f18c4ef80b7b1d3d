-- ===== src/Money/Lines.antt =====
-- The amounts of one order line and the roll-up of a sale.
use coffee_shop_pos_multi_ag.Base.{
  ℕ, zero, suc, ◌+◌, ◌-◌, ◌*◌, ◌≤◌, ◌<◌, ◌≡◌, refl, [], ◌∷◌, arith, ℤ, pos, negsuc, ◌+ℤ◌, ◌*ℤ◌,
  neg_ℤ, int_laws, neg-neg, abs-neg,
}
use coffee_shop_pos_multi_ag.Number.{two_53, round_ℕ, mul, add, round}
use coffee_shop_pos_multi_ag.Number.Rounding.{round-exact, round_ℕ-exact}
use coffee_shop_pos_multi_ag.Failure.{Result, ok, err, ◌>>=◌}
use coffee_shop_pos_multi_ag.Money.{
  LineDiscountKind, no_discount, pwd, senior, LineAmounts, cents, add_money, reduce_add,
  multiply_money, fifth_rounded, discount_of, discounted, calculate_line_amounts,
}
use coffee_shop_pos_multi_ag.Money.Sums.{cents-ok, add_money-minus}

-- The nearest whole number to n / 5.
fifth_rounded_nearest : (n : ℕ) → (5 * fifth_rounded n ≤ n + 2) × (n ≤ 5 * fifth_rounded n + 2)
unfolding fifth_rounded
fifth_rounded_nearest n = (ground arith, ground arith)

fifth_rounded-le : (n : ℕ) → fifth_rounded n ≤ n
unfolding fifth_rounded
fifth_rounded-le n = ground arith

-- What the discount of a gross amount is: a fifth, to the nearest cent, for a senior.
abbrev pub Discount : LineDiscountKind → ℕ → ℕ → Type 0
Discount senior gross d = (5 * d ≤ gross + 2) × (gross ≤ 5 * d + 2)
Discount no_discount gross d = d ≡ 0
Discount pwd gross d = d ≡ 0

discount_of-Discount :
    (kind : LineDiscountKind) (n : ℕ)
    → (d : ℕ) × (discount_of (pos n) kind ≡ pos d) × Discount kind n d × (d ≤ n)
unfolding discount_of
discount_of-Discount no_discount n = (0, refl, refl, omega arith)
discount_of-Discount pwd n = (0, refl, refl, omega arith)
discount_of-Discount senior n = (
  fifth_rounded n,
  ground (arith, fifth_rounded_nearest n),
  fifth_rounded_nearest n,
  fifth_rounded-le n,
)

pub mul-pos : (p q : ℕ) → p * q < two_53 → mul (pos p) (pos q) ≡ pos (p * q)
unfolding mul
mul-pos p q h =
    let e : pos p *ℤ pos q ≡ pos (p * q) = unfold ◌*ℤ◌ in ground arith in
    rw e (round-exact (pos (p * q)) (omega arith))

pub multiply_money-pos :
    (p q : ℕ) → q < two_53 → p * q < two_53 → multiply_money (pos p) (pos q) ≡ ok (pos (p * q))
unfolding multiply_money
multiply_money-pos p q hq h =
    rw (mul-pos p q h, multiply_money) (ground (arith, cents-ok (pos (p * q))))

-- A line of a purchase: gross is price times quantity, the total is gross less the discount, and the
-- discount lies between nothing and the whole gross.
pub calculate_line_amounts-purchase :
    (price quantity : ℕ) (kind : LineDiscountKind)
    → quantity < two_53
    → price * quantity < two_53
    → (d : ℕ) × (calculate_line_amounts (pos price) (pos quantity) kind
        ≡ ok (record {
          line_gross_cents = pos (price * quantity);
          discount_cents = pos d;
          line_total_cents = pos (price * quantity - d);
        }))
      × Discount kind (price * quantity) d
      × (d ≤ price * quantity)
unfolding calculate_line_amounts
calculate_line_amounts-purchase price quantity kind hq h =
    let (d, e, spec, le) = discount_of-Discount kind (price * quantity) in
    (
      d,
      rw (multiply_money-pos price quantity hq h, calculate_line_amounts)
          (rw (e, calculate_line_amounts)
            (simp
              (
                cents-ok (pos d) (omega arith),
                cents-ok (neg_ℤ (pos d)) (rw (abs-neg (pos d)) (omega arith)),
              )
              (rw (add_money-minus (price * quantity) d le h)))),
      spec,
      le,
    )

-- The amounts of the row that cancels a line.
abbrev pub negated : Result LineAmounts → Result LineAmounts
negated (ok a) = ok (record {
  line_gross_cents = neg_ℤ a.line_gross_cents;
  discount_cents = neg_ℤ a.discount_cents;
  line_total_cents = neg_ℤ a.line_total_cents;
})
negated (err e) = err e

round-neg : (x : ℤ) → round (neg_ℤ x) ≡ neg_ℤ (round x)
unfolding round neg_ℤ
round-neg (pos zero) = rw (round_ℕ-exact 0 (omega arith)) refl
round-neg (pos (suc n)) =
    let e : neg_ℤ (pos (suc n)) ≡ negsuc n = unfold neg_ℤ in ground arith in rw e
round-neg (negsuc n) =
    let e : neg_ℤ (negsuc n) ≡ pos (suc n) = unfold neg_ℤ in ground arith in
    rw (e, neg-neg (pos (round_ℕ (suc n)))) refl

mul-neg : (p q : ℤ) → mul p (neg_ℤ q) ≡ neg_ℤ (mul p q)
unfolding mul
mul-neg p q =
    let e : p *ℤ neg_ℤ q ≡ neg_ℤ (p *ℤ q) = unfold ◌*ℤ◌ neg_ℤ in ground arith in
    rw e (round-neg (p *ℤ q))

cents-neg : (x : ℤ) → cents (neg_ℤ x) ≡ (cents x >>= λ y. ok (neg_ℤ y))
unfolding cents
cents-neg x = rw (abs-neg x) (ground arith)

discount_of-neg :
    (x : ℤ) (kind : LineDiscountKind) → discount_of (neg_ℤ x) kind ≡ neg_ℤ (discount_of x kind)
unfolding discount_of neg_ℤ
discount_of-neg x no_discount = refl
discount_of-neg x pwd = refl
discount_of-neg (pos n) senior = ground arith
discount_of-neg (negsuc n) senior = ground arith

add-neg : (a b : ℤ) → add (neg_ℤ a) (neg_ℤ b) ≡ neg_ℤ (add a b)
unfolding add
add-neg a b =
    let e : neg_ℤ a +ℤ neg_ℤ b ≡ neg_ℤ (a +ℤ b) = omega int_laws in rw e (round-neg (a +ℤ b))

minus_zero : neg_ℤ (pos 0) ≡ pos 0
unfolding neg_ℤ
minus_zero = refl

add_money-neg :
    (g d : ℤ) → add_money (neg_ℤ g ∷ neg_ℤ d ∷ []) ≡ (add_money (g ∷ d ∷ []) >>= λ t. ok (neg_ℤ t))
unfolding add_money reduce_add
add_money-neg g d =
    let zero_first : add (pos 0) (neg_ℤ g) ≡ neg_ℤ (add (pos 0) g) =
      rw minus_zero at (add-neg (pos 0) g) in
    rw (zero_first, add-neg (add (pos 0) g) d) (cents-neg (add (add (pos 0) g) d))

multiply_money-neg :
    (p q : ℤ) → multiply_money p (neg_ℤ q) ≡ (multiply_money p q >>= λ g. ok (neg_ℤ g))
unfolding multiply_money
multiply_money-neg p q = rw (mul-neg p q, abs-neg q, cents-neg (mul p q)) (ground arith)

discounted-neg :
    (g : ℤ) (kind : LineDiscountKind) → discounted (neg_ℤ g) kind ≡ negated (discounted g kind)
unfolding discounted
discounted-neg g kind =
    rw (discount_of-neg g kind, cents-neg (discount_of g kind)) (go (cents (discount_of g kind)))
  where
    total :
        (d n : ℤ) (t : Result ℤ)
        → ((t >>= λ x. ok (neg_ℤ x)) >>= λ x.
            ok (record {
              line_gross_cents = neg_ℤ g;
              discount_cents = neg_ℤ d;
              line_total_cents = x;
            }))
          ≡ negated (
              t >>= λ x.
              ok (record { line_gross_cents = g; discount_cents = d; line_total_cents = x }))
    total d n (ok x) = refl
    total d n (err e) = refl

    minus :
        (d : ℤ) (m : Result ℤ)
        → ((m >>= λ x. ok (neg_ℤ x)) >>= λ n. add_money (neg_ℤ g ∷ n ∷ []) >>= λ x.
            ok (record {
              line_gross_cents = neg_ℤ g;
              discount_cents = neg_ℤ d;
              line_total_cents = x;
            }))
          ≡ negated (
              m >>= λ n. add_money (g ∷ n ∷ []) >>= λ x.
              ok (record { line_gross_cents = g; discount_cents = d; line_total_cents = x }))
    minus d (ok n) = rw (add_money-neg g n) (total d n (add_money (g ∷ n ∷ [])))
    minus d (err e) = refl

    go :
        (m : Result ℤ)
        → ((m >>= λ x. ok (neg_ℤ x)) >>= λ d. cents (neg_ℤ d) >>= λ n.
            add_money (neg_ℤ g ∷ n ∷ []) >>= λ x.
            ok (record { line_gross_cents = neg_ℤ g; discount_cents = d; line_total_cents = x }))
          ≡ negated (
              m >>= λ d. cents (neg_ℤ d) >>= λ n. add_money (g ∷ n ∷ []) >>= λ x.
              ok (record { line_gross_cents = g; discount_cents = d; line_total_cents = x }))
    go (ok d) = rw (cents-neg (neg_ℤ d)) (minus d (cents (neg_ℤ d)))
    go (err e) = refl

-- A line with the quantity negated has every amount negated, and throws exactly when the line does:
-- a voiding line cancels its original to the cent.
pub calculate_line_amounts-neg :
    (price quantity : ℤ) (kind : LineDiscountKind)
    → calculate_line_amounts price (neg_ℤ quantity) kind
      ≡ negated (calculate_line_amounts price quantity kind)
unfolding calculate_line_amounts discounted
calculate_line_amounts-neg price quantity kind =
    rw (multiply_money-neg price quantity) (go (multiply_money price quantity))
  where
    go :
        (m : Result ℤ)
        → ((m >>= λ g. ok (neg_ℤ g)) >>= λ g. discounted g kind)
          ≡ negated (m >>= λ g. discounted g kind)
    go (ok g) = discounted-neg g kind
    go (err e) = refl
