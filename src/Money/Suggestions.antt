-- ===== src/Money/Suggestions.antt =====
-- The suggested commissions and the rent deposit, as bands of the gross sales.
use coffee_shop_pos_multi_ag.Base.{
  ℕ, zero, suc, ◌+◌, ◌*◌, ◌/◌, ◌≤◌, ◌<◌, ◌≡◌, some, none, arith, pos,
}
use coffee_shop_pos_multi_ag.Number.{two_53}
use coffee_shop_pos_multi_ag.Failure.{ok}
use coffee_shop_pos_multi_ag.Money.{
  cents, round_gross, suggest_commission_cents, suggest_personal_commission_cents,
  suggest_rent_deposit_cents,
}
use coffee_shop_pos_multi_ag.Money.Sums.{cents-ok}
use coffee_shop_pos_multi_ag.Money.Lines.{mul-pos, multiply_money-pos}

cents-zero : cents (pos 0) ≡ ok (pos 0)
cents-zero = cents-ok (pos 0) (omega arith)

-- The commission is 50 for each complete band of 1,000: with k bands it is k times 5,000 cents, and
-- no safe gross makes it throw.
pub suggest_commission-bands :
    (gross : ℕ)
    → gross < two_53
    → (k : ℕ) × (k * 100000 ≤ gross)
      × (gross < (k + 1) * 100000)
      × (suggest_commission_cents (pos gross) ≡ ok (pos (5000 * k)))
unfolding suggest_commission_cents
suggest_commission-bands zero h = (0, omega arith, omega arith, cents-zero)
suggest_commission-bands (suc n) h = (
  suc n / 100000,
  omega arith,
  omega arith,
  ground (arith, multiply_money-pos 5000 (suc n / 100000) (omega arith) (omega arith)),
)

-- A personal commission is the staff member's rate for each complete band, and nothing without a
-- rate.
pub suggest_personal_commission-bands :
    (gross rate : ℕ)
    → gross < two_53
    → rate * (gross / 100000) < two_53
    → (suggest_personal_commission_cents (pos gross) none ≡ ok (pos 0))
      × (suggest_personal_commission_cents (pos gross) (some (pos rate))
          ≡ ok (pos (rate * (gross / 100000))))
unfolding suggest_personal_commission_cents
suggest_personal_commission-bands zero rate h k = (cents-zero, rw cents-zero (ground arith))
suggest_personal_commission-bands (suc n) rate h k =
    (cents-zero, ground (arith, multiply_money-pos rate (suc n / 100000) (omega arith) k))

-- Rounding gross sales by the hundreds digit moves them by less than 800 down and at most 200 up.
round_gross_bounds :
    (gross : ℕ)
    → (k : ℕ) × (round_gross gross ≡ k * 100000)
      × (k * 100000 ≤ gross + 20000)
      × (gross < k * 100000 + 80000)
unfolding round_gross
round_gross_bounds gross = (round_gross gross / 100000, ground arith, ground arith, ground arith)

pub round_gross_mono : (a b : ℕ) → a ≤ b → round_gross a ≤ round_gross b
unfolding round_gross
round_gross_mono a b h = ground arith

mul_mono : (a b c : ℕ) → a ≤ b → a * c ≤ b * c
mul_mono a b c h = grind arith

-- The rent deposit is the rate in basis points of a whole number k of thousands, and the gross sales
-- lie less than 800 above k thousands and at most 200 below.
pub suggest_rent_deposit-rounds :
    (gross rate : ℕ)
    → (gross / 10000 + 2) * rate < two_53
    → (k : ℕ) × (k * 100000 ≤ gross + 20000)
      × (gross < k * 100000 + 80000)
      × (suggest_rent_deposit_cents (pos gross) (pos rate) ≡ ok (pos (k * 10 * rate)))
unfolding suggest_rent_deposit_cents
suggest_rent_deposit-rounds zero rate h =
    (0, omega arith, omega arith, rw cents-zero (ground arith))
suggest_rent_deposit-rounds (suc n) rate h =
    let (k, e, below, above) = round_gross_bounds (suc n) in
    let tens : round_gross (suc n) / 10000 ≡ k * 10 = omega arith in
    let small : k * 10 * rate < two_53 =
      omega (arith, mul_mono (k * 10) (suc n / 10000 + 2) rate (omega arith)) in
    (
      k,
      below,
      above,
      rw (tens, suggest_rent_deposit_cents)
          (rw (mul-pos (k * 10) rate small)
            (rw (cents-ok (pos (k * 10 * rate)) (omega arith)) (ground arith))),
    )
