-- ===== src/Number/Rounding.antt =====
-- What rounding does to a result: nothing to a safe one, and it never makes an unsafe one safe.
use coffee_shop_pos_multi_ag.Base.{
  ℕ, zero, suc, ◌*◌, ◌/◌, ◌%◌, ◌≤◌, ◌<◌, ◌≡◌, refl, ◌⊎◌, inl, inr, ltb, arith, Bool-cases, ℤ, pos,
  negsuc, abs, ◌+ℤ◌, neg_part, neg_ℤ, abs-neg, ◌+◌,
}
use coffee_shop_pos_multi_ag.Number.{two_53, spacing, nearest, round_ℕ, round, add}

spacing_small : (fuel x : ℕ) → x < two_53 → spacing (suc fuel) 1 x ≡ 1
unfolding spacing
spacing_small fuel x h = ground arith

pub round_ℕ-exact : (x : ℕ) → x < two_53 → round_ℕ x ≡ x
unfolding round_ℕ nearest
round_ℕ-exact x h = rw (spacing_small 63 x h, round_ℕ) (ground arith)

-- The spacing is 1, or at most x / 2^52.
pub spacing_bound :
    (fuel u x : ℕ)
    → 0 < u
    → ((u ≡ 1) ⊎ (u * 4503599627370496 ≤ x))
    → (0 < spacing fuel u x) × ((spacing fuel u x ≡ 1) ⊎ (spacing fuel u x * 4503599627370496 ≤ x))
unfolding spacing
spacing_bound zero u x p h = (p, h)
spacing_bound (suc fuel) u x p h = elim (Bool-cases (ltb x (u * two_53))) [
  | inl e ↦ rw e (p, h)
  | inr e ↦ rw e (spacing_bound fuel (2 * u) x (omega arith) (inr (ground arith)))
]

-- u, q and r are what the rounding of u * q + r works with.
nearest_large : (u q r : ℕ) → 1 < u → 4503599627370496 ≤ q → two_53 ≤ nearest u q r
unfolding nearest
nearest_large u q r p h = ground (arith, quot_large u q p h)
  where
    quot_large : (u q : ℕ) → 1 < u → 4503599627370496 ≤ q → two_53 ≤ q * u
    quot_large u q p h = grind arith

pub nearest_one : (x : ℕ) → nearest 1 (x / 1) (x % 1) ≡ x
unfolding nearest
nearest_one x = ground arith

quot_bound : (u x : ℕ) → 0 < u → u * 4503599627370496 ≤ x → 4503599627370496 ≤ x / u
quot_bound u x p h = grind arith

nearest_unsafe :
    (u x : ℕ)
    → 0 < u
    → ((u ≡ 1) ⊎ (u * 4503599627370496 ≤ x))
    → two_53 ≤ x
    → two_53 ≤ nearest u (x / u) (x % u)
nearest_unsafe u x p (inl e) h = rw (e, nearest_one x) h
nearest_unsafe u x p (inr b) h = elim (Bool-cases (ltb 1 u)) [
  | inl e ↦ nearest_large u (x / u) (x % u) (ground arith) (quot_bound u x p b)
  | inr e ↦ let one : u ≡ 1 = ground arith in rw (one, nearest_one x) h
]

round_ℕ-unsafe : (x : ℕ) → two_53 ≤ x → two_53 ≤ round_ℕ x
unfolding round_ℕ
round_ℕ-unsafe x h =
    let b = spacing_bound 64 1 x (omega arith) (inl refl) in
    nearest_unsafe (spacing 64 1 x) x b.0 b.1 h

pub round-exact : (x : ℤ) → abs x < two_53 → round x ≡ x
unfolding round neg_ℤ
round-exact (pos n) h = rw (round_ℕ-exact n (omega arith))
round-exact (negsuc n) h = rw (round_ℕ-exact (suc n) (omega arith)) (ground arith)

pub round-unsafe : (x : ℤ) → two_53 ≤ abs x → two_53 ≤ abs (round x)
unfolding round
round-unsafe (pos n) h = omega (arith, round_ℕ-unsafe n (omega arith))
round-unsafe (negsuc n) h =
    rw (abs-neg (pos (round_ℕ (suc n)))) (omega (arith, round_ℕ-unsafe (suc n) (omega arith)))

pub round_nonneg : (x : ℤ) → neg_part x ≡ 0 → neg_part (round x) ≡ 0
unfolding round
round_nonneg (pos n) h = omega arith
round_nonneg (negsuc n) h = absurd (omega arith)

pub +ℤ-nonneg :
    (a b : ℤ)
    → neg_part a ≡ 0
    → neg_part b ≡ 0
    → (neg_part (a +ℤ b) ≡ 0) × (abs (a +ℤ b) ≡ abs a + abs b)
unfolding ◌+ℤ◌
+ℤ-nonneg a b p q = (ground arith, ground arith)

-- Adding amounts that are not negative: the result is not negative, and once unsafe stays unsafe.
pub add-nonneg :
    (a b : ℤ)
    → neg_part a ≡ 0
    → neg_part b ≡ 0
    → (neg_part (add a b) ≡ 0) × (two_53 ≤ abs a + abs b → two_53 ≤ abs (add a b))
unfolding add
add-nonneg a b p q =
    let n = +ℤ-nonneg a b p q in
    (round_nonneg (a +ℤ b) n.0, λ h. round-unsafe (a +ℤ b) (rw (n.1) h))

-- A rounded value that is safe was safe before, and is that value.
pub round-safe : (x : ℤ) → abs (round x) < two_53 → (round x ≡ x) × (abs x < two_53)
round-safe x h = elim (Bool-cases (ltb (abs x) two_53)) [
  | inl e ↦ (round-exact x (ground arith), ground arith)
  | inr e ↦ absurd (omega (arith, round-unsafe x (ground arith), h))
]
