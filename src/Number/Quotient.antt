-- ===== src/Number/Quotient.antt =====
-- The floor of a rounded quotient: the whole quotient, as long as the dividend is safe.
use coffee_shop_pos_multi_ag.Base.{
  ℕ, zero, suc, ◌+◌, ◌*◌, ◌/◌, ◌%◌, ◌^◌, ◌≤◌, ◌<◌, ◌≡◌, refl, sym, ◌∙◌, ap, ◌⊎◌, inl, inr, ltb,
  arith, Bool-cases,
}
use native.Mathlib.Numerals.{unary_clauses}
use coffee_shop_pos_multi_ag.Number.{
  two_53, spacing, nearest, round_ℕ, quotient_parts, floor_scaled, floor_quotient,
}
use coffee_shop_pos_multi_ag.Number.Rounding.{spacing_bound, nearest_one}

-- The spacing divides the largest one.
spacing_divides : (fuel u x : ℕ) → (m : ℕ) × (spacing fuel u x * m ≡ u * 2 ^ fuel)
unfolding spacing
spacing_divides zero u x = (1, omega arith)
spacing_divides (suc fuel) u x = elim (Bool-cases (ltb x (u * two_53))) [
  | inl e ↦ rw e (2 ^ suc fuel, refl)
  | inr e ↦ let (m, h) = spacing_divides fuel (2 * u) x in rw e (m, h ∙ doubled)
]
  where
    doubled : 2 * u * 2 ^ fuel ≡ u * 2 ^ suc fuel
    doubled = simp unary_clauses (grind arith)

-- The nearest multiple is within half a step.
nearest_close :
    (u q r : ℕ)
    → r < u
    → (2 * nearest u q r ≤ 2 * (q * u + r) + u) × (2 * (q * u + r) ≤ 2 * nearest u q r + u)
unfolding nearest
nearest_close u q r h =
    let next : (q + 1) * u ≡ q * u + u = grind arith in (ground arith, ground arith)

nearest_zero : (u q : ℕ) → 0 < u → nearest u q 0 ≡ q * u
unfolding nearest
nearest_zero u q h = ground arith

div_between : (a b c : ℕ) → 0 < b → c * b ≤ a → a < c * b + b → a / b ≡ c
div_between a b c p l h = grind arith

no_rest : (q b r c : ℕ) → r < b → q * b + r ≡ c * b → r ≡ 0
no_rest q b r c h e = elim (Bool-cases (ltb q c)) [
  | inl less ↦ let more : q * b + b ≤ c * b = mono_suc q c b (ground arith) in absurd (omega arith)
  | inr least ↦ let more : c * b ≤ q * b = mono c q b (ground arith) in omega arith
]
  where
    mono : (i j t : ℕ) → i ≤ j → i * t ≤ j * t
    mono i j t l = grind arith

    mono_suc : (i j t : ℕ) → i < j → i * t + t ≤ j * t
    mono_suc i j t l =
        let up : (i + 1) * t ≤ j * t = mono (i + 1) j t (omega arith) in
        let one : (i + 1) * t ≡ i * t + t = grind arith in omega arith

rest_lt : (a b : ℕ) → 0 < b → a % b < b
rest_lt a b p = grind arith

div_mod : (a b : ℕ) → a / b * b + a % b ≡ a
div_mod a b = grind arith

nearest_bound : (u x : ℕ) → 0 < u → ((u ≡ 1) ⊎ (u ≤ x)) → nearest u (x / u) (x % u) ≤ 2 * x
nearest_bound u x p (inl e) = rw (e, nearest_one x) (omega arith)
nearest_bound u x p (inr b) =
    let close = nearest_close u (x / u) (x % u) (rest_lt x u p) in omega (arith, close, div_mod x u)

-- Rounding at most doubles a value.
pub round_ℕ-le : (x : ℕ) → round_ℕ x ≤ 2 * x
unfolding round_ℕ
round_ℕ-le x =
    let b = spacing_bound 64 1 x (omega arith) (inl refl) in
    nearest_bound (spacing 64 1 x) x b.0 (coarse b.1)
  where
    coarse :
        ((spacing 64 1 x ≡ 1) ⊎ (spacing 64 1 x * 4503599627370496 ≤ x))
        → (spacing 64 1 x ≡ 1) ⊎ (spacing 64 1 x ≤ x)
    coarse (inl e) = inl e
    coarse (inr h) = inr (omega arith)

mul_mono : (i j t : ℕ) → i ≤ j → i * t ≤ j * t
mul_mono i j t l = grind arith

mul_pos_le : (i t : ℕ) → 0 < i → t ≤ i * t
mul_pos_le i t p = grind arith

floor_scaled-le : (parts x : ℕ) → parts ≡ 2 ^ 64 → 0 < x → floor_scaled parts x 100 * 50 ≤ x
unfolding floor_scaled
floor_scaled-le parts x whole some =
    let b = spacing_bound 64 1 (x * parts / 100) (omega arith) (inl refl) in
    let u : ℕ = spacing 64 1 (x * parts / 100) in
    at_most (nearest (u * 100) (x * parts / (u * 100)) (x * parts % (u * 100)))
      (nearest_bound (u * 100) (x * parts) (omega (arith, b.0)) (coarse b.1))
  where
    coarse :
        ((spacing 64 1 (x * parts / 100) ≡ 1)
          ⊎ (spacing 64 1 (x * parts / 100) * 4503599627370496 ≤ x * parts / 100))
        → (spacing 64 1 (x * parts / 100) * 100 ≡ 1)
          ⊎ (spacing 64 1 (x * parts / 100) * 100 ≤ x * parts)
    coarse (inl e) = inr (omega (arith, e, whole, mul_pos_le x parts some))
    coarse (inr h) = inr (omega (arith, h))

    at_most : (n : ℕ) → n ≤ 2 * (x * parts) → n / (100 * parts) * 50 ≤ x
    at_most n h =
        let t : ℕ = n / (100 * parts) in
        elim (Bool-cases (ltb x (t * 50))) [
          | inl more ↦
              let up = mul_mono (x + 1) (t * 50) parts (ground arith) in
              let one : (x + 1) * parts ≡ x * parts + parts = grind arith in
              let twice : t * (100 * parts) ≡ 2 * (t * 50 * parts) = grind arith in
              absurd (omega (arith, div_mod n (100 * parts), up, one, twice, h, whole))
          | inr fits ↦ ground arith
        ]

-- With k left over after the hundreds, and a step that is small beside `parts`, what is rounded stays between the
-- hundreds below and above.
floor_between :
    (parts u q r rest k hundreds : ℕ)
    → r < u * 100
    → q * (u * 100) + r ≡ (100 * hundreds + k) * parts
    → k < 100
    → u * 100 < 2 * parts
    → u * rest ≡ parts
    → nearest (u * 100) q r / (100 * parts) ≡ hundreds
floor_between parts u q r rest k hundreds r_lt split k_lt fine divides =
    div_between (nearest (u * 100) q r) (100 * parts) hundreds (omega arith) (below k split k_lt)
      above
  where
    close :
        (2 * nearest (u * 100) q r ≤ 2 * (q * (u * 100) + r) + u * 100)
        × (2 * (q * (u * 100) + r) ≤ 2 * nearest (u * 100) q r + u * 100)
    close = nearest_close (u * 100) q r r_lt

    spread : (j : ℕ) → (100 * hundreds + j) * parts ≡ hundreds * (100 * parts) + j * parts
    spread j = grind arith

    small : (j : ℕ) → j < 100 → j * parts ≤ 99 * parts
    small j h = grind arith

    above : nearest (u * 100) q r < hundreds * (100 * parts) + 100 * parts
    above = omega (arith, close, spread k, small k k_lt)

    below :
        (j : ℕ)
        → q * (u * 100) + r ≡ (100 * hundreds + j) * parts
        → j < 100
        → hundreds * (100 * parts) ≤ nearest (u * 100) q r
    below zero e h =
        let even : hundreds * (100 * parts) ≡ hundreds * rest * (u * 100) =
          rw (sym divides) (grind arith) in
        let none_left : r ≡ 0 =
          no_rest q (u * 100) r (hundreds * rest) r_lt (omega (arith, e, spread 0, even)) in
        let whole : nearest (u * 100) q r ≡ q * (u * 100) =
          rw none_left (nearest_zero (u * 100) q (omega arith)) in
        omega (arith, whole, e, spread 0, none_left)
    below (suc j) e h =
        let more : suc j * parts ≡ j * parts + parts = grind arith in
        omega (arith, close, e, spread (suc j), more)

floor_scaled-exact :
    (parts x : ℕ) → parts ≡ 2 ^ 64 → x < two_53 → floor_scaled parts x 100 ≡ x / 100
unfolding floor_scaled
floor_scaled-exact parts x whole h =
    floor_between parts u (x * parts / (u * 100)) (x * parts % (u * 100)) divided.0 (x % 100)
      (x / 100) (rest_lt (x * parts) (u * 100) (omega (arith, bound.0)))
      (div_mod (x * parts) (u * 100) ∙ ap (λ y. y * parts) (omega arith)) (omega arith)
      (fine bound.1) (divided.1 ∙ omega (arith, whole))
  where
    u : ℕ
    u = spacing 64 1 (x * parts / 100)

    bound : (0 < u) × ((u ≡ 1) ⊎ (u * 4503599627370496 ≤ x * parts / 100))
    bound = spacing_bound 64 1 (x * parts / 100) (omega arith) (inl refl)

    divided : (m : ℕ) × (u * m ≡ 1 * 2 ^ 64)
    divided = spacing_divides 64 1 (x * parts / 100)

    top : (i t : ℕ) → i < two_53 → i * t ≤ 9007199254740991 * t
    top i t l = grind arith

    fine : ((u ≡ 1) ⊎ (u * 4503599627370496 ≤ x * parts / 100)) → u * 100 < 2 * parts
    fine (inl e) = omega (arith, whole)
    fine (inr b) = omega (arith, whole, top x parts h)

-- A dividend below 2^53 has its quotient by a hundred rounded to the same floor.
pub floor_quotient-exact : (x : ℕ) → x < two_53 → floor_quotient x 100 ≡ x / 100
unfolding floor_quotient
floor_quotient-exact x h = floor_scaled-exact quotient_parts x refl h

-- At any size the quotient is at most twice what it should be.
pub floor_quotient-le : (x : ℕ) → floor_quotient x 100 * 50 ≤ x
floor_quotient-le zero = omega (arith, floor_quotient-exact 0 (omega arith))
floor_quotient-le (suc x) =
    unfold floor_quotient in floor_scaled-le quotient_parts (suc x) refl (omega arith)
