-- ===== src/Number.antt =====
-- The numbers of the program: JavaScript doubles that hold whole values. A whole value is an exact
-- integer up to 2^53 in size; a sum or a product beyond that is rounded to 53 significant bits,
-- ties to even (IEEE 754). Results here stay far below the largest double, so no infinity arises.
use coffee_shop_pos_multi_ag.Base.{
  ℕ, zero, suc, ◌+◌, ◌-◌, ◌*◌, ◌/◌, ◌%◌, ◌^◌, Bool, ltb, leb, ◌==◌, if◌then◌else◌, ℤ, pos, negsuc,
  ◌+ℤ◌, ◌-ℤ◌, ◌*ℤ◌, abs, neg_ℤ,
}
pub mod Rounding
pub mod Quotient

-- Number.MAX_SAFE_INTEGER + 1
abbrev pub two_53 : ℕ
two_53 = 9007199254740992

-- `Number.isSafeInteger` of a whole value.
abbrev pub is_safe_integer : ℤ → Bool
is_safe_integer x = ltb (abs x) two_53

-- The distance of neighbouring doubles at x, for x below 2^53 times the last one tried.
unfoldable pub spacing : ℕ → ℕ → ℕ → ℕ
spacing zero u x = u
spacing (suc fuel) u x = let more = spacing fuel (2 * u) x in if ltb x (u * two_53) then u else more

-- The multiple of u that is nearest to q * u + r, the even one at a tie.
unfoldable pub nearest : ℕ → ℕ → ℕ → ℕ
nearest u q r =
    if ltb (2 * r) u
    then q * u
    else if ltb u (2 * r)
    then (q + 1) * u
    else if (q % 2) == 0
    then q * u
    else (q + 1) * u

unfoldable pub round_ℕ : ℕ → ℕ
unfolding spacing nearest
round_ℕ x = let u = spacing 64 1 x in nearest u (x / u) (x % u)

unfoldable pub round : ℤ → ℤ
unfolding round_ℕ
round (pos n) = pos (round_ℕ n)
round (negsuc n) = neg_ℤ (pos (round_ℕ (suc n)))

-- The program's `a + b` and `a * b`.
unfoldable pub add : ℤ → ℤ → ℤ
unfolding round
add a b = round (a +ℤ b)

unfoldable pub mul : ℤ → ℤ → ℤ
unfolding round
mul a b = round (a *ℤ b)

-- The program's `a - b`.
unfoldable pub sub : ℤ → ℤ → ℤ
unfolding round
sub a b = round (a -ℤ b)

-- `Math.floor(x / n)`: the quotient is rounded to the nearest double before the floor is taken. It is counted in
-- parts of 1 / `quotient_parts`, which are finer than the doubles at every quotient of 2^-11 or more.
abbrev pub quotient_parts : ℕ
quotient_parts = 2 ^ 64

unfoldable pub floor_scaled : ℕ → ℕ → ℕ → ℕ
unfolding spacing nearest
floor_scaled parts x n =
    let u = spacing 64 1 (x * parts / n) in
    nearest (u * n) (x * parts / (u * n)) (x * parts % (u * n)) / (n * parts)

unfoldable pub floor_quotient : ℕ → ℕ → ℕ
unfolding floor_scaled
floor_quotient x n = floor_scaled quotient_parts x n
