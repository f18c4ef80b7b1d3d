-- ===== src/Money/Sums.antt =====
-- Sums of money: when `add_money` is the exact sum, and when it throws.
use coffee_shop_pos_multi_ag.Base.{
  ℕ, ◌+◌, ◌≤◌, ◌<◌, ◌≡◌, ◌-◌, neg_ℤ, ◌∙◌, inl, inr, refl, ltb, Bool-cases, List, [], ◌∷◌, arith,
  if◌then◌else◌, ℤ, pos, neg_part, ◌+ℤ◌, abs, sum, All, int_laws,
}
use coffee_shop_pos_multi_ag.Number.{two_53, add}
use coffee_shop_pos_multi_ag.Number.Rounding.{round-exact, add-nonneg, +ℤ-nonneg}
use coffee_shop_pos_multi_ag.Failure.{ok, err, type_error}
use coffee_shop_pos_multi_ag.Money.{cents, reduce_add, add_money}

abbrev pub abs_sum : List ℤ → ℕ
abs_sum [] = 0
abs_sum (x ∷ xs) = abs x + abs_sum xs

pub abs-+ℤ-le : (a b : ℤ) → abs (a +ℤ b) ≤ abs a + abs b
unfolding ◌+ℤ◌
abs-+ℤ-le a b = ground arith

add-exact : (a b : ℤ) → abs a + abs b < two_53 → add a b ≡ a +ℤ b
unfolding add
add-exact a b h = round-exact (a +ℤ b) (omega (arith, abs-+ℤ-le a b))

add-exact_result : (a b : ℤ) → abs (a +ℤ b) < two_53 → add a b ≡ a +ℤ b
unfolding add
add-exact_result a b h = round-exact (a +ℤ b) h

pub reduce_add-exact :
    (t : ℤ) (xs : List ℤ) → abs t + abs_sum xs < two_53 → reduce_add t xs ≡ t +ℤ sum xs
unfolding reduce_add
reduce_add-exact t [] h = omega int_laws
reduce_add-exact t (x ∷ xs) h =
    rw (add-exact t x (omega arith), reduce_add-exact (t +ℤ x) xs (omega (arith, abs-+ℤ-le t x)))
      (omega int_laws)

pub abs-sum-le : (xs : List ℤ) → abs (sum xs) ≤ abs_sum xs
abs-sum-le [] = omega arith
abs-sum-le (x ∷ xs) = omega (arith, abs-+ℤ-le x (sum xs), abs-sum-le xs)

pub cents-ok : (x : ℤ) → abs x < two_53 → cents x ≡ ok x
unfolding cents
cents-ok x h = ground arith

pub cents-err : (x : ℤ) → two_53 ≤ abs x → cents x ≡ err type_error
unfolding cents
cents-err x h = ground arith

-- Amounts whose sizes add up to a safe integer, whatever their signs, are added exactly.
pub add_money-exact : (xs : List ℤ) → abs_sum xs < two_53 → add_money xs ≡ ok (sum xs)
unfolding add_money
add_money-exact xs h =
    let e : reduce_add (pos 0) xs ≡ sum xs =
      rw (reduce_add-exact (pos 0) xs (omega arith)) (omega int_laws) in
    rw e (cents-ok (sum xs) (omega (arith, abs-sum-le xs)))

abbrev pub IsNonneg : ℤ → Type 0
IsNonneg x = neg_part x ≡ 0

-- Once a running total of such amounts is unsafe it stays so.
pub reduce_add-unsafe :
    (t : ℤ) (xs : List ℤ)
    → IsNonneg t
    → All IsNonneg xs
    → two_53 ≤ abs t + abs_sum xs
    → two_53 ≤ abs (reduce_add t xs)
unfolding reduce_add
reduce_add-unsafe t [] p ps h = omega arith
reduce_add-unsafe t (x ∷ xs) p ps h =
    let n = add-nonneg t x p ps.0 in
    reduce_add-unsafe (add t x) xs n.0 ps.1 (elim (Bool-cases (ltb (abs t + abs x) two_53)) [
      | inl small ↦ rw (add-exact t x (ground arith)) (omega (arith, (+ℤ-nonneg t x p ps.0).1))
      | inr large ↦ omega (arith, n.1 (ground arith))
    ])

-- Adding amounts that are not negative gives their exact sum, or throws when that is unsafe: no
-- rounding on the way hides an overflow.
pub add_money-nonneg :
    (xs : List ℤ)
    → All IsNonneg xs
    → add_money xs ≡ (if ltb (abs_sum xs) two_53 then ok (sum xs) else err type_error)
unfolding add_money
add_money-nonneg xs ps = elim (Bool-cases (ltb (abs_sum xs) two_53)) [
  | inl e ↦ rw e (add_money-exact xs (ground arith))
  | inr e ↦
      rw (e, add_money)
        (cents-err (reduce_add (pos 0) xs) (reduce_add-unsafe (pos 0) xs refl ps (ground arith)))
]

-- A difference of amounts that does not go below zero.
pub add_money-minus :
    (g d : ℕ) → d ≤ g → g < two_53 → add_money (pos g ∷ neg_ℤ (pos d) ∷ []) ≡ ok (pos (g - d))
unfolding add_money reduce_add ◌+ℤ◌ neg_ℤ
add_money-minus g d le h =
    let first : add (pos 0) (pos g) ≡ pos g =
      add-exact_result (pos 0) (pos g) (ground arith) ∙ ground arith in
    let second : add (pos g) (neg_ℤ (pos d)) ≡ pos (g - d) =
      add-exact_result (pos g) (neg_ℤ (pos d)) (ground arith) ∙ ground arith in
    rw (first, second) (cents-ok (pos (g - d)) (omega arith))
