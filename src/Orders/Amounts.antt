-- ===== src/Orders/Amounts.antt =====
-- What one order line costs (`calculateLineAmounts`, `normalizePreferences` and
-- `isPlainMergeableLine` of apps/api/src/orders/orders.service.ts). The arithmetic is that of doubles.
use coffee_shop_pos_multi_ag.Base.{
  ℕ, Bool, true, false, not, ◌&&◌, ◌||◌, List, [], ◌∷◌, filter, any, is_none, ℤ, pos, pos_part,
  ltb_ℤ, eq_ℤ,
}
use coffee_shop_pos_multi_ag.Number.{is_safe_integer, add, sub, mul, floor_quotient}
use coffee_shop_pos_multi_ag.Failure.{
  Result, ok, ◌>>◌, throw_if, bad_request, quantity_not_positive, upsize_count_out_of_range,
  upsize_not_eligible, line_out_of_range, upsize_exceeds_gross,
}
use coffee_shop_pos_multi_ag.Store.{
  DiscountKind, no_discount, pwd, senior, LinePreference, sweeter, stronger, less_sweet, less_ice,
  SaleLine,
}

abbrev pub statutory_discount_percent : ℕ
statutory_discount_percent = 20

abbrev pub free_upsize_unit_cents : ℕ
free_upsize_unit_cents = 3000

pub record LineAmounts : Type 0 where
  pub line_gross_cents : ℤ
  pub free_upsize_cents : ℤ
  pub discount_cents : ℤ
  pub line_total_cents : ℤ

-- `Math.floor((base * STATUTORY_DISCOUNT_PERCENT + 50) / 100)`; the guard above it in the code makes
-- the base at least 0.
abbrev pub percent_and_half : ℤ → ℤ
percent_and_half base = add (mul base (pos statutory_discount_percent)) (pos 50)

unfoldable pub statutory_discount : DiscountKind → ℤ → ℤ
unfolding add mul floor_quotient
statutory_discount no_discount base = pos 0
statutory_discount pwd base = pos (floor_quotient (pos_part (percent_and_half base)) 100)
statutory_discount senior base = pos (floor_quotient (pos_part (percent_and_half base)) 100)

unfoldable pub calculate_line_amounts : SaleLine → Result LineAmounts
unfolding mul sub
calculate_line_amounts line = do
  throw_if (not (is_safe_integer line.quantity) || ltb_ℤ line.quantity (pos 1))
      (bad_request quantity_not_positive)
  throw_if
      (not (is_safe_integer line.free_upsize_count)
        || ltb_ℤ line.free_upsize_count (pos 0)
        || ltb_ℤ line.quantity line.free_upsize_count)
      (bad_request upsize_count_out_of_range)
  throw_if (not line.free_upsize_eligible && ltb_ℤ (pos 0) line.free_upsize_count)
      (bad_request upsize_not_eligible)
  let gross = mul line.unit_price_cents line.quantity
  let upsize = mul line.free_upsize_count (pos free_upsize_unit_cents)
  throw_if (not (is_safe_integer gross)) (bad_request line_out_of_range)
  throw_if (ltb_ℤ gross upsize) (bad_request upsize_exceeds_gross)
  let discount = statutory_discount line.discount_kind (sub gross upsize)
  ok (record {
    line_gross_cents = gross;
    free_upsize_cents = upsize;
    discount_cents = discount;
    line_total_cents = sub (sub gross upsize) discount;
  })

-- `{ ...line, ...amounts }`
abbrev pub with_amounts : SaleLine → LineAmounts → SaleLine
with_amounts line a = record line {
  line_gross_cents = a.line_gross_cents;
  free_upsize_cents = a.free_upsize_cents;
  discount_cents = a.discount_cents;
  line_total_cents = a.line_total_cents;
}

abbrev pub preference_eq : LinePreference → LinePreference → Bool
preference_eq sweeter sweeter = true
preference_eq stronger stronger = true
preference_eq less_sweet less_sweet = true
preference_eq less_ice less_ice = true
preference_eq _ _ = false

abbrev pub declaration_order : List LinePreference
declaration_order = sweeter ∷ stronger ∷ less_sweet ∷ less_ice ∷ []

unfoldable pub normalize_preferences : List LinePreference → List LinePreference
normalize_preferences preferences =
    filter (λ p. any (preference_eq p) preferences) declaration_order

abbrev pub is_no_discount : DiscountKind → Bool
is_no_discount no_discount = true
is_no_discount _ = false

abbrev pub is_nil {ℓ} : {A : Type ℓ} → List A → Bool
is_nil [] = true
is_nil (x ∷ xs) = false

unfoldable pub is_plain_mergeable_line : SaleLine → Bool
is_plain_mergeable_line line =
    is_no_discount line.discount_kind
    && is_nil line.preferences
    && is_none line.preference_note
    && eq_ℤ line.free_upsize_count (pos 0)
