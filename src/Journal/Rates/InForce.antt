-- ===== src/Journal/Rates/InForce.antt =====
-- Which rate is in force on a date.
use coffee_shop_pos_multi_ag.Base.{
  ◌≡◌, refl, sym, true, false, List, [], ◌∷◌, Option, none, some, All, Bool-cases, inl, inr, arith,
  ◌⊎◌, Never,
}
use mathlib.Core.Path.{subst}
use coffee_shop_pos_multi_ag.Date.{Date, date_before}
use coffee_shop_pos_multi_ag.Store.Journal.{JournalSuggestionRate}
use coffee_shop_pos_multi_ag.Journal.{rate_loop, rate_in_force_for}

abbrev pub Among : JournalSuggestionRate → List JournalSuggestionRate → Type 0
Among r [] = Never
Among r (x ∷ xs) = (x ≡ r) ⊎ Among r xs

-- The rate in force on a date: one of those that took effect by then, as late as any of them.
abbrev pub IsInForce : List JournalSuggestionRate → Date → Option JournalSuggestionRate → Type 0
IsInForce rates date none = All (λ q. date_before date q.effective_from ≡ true) rates
IsInForce rates date (some r) =
    Among r rates
    × (date_before date r.effective_from ≡ false)
    × All
        (λ q.
          (date_before date q.effective_from ≡ true)
          ⊎ (date_before r.effective_from q.effective_from ≡ false))
        rates

not_before_since :
    (r q c : Date) → date_before r q ≡ false → date_before c q ≡ true → date_before r c ≡ false
unfolding date_before
not_before_since r q c h k = ground arith

not_before_trans :
    (r c q : Date) → date_before r c ≡ false → date_before c q ≡ false → date_before r q ≡ false
unfolding date_before
not_before_trans r c q h k = ground arith

not_before_itself : (d : Date) → date_before d d ≡ false
unfolding date_before
not_before_itself d = ground arith

-- The loop from a rate that it holds already.
loop_from_some :
    (rates : List JournalSuggestionRate) (date : Date) (c : JournalSuggestionRate)
    → date_before date c.effective_from ≡ false
    → (r : JournalSuggestionRate) × (rate_loop rates date (some c) ≡ some r)
      × ((r ≡ c) ⊎ Among r rates)
      × (date_before date r.effective_from ≡ false)
      × (date_before r.effective_from c.effective_from ≡ false)
      × All
          (λ q.
            (date_before date q.effective_from ≡ true)
            ⊎ (date_before r.effective_from q.effective_from ≡ false))
          rates
unfolding rate_loop
loop_from_some [] date c h = (c, refl, inl refl, h, not_before_itself c.effective_from, tt)
loop_from_some (q ∷ rates) date c h = elim (Bool-cases (date_before date q.effective_from)) [
  | inl later ↦
      let ih = loop_from_some rates date c h in
      rw later (ih.0, ih.1, among ih.2, ih.3, ih.4, (inl refl, ih.5))
  | inr early ↦ elim (Bool-cases (date_before c.effective_from q.effective_from)) [
    | inl better ↦
        let ih = loop_from_some rates date q early in
        rw (early, better)
          (
            ih.0,
            ih.1,
            inr (from_q ih.2),
            ih.3,
            not_before_since ih.0.effective_from q.effective_from c.effective_from ih.4 better,
            (inr ih.4, ih.5),
          )
    | inr worse ↦
        let ih = loop_from_some rates date c h in
        rw (early, worse)
          (
            ih.0,
            ih.1,
            among ih.2,
            ih.3,
            ih.4,
            (
              inr (
                  not_before_trans ih.0.effective_from c.effective_from q.effective_from ih.4
                    worse),
              ih.5,
            ),
          )
  ]
]
  where
    from_q : {r : JournalSuggestionRate} → ((r ≡ q) ⊎ Among r rates) → (q ≡ r) ⊎ Among r rates
    from_q (inl e) = inl (sym e)
    from_q (inr a) = inr a

    among :
        {r : JournalSuggestionRate}
        → ((r ≡ c) ⊎ Among r rates)
        → (r ≡ c) ⊎ ((q ≡ r) ⊎ Among r rates)
    among (inl e) = inl e
    among (inr a) = inr (inr a)

passed :
    (q : JournalSuggestionRate) (rates : List JournalSuggestionRate) (date : Date)
    → date_before date q.effective_from ≡ true
    → rate_in_force_for (q ∷ rates) date ≡ rate_in_force_for rates date
unfolding rate_in_force_for rate_loop
passed q rates date later = rw later refl

skipped :
    (q : JournalSuggestionRate) (rates : List JournalSuggestionRate) (date : Date)
    → date_before date q.effective_from ≡ true
    → (o : Option JournalSuggestionRate) → IsInForce rates date o
    → IsInForce (q ∷ rates) date o
skipped q rates date later none h = (later, h)
skipped q rates date later (some r) h = (inr h.0, h.1, (inl later, h.2))

-- The loop finds the rate in force: `none` only where every rate takes effect after the date, and else a rate of
-- the list that has taken effect by the date, as late as any other that has.
pub rate_in_force_for-IsInForce :
    (rates : List JournalSuggestionRate) (date : Date)
    → IsInForce rates date (rate_in_force_for rates date)
unfolding rate_in_force_for rate_loop
rate_in_force_for-IsInForce [] date = tt
rate_in_force_for-IsInForce (q ∷ rates) date =
    elim (Bool-cases (date_before date q.effective_from)) [
      | inl later ↦ subst (IsInForce (q ∷ rates) date) (sym (passed q rates date later)) (
          skipped q rates date later (rate_in_force_for rates date)
            (rate_in_force_for-IsInForce rates date))
      | inr early ↦
          let found = loop_from_some rates date q early in
          rw (early, found.1) (from_q found.2, found.3, (inr found.4, found.5))
    ]
  where
    from_q : {r : JournalSuggestionRate} → ((r ≡ q) ⊎ Among r rates) → (q ≡ r) ⊎ Among r rates
    from_q (inl e) = inl (sym e)
    from_q (inr a) = inr a
