-- ===== src/Journal/Rates/Past.antt =====
-- A change of rate leaves the past alone.
use coffee_shop_pos_multi_ag.Base.{
  ℕ, ◌≡◌, refl, sym, ◌∙◌, ap, true, List, [], ◌∷◌, Option, none, some, any, update_where, ◌==◌,
  if◌then◌else◌, Bool-cases, inl, inr, arith,
}
use coffee_shop_pos_multi_ag.Journal.RateInput.{UpdateRateDto}
use coffee_shop_pos_multi_ag.Date.{Date, date_eq, date_before}
use coffee_shop_pos_multi_ag.Store.Journal.{JournalLedger, JournalSuggestionRate}
use coffee_shop_pos_multi_ag.Journal.{replaces, rate_loop, rate_in_force_for}
use coffee_shop_pos_multi_ag.Journal.Rates.{at_key, rewritten, new_rate, upsert_rate, rates_of}

date_eq_number :
    (a b d : Date) → date_eq a b ≡ true → date_before d b ≡ true → date_before d a ≡ true
unfolding date_eq date_before
date_eq_number a b d e h = ground arith

abbrev next_rate :
    Date → JournalSuggestionRate → Option JournalSuggestionRate → Option JournalSuggestionRate
next_rate date x current =
    if date_before date x.effective_from
    then current
    else if replaces x current
    then some x
    else current

loop-cons :
    (date : Date) (x : JournalSuggestionRate) (rates : List JournalSuggestionRate)
    (current : Option JournalSuggestionRate)
    → rate_loop (x ∷ rates) date current ≡ rate_loop rates date (next_rate date x current)
unfolding rate_loop
loop-cons date x rates current = refl

next_rate_skip :
    (date : Date) (x : JournalSuggestionRate) (current : Option JournalSuggestionRate)
    → date_before date x.effective_from ≡ true
    → next_rate date x current ≡ current
next_rate_skip date x current later = rw later refl

loop_skip :
    (other : ℕ) (date : Date) (x : JournalSuggestionRate) (rates : List JournalSuggestionRate)
    (current : Option JournalSuggestionRate)
    → date_before date x.effective_from ≡ true
    → rate_loop (rates_of other (x ∷ rates)) date current
      ≡ rate_loop (rates_of other rates) date current
loop_skip other date x rates current later = elim (Bool-cases (x.ledger_id == other)) [
  | inl mine ↦ rw mine (
      loop-cons date x (rates_of other rates) current
      ∙ ap (rate_loop (rates_of other rates) date) (next_rate_skip date x current later))
  | inr theirs ↦ rw theirs refl
]

module _ (ledger user_id : ℕ) (today date : Date) (fields : UpdateRateDto)
    (early : date_before date today ≡ true) where
  rewritten-loop :
      (other : ℕ) (rates : List JournalSuggestionRate) (current : Option JournalSuggestionRate)
      → rate_loop
          (rates_of other (update_where (at_key ledger today) (rewritten fields user_id) rates))
          date
          current
        ≡ rate_loop (rates_of other rates) date current
  rewritten-loop other [] current = refl
  rewritten-loop other (r ∷ rates) current = elim (Bool-cases (at_key ledger today r)) [
    | inl hit ↦
        let later : date_before date r.effective_from ≡ true =
          date_eq_number r.effective_from today date (ground arith) early in
        rw hit (
          loop_skip other date (rewritten fields user_id r) _ current (unfold rewritten in later)
          ∙ rewritten-loop other rates current
          ∙ sym (loop_skip other date r rates current later))
    | inr missed ↦ rw missed (elim (Bool-cases (r.ledger_id == other)) [
      | inl mine ↦ rw mine (
          loop-cons date r _ current
          ∙ rewritten-loop other rates (next_rate date r current)
          ∙ sym (loop-cons date r (rates_of other rates) current))
      | inr theirs ↦ rw theirs (rewritten-loop other rates current)
    ])
  ]

-- A change of rate is never backdated: whatever the rates are, and whichever of its ledger's rates of today it
-- writes over, the rate in force on every date before today stays what it was, for that ledger and for all others.
pub upsert_rate-past :
    (id : ℕ) (ledger : JournalLedger) (today date : Date) (fields : UpdateRateDto)
    (user_id other : ℕ) (rates : List JournalSuggestionRate)
    → date_before date today ≡ true
    → rate_in_force_for (rates_of other (upsert_rate id ledger today fields user_id rates)) date
      ≡ rate_in_force_for (rates_of other rates) date
unfolding upsert_rate rate_in_force_for
upsert_rate-past id ledger today date fields user_id other rates early =
    elim (Bool-cases (any (at_key ledger.id today) rates)) [
      | inl there ↦
          rw there (rewritten-loop ledger.id user_id today date fields early other rates none)
      | inr absent ↦ rw absent (
          loop_skip other date (new_rate id ledger today fields user_id) rates none
            (unfold new_rate in early))
    ]
