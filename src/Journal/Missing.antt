-- ===== src/Journal/Missing.antt =====
-- The closed days that lack a deposit, with the amounts suggested for them (`getMissingDays` of
-- apps/api/src/journal/journal.service.ts). `today` is the shop's calendar date.
-- The reads, which run at once, see one state of the database.
use coffee_shop_pos_multi_ag.Base.{
  ℕ, Bool, not, ◌&&◌, List, [], ◌∷◌, Option, filter, any, ◌==◌, if◌then◌else◌, ℤ,
}
use coffee_shop_pos_multi_ag.Failure.{Result, ok, err}
use coffee_shop_pos_multi_ag.Date.{Date, date_eq, date_before}
use coffee_shop_pos_multi_ag.Store.Journal.{
  JournalSuggestionKind, no_suggestion, rent_percent_of_rounded_gross, chair_flat_above_threshold,
  JournalDeposit, JournalSuggestionRate,
}
use coffee_shop_pos_multi_ag.Store.Calls.{M, pure, lift, ◌>>=◌}
use coffee_shop_pos_multi_ag.Reporting.Daily.{get_closed_daily_gross}
use coffee_shop_pos_multi_ag.Journal.{require_ledger, suggest_for, rate_in_force_for}
use coffee_shop_pos_multi_ag.Journal.Rates.{rates_of}

pub record JournalMissingDay : Type 0 where
  pub business_date : Date
  pub gross_sales_cents : ℤ
  pub suggested_amount_cents : Option ℤ

abbrev pub has_deposit : ℕ → Date → List JournalDeposit → Bool
has_deposit ledger_id date deposits =
    any (λ d. d.ledger_id == ledger_id && date_eq d.business_date date) deposits

-- The days of `closed` that no deposit of the ledger is recorded for.
unfoldable pub without_deposit : ℕ → List JournalDeposit → List (Date × ℤ) → List (Date × ℤ)
unfolding date_eq
without_deposit ledger_id deposits closed =
    filter (λ day. not (has_deposit ledger_id day.0 deposits)) closed

insert_date : Date × ℤ → List (Date × ℤ) → List (Date × ℤ)
insert_date x [] = x ∷ []
insert_date x (y ∷ ys) =
    let rest = insert_date x ys in if date_before y.0 x.0 then y ∷ rest else x ∷ y ∷ ys

unfoldable pub sort_dates : List (Date × ℤ) → List (Date × ℤ)
unfolding insert_date date_before
sort_dates [] = []
sort_dates (x ∷ xs) = insert_date x (sort_dates xs)

abbrev rates_for : JournalSuggestionKind → List JournalSuggestionRate → List JournalSuggestionRate
rates_for no_suggestion rates = []
rates_for rent_percent_of_rounded_gross rates = rates
rates_for chair_flat_above_threshold rates = rates

unfoldable pub suggestions :
    JournalSuggestionKind
    → List JournalSuggestionRate
    → List (Date × ℤ)
    → Result (List JournalMissingDay)
unfolding suggest_for rate_in_force_for
suggestions kind rates [] = ok []
suggestions kind rates (day ∷ days) =
    elim (suggest_for kind day.1 (rate_in_force_for rates day.0)) [
      | err e ↦ err e
      | ok suggested ↦ elim (suggestions kind rates days) [
        | err e ↦ err e
        | ok rest ↦ ok (
            record {
              business_date = day.0;
              gross_sales_cents = day.1;
              suggested_amount_cents = suggested;
            }
            ∷ rest)
      ]
    ]

-- `getMissingDays`
unfoldable pub get_missing_days : Date → ℕ → M (List JournalMissingDay)
unfolding require_ledger get_closed_daily_gross without_deposit sort_dates suggestions date_before
get_missing_days today ledger_id = do
  ledger ← require_ledger ledger_id
  if date_before today ledger.start_date then pure [] else (do
    closed ← λ db. lift (get_closed_daily_gross ledger.start_date today db) db
    λ db.
        lift
          (suggestions ledger.suggestion_kind
            (rates_for ledger.suggestion_kind (rates_of ledger_id db.journal_rates))
            (sort_dates (without_deposit ledger_id db.journal_deposits closed)))
          db)
