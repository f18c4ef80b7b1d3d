-- ===== src/Tests/JournalExamples.antt =====
-- Examples of the journal.
use coffee_shop_pos_multi_ag.Base.{
  arith, ℕ, ◌+◌, ◌≡◌, refl, true, none, some, List, [], ◌∷◌, map, ℤ, pos, ◌+ℤ◌, neg_ℤ,
}
use coffee_shop_pos_multi_ag.Date.{Date, date_before}
use coffee_shop_pos_multi_ag.Store.Journal.{
  rent_percent_of_rounded_gross, JournalLedger, JournalSuggestionRate,
}
use coffee_shop_pos_multi_ag.Failure.{err, bad_request, day_not_closed}
use coffee_shop_pos_multi_ag.Money.{day_closed, reduce_add, variance_of}
use coffee_shop_pos_multi_ag.Number.{add}
use coffee_shop_pos_multi_ag.Store.{Db}
use coffee_shop_pos_multi_ag.Journal.Deposits.{
  JournalDepositDto, create_deposit, create_deposits_bulk,
}
use coffee_shop_pos_multi_ag.Journal.Deposits.Bulk.{IsWhole, create_deposits_bulk-IsWhole}
use coffee_shop_pos_multi_ag.Money.Sums.{abs_sum}
use coffee_shop_pos_multi_ag.Journal.Balance.{amounts_of, IsDeposited, create_deposit-IsDeposited}
use coffee_shop_pos_multi_ag.Tests.{day, morning}
use coffee_shop_pos_multi_ag.Journal.{rate_in_force_for}
use coffee_shop_pos_multi_ag.Journal.RateInput.{UpdateRateDto}
use coffee_shop_pos_multi_ag.Journal.Rates.{rates_of, upsert_rate}
use coffee_shop_pos_multi_ag.Journal.Rates.InForce.{IsInForce, rate_in_force_for-IsInForce}
use coffee_shop_pos_multi_ag.Journal.Rates.Past.{upsert_rate-past}

abbrev on_day : ℕ → Date
on_day d = record { year = 2026; month = 3; day = d }

abbrev rent : JournalLedger
rent = record {
  id = 5;
  name = b'R' ∷ [];
  start_date = on_day 1;
  starting_balance_cents = pos 0;
  suggestion_kind = rent_percent_of_rounded_gross;
  is_built_in = true;
  location_id = none;
}

abbrev rate : ℕ → Date → JournalSuggestionRate
rate id from = record {
  id = id;
  ledger_id = 5;
  effective_from = from;
  rent_percent_basis_points = some (pos 1000);
  chair_amount_cents = none;
  chair_threshold_cents = none;
  location_id = none;
  created_by_user_id = none;
}

abbrev rates : List JournalSuggestionRate
rates = rate 1 (on_day 3) ∷ rate 2 (on_day 1) ∷ rate 3 (on_day 9) ∷ []

rate_in_force_for-IsInForce_example :
    IsInForce rates (on_day 8) (rate_in_force_for rates (on_day 8))
rate_in_force_for-IsInForce_example = rate_in_force_for-IsInForce rates (on_day 8)

found_rate : rate_in_force_for rates (on_day 8) ≡ some (rate 1 (on_day 3))
unfolding rate_in_force_for
found_rate = refl

abbrev doubled : UpdateRateDto
doubled = record {
  rent_percent_basis_points = some (pos 2000);
  chair_amount_cents = none;
  chair_threshold_cents = none;
}

upsert_rate-past_example :
    rate_in_force_for (rates_of 5 (upsert_rate 4 rent (on_day 9) doubled 3 rates)) (on_day 8)
    ≡ rate_in_force_for (rates_of 5 rates) (on_day 8)
upsert_rate-past_example =
    upsert_rate-past 4 rent (on_day 9) (on_day 8) doubled 3 5 rates (unfold date_before in refl)

-- A closed day without a deposit, and two without a trading day.
abbrev after_closing : Db
after_closing = record morning {
  days = record day { status = day_closed; business_date = on_day 4 } ∷ [];
  journal_ledgers = rent ∷ [];
}

abbrev deposit_on : ℕ → JournalDepositDto
deposit_on d = record { business_date = on_day d; amount_cents = pos 120000; note = none }

abbrev closed_days : List (Date × ℤ)
closed_days = (on_day 3, pos 100000) ∷ (on_day 4, pos 900000) ∷ (on_day 5, pos 0) ∷ []

create_deposits_bulk-IsWhole_example :
    IsWhole 5
      (deposit_on 4 ∷ [])
      closed_days
      (λ db. db)
      after_closing
      (create_deposits_bulk (λ db. db) (λ n. 70 + n) 5 (deposit_on 4 ∷ []) 3 after_closing)
create_deposits_bulk-IsWhole_example =
    create_deposits_bulk-IsWhole 5 (deposit_on 4 ∷ []) closed_days (λ db. db) after_closing
      (λ n. 70 + n) 3

saved_bulk :
    map
      (λ d. d.id)
      (create_deposits_bulk
        (λ db. db)
        (λ n. 70 + n)
        5
        (deposit_on 4 ∷ [])
        3
        after_closing).1.journal_deposits
    ≡ 70 ∷ []
unfolding create_deposits_bulk reduce_add add ◌+ℤ◌ neg_ℤ variance_of
saved_bulk = refl

refused_bulk :
    (create_deposits_bulk
      (λ db. db)
      (λ n. 70 + n)
      5
      (deposit_on 5 ∷ deposit_on 4 ∷ [])
      3
      after_closing).0
    ≡ err (bad_request day_not_closed)
unfolding create_deposits_bulk reduce_add add ◌+ℤ◌ neg_ℤ variance_of
refused_bulk = refl

rent_size : abs_sum (pos 120000 ∷ amounts_of rent after_closing) ≡ 120000
rent_size = refl

create_deposit-IsDeposited_example :
    IsDeposited rent
      (deposit_on 4)
      (λ db. db)
      after_closing
      (create_deposit (λ db. db) 70 5 (deposit_on 4) 3 after_closing)
create_deposit-IsDeposited_example =
    create_deposit-IsDeposited rent (deposit_on 4) (λ db. db) after_closing
      (omega (arith, rent_size)) 70 3
